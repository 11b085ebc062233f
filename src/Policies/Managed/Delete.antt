-- ===== src/Policies/Managed/Delete.antt =====
-- Deleting a policy, with its assignments, keeps the invariant.
use balance_sheet_analysis.Prelude.{
  ℕ, Bool, true, false, not, ◌≡◌, ◌≢◌, ◌≤◌, refl, sym, ap, ◌∙◌, inl, inr, Bool-cases, List, [], ◌∷◌,
  ◌++◌, Elem, Elem-select, arith, length, select,
}
use mathlib.Core.Path.{subst}
use balance_sheet_analysis.Prelude.Equality.{◌==◌, nat_eq, string_eq}
use balance_sheet_analysis.Tables.{Policy, PolicyHistory, UserPolicy}
use balance_sheet_analysis.Policies.Names.{is_protected}
use balance_sheet_analysis.Policies.Store.Rows.{remove_policy}
use balance_sheet_analysis.Policies.Store.Rows.Laws.{Elem-remove_policy, Elem-remove_policy_of}
use balance_sheet_analysis.Policies.Managed.{IsManaged}
use balance_sheet_analysis.Policies.Managed.Create.{IsNamed, IsNamed-append, superuser_protected}
use balance_sheet_analysis.Policies.Store.Assignments.{links}
use balance_sheet_analysis.Policies.Store.Assignments.Laws.{
  select-of_select, length-select-select-le,
}

not-true : (b : Bool) → not b ≡ true → b ≡ false
not-true true h = absurd (cc)
not-true false h = refl

module _ (policies : List Policy) (policy_seq : ℕ) (user_policies : List UserPolicy)
    (history : List PolicyHistory) (m : IsManaged policies policy_seq user_policies history) where
  module _ (policy : Policy) (there : Elem policy policies)
      (open_to : is_protected policy.name ≡ false) (h : PolicyHistory) (n : IsNamed h) where
    abbrev stays : UserPolicy → Bool
    stays l = not (l.policy_id == policy.id)

    -- A row with another name than the policy's has another id.
    other_id : (p : Policy) → Elem p policies → p.name ≢ policy.name → (p.id == policy.id) ≡ false
    other_id p e k = elim (Bool-cases (p.id == policy.id)) [
      | inl t ↦ absurd (
          k (
            ap (λ (q : Policy). q.name)
              (m.ids p policy e there ((nat_eq.same_iff p.id policy.id).0 t))))
      | inr f ↦ f
    ]

    baseline_other : (p : Policy) → is_protected p.name ≡ true → p.name ≢ policy.name
    baseline_other p t e = absurd (cc (t, open_to, ap is_protected e))

    pub removed-IsManaged :
        IsManaged
          (remove_policy policy.id policies)
          policy_seq
          (select stays user_policies)
          (history ++ h ∷ [])
    removed-IsManaged = record {
      accepted = λ p e. m.accepted p (Elem-remove_policy policy.id p policies e).0;
      names = λ p q e f.
          m.names p q (Elem-remove_policy policy.id p policies e).0
            (Elem-remove_policy policy.id q policies f).0;
      ids = λ p q e f.
          m.ids p q (Elem-remove_policy policy.id p policies e).0
            (Elem-remove_policy policy.id q policies f).0;
      below = λ p e. m.below p (Elem-remove_policy policy.id p policies e).0;
      baseline = λ name t.
          let (p, e, k, active) = m.baseline name t in
          (
            p,
            Elem-remove_policy_of policy.id p policies e
                (other_id p e (baseline_other p (ap is_protected k ∙ t))),
            k,
            active,
          );
      linked = λ l e.
          let (f, k) = (Elem-select stays l user_policies).0 e in
          let (p, g, i) = m.linked l f in
          (
            p,
            Elem-remove_policy_of policy.id p policies g
                (ap (λ i. i == policy.id) i ∙ not-true (l.policy_id == policy.id) k),
            i,
          );
      single = λ u k.
          let a = length-select-select-le (links u k) stays user_policies in
          let b = m.single u k in omega (arith, a, b);
      superuser =
          let (p, e, k, held) = m.superuser in
          let apart = other_id p e (baseline_other p (ap is_protected k ∙ superuser_protected)) in
          (
            p,
            Elem-remove_policy_of policy.id p policies e apart,
            k,
            subst (λ n. 1 ≤ n)
                (sym (
                  ap length (
                    select-of_select (λ (l : UserPolicy). l.policy_id == p.id) stays user_policies
                      (λ l t. ap not (
                        ap (λ i. i == policy.id) ((nat_eq.same_iff l.policy_id p.id).0 t)
                        ∙ apart)))))
                held,
          );
      named = IsNamed-append policies policy_seq user_policies history m h n;
    }
