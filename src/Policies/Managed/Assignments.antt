-- ===== src/Policies/Managed/Assignments.antt =====
-- Assigning a policy and taking it away keep the invariant.
use balance_sheet_analysis.Prelude.{
  ℕ, Bool, true, not, ◌≡◌, ◌≤◌, ◌+◌, sym, ap, ◌∙◌, inl, inr, Bool-cases, none, List, [], ◌∷◌, ◌++◌,
  Elem, Elem-snoc, Elem-select, length, select, arith, if◌then◌else◌,
}
use mathlib.Core.Path.{subst}
use balance_sheet_analysis.Prelude.Equality.{◌==◌, nat_eq}
use balance_sheet_analysis.Tables.{Policy, PolicyHistory, UserPolicy}
use balance_sheet_analysis.Policies.Names.{system_superuser}
use balance_sheet_analysis.Policies.Store.Assignments.{links, find_assignment}
use balance_sheet_analysis.Policies.Store.Assignments.Laws.{
  select-of_select, length-select-select-le, find_assignment-missing, length-select-links,
}
use balance_sheet_analysis.Policies.Managed.{IsManaged}

abbrev of_policy : ℕ → UserPolicy → Bool
of_policy k l = l.policy_id == k

links-own : (u k : ℕ) (l : UserPolicy) → links u k l ≡ true → (l.user_id ≡ u) × (l.policy_id ≡ k)
links-own u k l h = ground arith

length-select-snoc :
    {A : Type 0} (p : A → Bool) (xs : List A) (a : A)
    → length (select p (xs ++ a ∷ [])) ≡ length (select p xs) + (if p a then 1 else 0)
length-select-snoc p [] a = ground arith
length-select-snoc p (x ∷ xs) a = ground (arith, length-select-snoc p xs a)

module _ (policies : List Policy) (policy_seq : ℕ) (user_policies : List UserPolicy)
    (history : List PolicyHistory) (m : IsManaged policies policy_seq user_policies history)
    (policy : Policy) (there : Elem policy policies) where
  module _ (assignment : UserPolicy) (of_it : assignment.policy_id ≡ policy.id)
      (missing : find_assignment assignment.user_id assignment.policy_id user_policies ≡ none) where
    pub assigned-IsManaged :
        IsManaged policies policy_seq (user_policies ++ assignment ∷ []) history
    assigned-IsManaged = record {
      accepted = m.accepted;
      names = m.names;
      ids = m.ids;
      below = m.below;
      baseline = m.baseline;
      linked = λ l e. elim (Elem-snoc l assignment user_policies e) [
        | inl e ↦ m.linked l e
        | inr d ↦ (policy, there, sym (ap (λ (k : UserPolicy). k.policy_id) d ∙ of_it))
      ];
      single = λ u k.
          let before = m.single u k in
          let none_yet =
            find_assignment-missing assignment.user_id assignment.policy_id user_policies missing in
          let after = length-select-snoc (links u k) user_policies assignment in
          elim (Bool-cases (links u k assignment)) [
            | inl t ↦
                let (i, j) = links-own u k assignment t in
                let same_count =
                  ap (λ x. length (select (links x assignment.policy_id) user_policies)) i
                  ∙ ap (λ y. length (select (links u y) user_policies)) j in
                ground arith
            | inr f ↦ ground arith
          ];
      superuser =
          let (p, e, k, held) = m.superuser in
          let after = length-select-snoc (of_policy p.id) user_policies assignment in
          (p, e, k, omega (arith, held, after));
      named = m.named;
    }

  module _ (user_id : ℕ)
      (others : policy.name ≡ system_superuser
        → 2 ≤ length (select (of_policy policy.id) user_policies)) where
    abbrev stays : UserPolicy → Bool
    stays l = not (links user_id policy.id l)

    pub unassigned-IsManaged : IsManaged policies policy_seq (select stays user_policies) history
    unassigned-IsManaged = record {
      accepted = m.accepted;
      names = m.names;
      ids = m.ids;
      below = m.below;
      baseline = m.baseline;
      linked = λ l e. m.linked l ((Elem-select stays l user_policies).0 e).0;
      single = λ u k.
          let a = length-select-select-le (links u k) stays user_policies in
          let b = m.single u k in omega (arith, a, b);
      superuser =
          let (p, e, k, held) = m.superuser in
          (
            p,
            e,
            k,
            elim (Bool-cases (p.id == policy.id)) [
              | inl t ↦
                  let i = (nat_eq.same_iff p.id policy.id).0 t in
                  let two =
                    others (ap (λ (q : Policy). q.name) (m.ids policy p there e (sym i)) ∙ k) in
                  let one = m.single user_id policy.id in
                  let split = length-select-links user_id policy.id user_policies in
                  subst (λ j. 1 ≤ length (select (of_policy j) (select stays user_policies)))
                    (sym i) (omega (arith, two, one, split))
              | inr f ↦
                  subst (λ n. 1 ≤ n)
                    (sym (
                      ap length (
                        select-of_select (of_policy p.id) stays user_policies (λ l t.
                          let g =
                            ap (λ i. i == policy.id) ((nat_eq.same_iff l.policy_id p.id).0 t) ∙ f in
                          ground arith))))
                    held
            ],
          );
      named = m.named;
    }
