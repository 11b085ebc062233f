-- ===== src/Policies/Managed/Update.antt =====
-- Updating a policy keeps the invariant.
use balance_sheet_analysis.Prelude.{
  ℕ, true, ◌≡◌, ◌≢◌, ◌≤◌, sym, ap, ◌∙◌, inl, inr, Bool-cases, List, [], ◌∷◌, ◌++◌, Elem, ◌⊎◌, arith,
  if◌then◌else◌, length, select,
}
use mathlib.Core.Path.{subst}
use balance_sheet_analysis.Prelude.Equality.{◌==◌, nat_eq, string_eq}
use balance_sheet_analysis.Tables.{Policy, PolicyHistory, UserPolicy}
use balance_sheet_analysis.Policies.Engine.Total.{IsAccepted}
use balance_sheet_analysis.Policies.Names.{is_protected, system_superuser}
use balance_sheet_analysis.Policies.Store.Rows.{replace_policy, name_free}
use balance_sheet_analysis.Policies.Store.Rows.Laws.{
  Elem-replace_policy, Elem-replace_policy_of, name_free-Elem,
}
use balance_sheet_analysis.Policies.Managed.{IsManaged}
use balance_sheet_analysis.Policies.Managed.Create.{IsNamed, IsNamed-append, superuser_protected}

module _ (policies : List Policy) (policy_seq : ℕ) (user_policies : List UserPolicy)
    (history : List PolicyHistory) (m : IsManaged policies policy_seq user_policies history) where
  module _ (policy : Policy) (there : Elem policy policies) (new : Policy)
      (same : new.id ≡ policy.id) (h : PolicyHistory) (n : IsNamed h)
      (free : name_free new.id new.name policies ≡ true) (good : IsAccepted new.conditions)
      (keeps : is_protected policy.name ≡ true
        → (new.name ≡ policy.name) × (new.is_active ≡ true)) where
    -- The row that stands for one of the table afterwards.
    abbrev image : Policy → Policy
    image p = if p.id == new.id then new else p

    row_after :
        (q : Policy)
        → Elem q (replace_policy new policies)
        → (q ≡ new) ⊎ (Elem q policies × (q.id ≢ new.id))
    row_after q e = elim (Elem-replace_policy new q policies e) [
      | inl d ↦ inl d
      | inr (f, k) ↦ inr (f, λ g. absurd (cc (k, (nat_eq.same_iff q.id new.id).1 g)))
    ]

    one_key_after :
        {K : Type 0} (key : Policy → K)
        → ((p q : Policy) → Elem p policies → Elem q policies → key p ≡ key q → p ≡ q)
        → ((p : Policy) → Elem p policies → p.id ≢ new.id → key p ≢ key new)
        → (p q : Policy) → Elem p (replace_policy new policies)
        → Elem q (replace_policy new policies)
        → key p ≡ key q
        → p ≡ q
    one_key_after key old apart p q e f k = elim (row_after p e) [
      | inr (e, i) ↦ elim (row_after q f) [
        | inr (f, j) ↦ old p q e f k
        | inl g ↦ absurd (apart p e i (k ∙ ap key g))
      ]
      | inl d ↦ elim (row_after q f) [
        | inr (f, j) ↦ absurd (apart q f j (sym k ∙ ap key d))
        | inl g ↦ d ∙ sym g
      ]
    ]

    -- A property of a row that the new row has if the old one has it.
    image_lem :
        (P : Policy → Type 0) (p : Policy)
        → Elem p policies
        → P p
        → (P policy → P new)
        → P (image p)
    image_lem P p e has carry = elim (Bool-cases (p.id == new.id)) [
      | inl t ↦
          let i = (nat_eq.same_iff p.id new.id).0 t in
          subst (λ b. P (if b then new else p)) (sym t)
            (carry (subst P (m.ids p policy e there (i ∙ same)) has))
      | inr f ↦ subst (λ b. P (if b then new else p)) (sym f) has
    ]

    pub replaced-IsManaged :
        IsManaged (replace_policy new policies) policy_seq user_policies (history ++ h ∷ [])
    replaced-IsManaged = record {
      accepted = λ p e. elim (row_after p e) [
        | inl d ↦ subst (λ (q : Policy). IsAccepted q.conditions) (sym d) good
        | inr (e, k) ↦ m.accepted p e
      ];
      names =
          one_key_after (λ p. p.name) m.names
            (λ p e i k. i (
              name_free-Elem new.id new.name policies p free e
                ((string_eq.same_iff p.name new.name).1 k)));
      ids = one_key_after (λ p. p.id) m.ids (λ p e i k. i k);
      below = λ p e. elim (row_after p e) [
        | inl d ↦
            let b = m.below policy there in
            let k = ap (λ (q : Policy). q.id) d in omega (arith, b, k, same)
        | inr (e, k) ↦ m.below p e
      ];
      baseline = λ name t.
          let (p, e, k, active) = m.baseline name t in
          let (l, a) =
            image_lem (λ q. (q.name ≡ name) × (q.is_active ≡ true)) p e (k, active)
              (λ (f, _). let (g, live) = keeps (ap is_protected f ∙ t) in (g ∙ f, live)) in
          (image p, Elem-replace_policy_of new p policies e, l, a);
      linked = λ l e.
          let (p, f, k) = m.linked l e in
          (
            image p,
            Elem-replace_policy_of new p policies f,
            image_lem (λ q. q.id ≡ l.policy_id) p f k (λ g. same ∙ g),
          );
      single = m.single;
      superuser =
          let (p, e, k, held) = m.superuser in
          let (l, a) =
            image_lem
              (λ q.
                (q.name ≡ system_superuser)
                × (1 ≤ length (select (λ (l : UserPolicy). l.policy_id == q.id) user_policies)))
              p e (k, held)
              (λ (f, count).
                let (g, live) = keeps (ap is_protected f ∙ superuser_protected) in
                (
                  g ∙ f,
                  subst
                      (λ i.
                        1 ≤ length (select (λ (l : UserPolicy). l.policy_id == i) user_policies))
                      (sym same) count,
                )) in
          (image p, Elem-replace_policy_of new p policies e, l, a);
      named = IsNamed-append policies policy_seq user_policies history m h n;
    }
