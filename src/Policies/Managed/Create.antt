-- ===== src/Policies/Managed/Create.antt =====
-- Creating a policy keeps the invariant, and so does a history that gains an entry.
use balance_sheet_analysis.Prelude.{
  ℕ, suc, true, ◌≡◌, ◌≢◌, refl, sym, ap, ◌∙◌, inl, inr, some, List, [], ◌∷◌, ◌++◌, Elem, Elem-snoc,
  Elem-snoc_of, arith,
}
use mathlib.Core.Path.{subst}
use balance_sheet_analysis.Prelude.Equality.{nat_eq, string_eq}
use balance_sheet_analysis.Tables.{Policy, PolicyDefinition, PolicyHistory, UserPolicy}
use balance_sheet_analysis.Policies.Engine.Total.{IsAccepted}
use balance_sheet_analysis.Policies.Names.{is_protected, system_superuser}
use balance_sheet_analysis.Policies.Store.Rows.{name_free}
use balance_sheet_analysis.Policies.Store.Rows.Laws.{name_free-Elem}
use balance_sheet_analysis.Policies.Admin.History.{definition_for_entry}
use balance_sheet_analysis.Policies.Managed.{IsManaged}

-- An entry whose definition bears the policy's name.
abbrev pub IsNamed : PolicyHistory → Type 0
IsNamed h = (d : PolicyDefinition) × (definition_for_entry h ≡ some d) × (d.name ≡ h.policy_name)

pub superuser_protected : is_protected system_superuser ≡ true
unfolding is_protected
superuser_protected = refl

module _ (policies : List Policy) (policy_seq : ℕ) (user_policies : List UserPolicy)
    (history : List PolicyHistory) (m : IsManaged policies policy_seq user_policies history) where
  pub IsNamed-append :
      (h : PolicyHistory) → IsNamed h → (k : PolicyHistory) → Elem k (history ++ h ∷ []) → IsNamed k
  IsNamed-append h n k e = elim (Elem-snoc k h history e) [
    | inl old ↦ m.named k old
    | inr new ↦ subst IsNamed (sym new) n
  ]

  -- A sequence that has gone on.
  pub taken-IsManaged : IsManaged policies (suc policy_seq) user_policies history
  taken-IsManaged = record {
    accepted = m.accepted;
    names = m.names;
    ids = m.ids;
    below = λ p e. let h = m.below p e in omega (arith, h);
    baseline = m.baseline;
    linked = m.linked;
    single = m.single;
    superuser = m.superuser;
    named = m.named;
  }

  module _ (new : Policy) (fresh : new.id ≡ policy_seq) (h : PolicyHistory) (n : IsNamed h)
      (free : name_free new.id new.name policies ≡ true) (good : IsAccepted new.conditions) where
    clash : (p : Policy) → Elem p policies → p.id ≢ new.id
    clash p e f = let b = m.below p e in absurd (omega (arith, b, f, fresh))

    name_clash : (p : Policy) → Elem p policies → p.name ≢ new.name
    name_clash p e f = clash p e (
        name_free-Elem new.id new.name policies p free e ((string_eq.same_iff p.name new.name).1 f))

    -- Two rows of the longer table are equal where no old row has the new one's key.
    one_key :
        {K : Type 0} (key : Policy → K)
        → ((p q : Policy) → Elem p policies → Elem q policies → key p ≡ key q → p ≡ q)
        → ((p : Policy) → Elem p policies → key p ≢ key new)
        → (p q : Policy) → Elem p (policies ++ new ∷ [])
        → Elem q (policies ++ new ∷ [])
        → key p ≡ key q
        → p ≡ q
    one_key key old apart p q e f k = elim (Elem-snoc p new policies e) [
      | inl e ↦ elim (Elem-snoc q new policies f) [
        | inl f ↦ old p q e f k
        | inr g ↦ absurd (apart p e (k ∙ ap key g))
      ]
      | inr d ↦ elim (Elem-snoc q new policies f) [
        | inl f ↦ absurd (apart q f (sym k ∙ ap key d))
        | inr g ↦ d ∙ sym g
      ]
    ]

    pub added-IsManaged :
        IsManaged (policies ++ new ∷ []) (suc policy_seq) user_policies (history ++ h ∷ [])
    added-IsManaged = record {
      accepted = λ p e. elim (Elem-snoc p new policies e) [
        | inl e ↦ m.accepted p e
        | inr d ↦ subst (λ (q : Policy). IsAccepted q.conditions) (sym d) good
      ];
      names = one_key (λ p. p.name) m.names name_clash;
      ids = one_key (λ p. p.id) m.ids clash;
      below = λ p e. elim (Elem-snoc p new policies e) [
        | inl e ↦ let b = m.below p e in omega (arith, b)
        | inr d ↦ let k = ap (λ (q : Policy). q.id) d in omega (arith, k, fresh)
      ];
      baseline = λ name t.
          let (p, e, k, active) = m.baseline name t in
          (p, Elem-snoc_of p new policies e, k, active);
      linked = λ l e. let (p, f, k) = m.linked l e in (p, Elem-snoc_of p new policies f, k);
      single = m.single;
      superuser = let (p, e, k, held) = m.superuser in (p, Elem-snoc_of p new policies e, k, held);
      named = IsNamed-append h n;
    }
