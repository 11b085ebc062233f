-- ===== src/Policies/Store/Rows/Setting.antt =====
-- Setting the fields of a row one after the other.
use balance_sheet_analysis.Prelude.{
  ◌≡◌, inl, inr, Option-cases, some-inj, some, List, [], ◌∷◌, All, arith,
}
use mathlib.Core.Path.{subst}
use balance_sheet_analysis.Tables.{Policy}
use balance_sheet_analysis.Policies.Store.Rows.{Change, set_field, set_fields}

-- What every change that is made keeps holds of the row in the end.
pub set_fields-keeps :
    (Q : Change → Type 0) (R : Policy → Type 0)
    → ((c : Change) (p q : Policy) → Q c → R p → set_field c p ≡ some q → R q)
    → (changes : List Change) (p q : Policy) → All Q changes
    → R p
    → set_fields changes p ≡ some q
    → R q
unfolding set_fields
set_fields-keeps Q R step [] p q a r e = subst R (some-inj p q e) r
set_fields-keeps Q R step (c ∷ changes) p q (a, as_well) r e = elim (Option-cases (set_field c p)) [
  | inl f ↦ absurd (ground arith)
  | inr (p', f) ↦ set_fields-keeps Q R step changes p' q as_well (step c p p' a r f) (ground arith)
]
