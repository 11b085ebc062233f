-- ===== src/BalanceSheets/Rows/Laws.antt =====
-- Finding a balance sheet after an insert and a delete.
use balance_sheet_analysis.Prelude.{
  ℕ, Bool, ◌≡◌, refl, none, some, List, [], ◌∷◌, ◌++◌, arith, Elem, select, if◌then◌else◌,
}
use balance_sheet_analysis.Prelude.Equality.{nat_eq}
use balance_sheet_analysis.Tables.{BalanceSheet}
use balance_sheet_analysis.BalanceSheets.Rows.{is_of, find_sheet, NodupYears}

-- What a table does not hold, no part of it holds.
pub find_sheet-select :
    (p : BalanceSheet → Bool) (k y : ℕ) (bs : List BalanceSheet)
    → find_sheet k y bs ≡ none
    → find_sheet k y (select p bs) ≡ none
find_sheet-select p k y [] e = refl
find_sheet-select p k y (b ∷ bs) e = ground (arith, find_sheet-select p k y bs)

pub NodupYears-select :
    (p : BalanceSheet → Bool) (bs : List BalanceSheet) → NodupYears bs → NodupYears (select p bs)
NodupYears-select p [] u = tt
NodupYears-select p (b ∷ bs) u =
    ground (arith, NodupYears-select p bs u.1, find_sheet-select p b.company_id b.year bs)

pub find_sheet-append :
    (k y : ℕ) (bs : List BalanceSheet) (d : BalanceSheet)
    → find_sheet k y (bs ++ d ∷ [])
      ≡ elim (find_sheet k y bs) [ none ↦ if is_of k y d then some d else none | some b ↦ some b ]
find_sheet-append k y [] d = refl
find_sheet-append k y (b ∷ bs) d = ground (arith, find_sheet-append k y bs d)

pub NodupYears-append :
    (bs : List BalanceSheet) (d : BalanceSheet)
    → NodupYears bs
    → find_sheet d.company_id d.year bs ≡ none
    → NodupYears (bs ++ d ∷ [])
NodupYears-append [] d u e = (refl, tt)
NodupYears-append (b ∷ bs) d u e =
    ground (arith, NodupYears-append bs d u.1, find_sheet-append b.company_id b.year bs d)

pub find_sheet-Elem :
    (k y : ℕ) (bs : List BalanceSheet) {b : BalanceSheet}
    → find_sheet k y bs ≡ some b
    → Elem b bs × (b.company_id ≡ k) × (b.year ≡ y)
find_sheet-Elem k y [] e = cc
find_sheet-Elem k y (c ∷ bs) {b} e = ground (arith, find_sheet-Elem k y bs {b = b})
