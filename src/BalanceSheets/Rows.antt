-- ===== src/BalanceSheets/Rows.antt =====
-- The rows of `balance_sheets` as a list, keyed by company and fiscal year.
pub mod Laws
use balance_sheet_analysis.Prelude.{
  ℕ, Bool, ◌≡◌, ◌&&◌, Option, none, some, List, [], ◌∷◌, if◌then◌else◌,
}
use balance_sheet_analysis.Prelude.Equality.{◌==◌, nat_eq}
use balance_sheet_analysis.Tables.{BalanceSheet}

abbrev pub is_of : ℕ → ℕ → BalanceSheet → Bool
is_of company_id year b = b.company_id == company_id && b.year == year

-- `where(company_id == ..., year == ...)`, `scalar_one_or_none`
abbrev pub find_sheet : ℕ → ℕ → List BalanceSheet → Option BalanceSheet
find_sheet company_id year [] = none
find_sheet company_id year (b ∷ bs) =
    if is_of company_id year b then some b else find_sheet company_id year bs

-- uq_balance_sheet_company_year
abbrev pub NodupYears : List BalanceSheet → Type 0
NodupYears [] = Unit
NodupYears (b ∷ bs) = (find_sheet b.company_id b.year bs ≡ none) × NodupYears bs
