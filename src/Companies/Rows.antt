-- ===== src/Companies/Rows.antt =====
-- The rows of `companies` as a list: finding, replacing and deleting a row, and the constraints
-- of company_model.py that the database checks at a flush.
pub mod Laws
use balance_sheet_analysis.Prelude.{
  ℕ, String, Bool, true, false, not, ◌&&◌, ◌||◌, Option, none, some, is_some, List, [], ◌∷◌, any,
  length, select, if◌then◌else◌,
}
use balance_sheet_analysis.Prelude.Equality.{◌==◌, nat_eq, string_eq}
use balance_sheet_analysis.Tables.{Company}

-- `db.get(Company, id)`
abbrev pub find_company : ℕ → List Company → Option Company
find_company k [] = none
find_company k (c ∷ cs) = if c.id == k then some c else find_company k cs

-- `select(Company).where(Company.ticker == ticker)`
abbrev pub find_ticker : String → List Company → Option Company
find_ticker t [] = none
find_ticker t (c ∷ cs) = if c.ticker == t then some c else find_ticker t cs

-- UPDATE of the row with this id.
abbrev pub replace_company : Company → List Company → List Company
replace_company d [] = []
replace_company d (c ∷ cs) = (if c.id == d.id then d else c) ∷ replace_company d cs

abbrev pub has_parent : ℕ → Option ℕ → Bool
has_parent k none = false
has_parent k (some p) = p == k

-- DELETE of the row with this id, and ON DELETE SET NULL of the references to it.
abbrev pub orphan : ℕ → Company → Company
orphan k c = record c {
  parent_company_id = if has_parent k c.parent_company_id then none else c.parent_company_id;
}

abbrev pub remove_company_row : ℕ → List Company → List Company
remove_company_row k [] = []
remove_company_row k (c ∷ cs) =
    let rest = remove_company_row k cs in if c.id == k then rest else orphan k c ∷ rest

-- `select(func.count()).where(Company.parent_company_id == id)`
abbrev pub count_subsidiaries : ℕ → List Company → ℕ
count_subsidiaries k cs = length (select (λ c. has_parent k c.parent_company_id) cs)

-- The foreign key of `parent_company_id`.
abbrev pub parent_exists : Option ℕ → List Company → Bool
parent_exists none cs = true
parent_exists (some p) cs = is_some (find_company p cs)

-- The unique index on `ticker`, for a row with this id.
abbrev pub ticker_free : ℕ → String → List Company → Bool
ticker_free k t [] = true
ticker_free k t (c ∷ cs) = (c.id == k || not (c.ticker == t)) && ticker_free k t cs
