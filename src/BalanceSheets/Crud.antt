-- ===== src/BalanceSheets/Crud.antt =====
-- backend/app/balance_sheets/balance_sheet_crud.py. yfinance and the driver of the database are
-- parameters.
use balance_sheet_analysis.Prelude.{
  ◌⊎◌, inl, inr, ◌<>◌, ℕ, suc, String, Bool, true, false, not, ◌&&◌, ◌||◌, Option, none, some,
  is_some, List, [], ◌∷◌, ◌++◌, leb, select, if◌then◌else◌,
}
use balance_sheet_analysis.Prelude.Equality.{◌==◌, contains, nat_eq, string_eq}
use balance_sheet_analysis.Prelude.Int.{ℤ}
use balance_sheet_analysis.Exec.{
  ok, err, pure, raise, Exec, gets, or_raise, raise_if, ◌>>=◌, ◌>>◌, value_error, type_error,
  fetch_error, balance_sheet_exists, no_balance_sheet_data,
}
use balance_sheet_analysis.Tables.{Database, BalanceSheet, Float}
use balance_sheet_analysis.Companies.Rows.{find_company}
use balance_sheet_analysis.BalanceSheets.FieldMap.{yfinance_to_db_fields}
use balance_sheet_analysis.BalanceSheets.Columns.{yfinance_column_names}
use balance_sheet_analysis.BalanceSheets.Sanitize.{
  Value, none_value, Native, native_float, native_int, native_complex, sanitize_dict,
}
use balance_sheet_analysis.BalanceSheets.Rows.{find_sheet}

-- The transposed frame: a row of labelled cells for each fiscal year, in the frame's order.
pub record Frame : Type 0 where
  pub empty : Bool
  pub rows : List (ℕ × List (String × Value))

-- `next((bs.loc[idx] for idx in bs.index if idx.year == year), None)`
unfoldable pub find_year : ℕ → List (ℕ × List (String × Value)) → Option (List (String × Value))
find_year year [] = none
find_year year ((y, row) ∷ rows) = if y == year then some row else find_year year rows

-- What is taken from outside for an import.
pub record Yfinance : Type 0 where
  -- `Ticker(ticker).balance_sheet`, or the text of the exception that it raises
  pub balance_sheet : String → String ⊎ Frame
  -- the double that a Float column stores for an int, `none` where the driver refuses it
  pub double_of : ℤ → Option Float

-- `bs_year.get(label)`
unfoldable pub get_cell : String → List (String × Value) → Value
get_cell label [] = none_value
get_cell label ((l, v) ∷ row) = if l == label then v else get_cell label row

abbrev pub is_none : Value → Bool
is_none none_value = true
is_none _ = false

-- The dict comprehension over YFINANCE_TO_DB_FIELDS.
unfoldable pub raw_fields : List (String × String) → List (String × Value) → List (String × Value)
unfolding get_cell
raw_fields [] row = []
raw_fields ((yahoo_field, db_field) ∷ names) row =
    let rest = raw_fields names row in
    let value = get_cell yahoo_field row in if is_none value then rest else (db_field, value) ∷ rest

-- The body of `_fetch_balance_sheet_row_sync` once yfinance has answered.
unfoldable pub fields_of_frame : ℕ → Frame → Option (List (String × Native))
unfolding find_year raw_fields sanitize_dict
fields_of_frame year frame = if frame.empty then none else elim (find_year year frame.rows) [
  | none ↦ none
  | some row ↦ some (sanitize_dict (raw_fields yfinance_to_db_fields row))
]

-- `{key: value for ... if key in YFINANCE_COLUMN_NAMES}`
unfoldable pub known_fields : List (String × Native) → List (String × Native)
known_fields [] = []
known_fields ((key, value) ∷ fields) =
    let rest = known_fields fields in
    if contains key yfinance_column_names then (key, value) ∷ rest else rest

-- What a Float column takes; the database's driver refuses a complex number.
unfoldable pub store_columns :
    (ℤ → Option Float) → List (String × Native) → Option (List (String × Float))
store_columns double_of [] = some []
store_columns double_of ((key, value) ∷ fields) = elim value [
  | native_float x ↦ elim (store_columns double_of fields) [
    | none ↦ none
    | some rest ↦ some ((key, x) ∷ rest)
  ]
  | native_int z ↦ elim (store_columns double_of fields) [
    | none ↦ none
    | some rest ↦ elim (double_of z) [ none ↦ none | some x ↦ some ((key, x) ∷ rest) ]
  ]
  | native_complex ↦ none
]

unfoldable pub get_balance_sheet : ℕ → ℕ → Exec Database (Option BalanceSheet)
get_balance_sheet company_id year = gets (λ db. find_sheet company_id year db.balance_sheets)

abbrev pub new_sheet : ℕ → ℕ → List (String × Float) → Database → BalanceSheet
new_sheet company_id year columns db = record {
  id = db.balance_sheet_seq;
  company_id = company_id;
  year = year;
  created_at = db.now;
  columns = columns;
}

-- `db.add` and `commit`: the unique constraint or the foreign key may refuse the row, and both
-- are reported as a row that is there. The id stays taken.
unfoldable pub insert_columns : ℕ → ℕ → List (String × Float) → Exec Database BalanceSheet
insert_columns company_id year columns db =
    let row = new_sheet company_id year columns db in
    let taken : Database = record db { balance_sheet_seq = suc db.balance_sheet_seq } in
    if is_some (find_sheet company_id year db.balance_sheets)
      || not (is_some (find_company company_id db.companies))
    then (err (value_error (balance_sheet_exists company_id year)), taken)
    else (ok row, record taken { balance_sheets = db.balance_sheets ++ row ∷ [] })

unfoldable pub insert_balance_sheet :
    (ℤ → Option Float) → ℕ → ℕ → List (String × Native) → Exec Database BalanceSheet
unfolding store_columns insert_columns
insert_balance_sheet double_of company_id year fields = do
  columns ← or_raise (store_columns double_of fields) type_error
  insert_columns company_id year columns

-- YFinanceFetchError with its message.
abbrev pub fetched : String → String ⊎ Frame → Exec Database Frame
fetched ticker (inl said) =
    raise
      (fetch_error ("Failed to fetch balance sheet for '" <> ticker <> "' from yfinance: " <> said))
fetched ticker (inr frame) = pure frame

unfoldable pub import_balance_sheet : Yfinance → ℕ → ℕ → String → Exec Database BalanceSheet
unfolding get_balance_sheet fields_of_frame known_fields insert_balance_sheet
import_balance_sheet yfinance company_id year ticker = do
  existing ← get_balance_sheet company_id year
  raise_if (is_some existing) (value_error (balance_sheet_exists company_id year))
  frame ← fetched ticker (yfinance.balance_sheet ticker)
  fields ← or_raise (fields_of_frame year frame) (value_error (no_balance_sheet_data ticker year))
  insert_balance_sheet yfinance.double_of company_id year (known_fields fields)

-- ORDER BY year; rows of one year keep their order.
unfoldable pub insert_by_year : BalanceSheet → List BalanceSheet → List BalanceSheet
insert_by_year b [] = b ∷ []
insert_by_year b (c ∷ cs) = if leb b.year c.year then b ∷ c ∷ cs else c ∷ insert_by_year b cs

unfoldable pub order_by_year : List BalanceSheet → List BalanceSheet
unfolding insert_by_year
order_by_year [] = []
order_by_year (b ∷ bs) = insert_by_year b (order_by_year bs)

unfoldable pub list_balance_sheets_for_company : ℕ → Exec Database (List BalanceSheet)
unfolding order_by_year
list_balance_sheets_for_company company_id =
    gets (λ db. order_by_year (select (λ b. b.company_id == company_id) db.balance_sheets))

-- `if years:` an empty list asks for every year, as None does.
unfoldable pub year_wanted : Option (List ℕ) → ℕ → Bool
year_wanted none year = true
year_wanted (some []) year = true
year_wanted (some (y ∷ ys)) year = contains year (y ∷ ys)

unfoldable pub list_balance_sheets_for_company_years :
    ℕ → Option (List ℕ) → Exec Database (List BalanceSheet)
unfolding order_by_year year_wanted
list_balance_sheets_for_company_years company_id years = gets (λ db.
    order_by_year
      (select (λ b. b.company_id == company_id && year_wanted years b.year) db.balance_sheets))

unfoldable pub delete_balance_sheet : BalanceSheet → Exec Database Unit
delete_balance_sheet balance_sheet db = (
  ok tt,
  record db { balance_sheets = select (λ b. not (b.id == balance_sheet.id)) db.balance_sheets },
)
