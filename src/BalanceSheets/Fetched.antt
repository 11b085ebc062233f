-- ===== src/BalanceSheets/Fetched.antt =====
-- backend/app/balance_sheets/balance_sheet_crud.py: what an import stores of what it fetched.
use balance_sheet_analysis.Prelude.{
  ◌⊎◌, ℕ, String, Bool, true, false, ◌&&◌, ◌≡◌, refl, sym, ap, inl, inr, some, is_some, List, [],
  ◌∷◌, arith, all, Bool-cases, Option-cases, if◌then◌else◌,
}
use mathlib.Core.Path.{subst}
use balance_sheet_analysis.Prelude.Equality.{contains, string_eq, nat_eq}
use balance_sheet_analysis.Exec.{ok, err, value_error, balance_sheet_exists}
use balance_sheet_analysis.Tables.{Database, BalanceSheet, Float}
use balance_sheet_analysis.Companies.Rows.{find_company}
use balance_sheet_analysis.BalanceSheets.FieldMap.{yfinance_to_db_fields}
use balance_sheet_analysis.BalanceSheets.Columns.{yfinance_column_names}
use balance_sheet_analysis.BalanceSheets.Sanitize.{Value, Native, sanitize_dict}
use balance_sheet_analysis.BalanceSheets.Rows.{find_sheet}
use balance_sheet_analysis.BalanceSheets.Rows.Laws.{find_sheet-append}
use balance_sheet_analysis.BalanceSheets.Crud.{
  Yfinance, Frame, is_none, get_cell, find_year, raw_fields, fields_of_frame, known_fields,
  store_columns, insert_columns, insert_balance_sheet, import_balance_sheet, new_sheet,
  get_balance_sheet,
}

-- Every column that the field map names is one of the model's.
targets_known :
    all (λ (n : String × String). contains n.1 yfinance_column_names) yfinance_to_db_fields ≡ true
targets_known = refl

raw_fields_known :
    (cols : List String) (names : List (String × String)) (row : List (String × Value))
    → all (λ (n : String × String). contains n.1 cols) names ≡ true
    → all (λ (f : String × Value). contains f.0 cols) (raw_fields names row) ≡ true
unfolding raw_fields
raw_fields_known cols [] row h = refl
raw_fields_known cols ((label, column) ∷ names) row h =
    elim (Bool-cases (is_none (get_cell label row))) [
      | inl absent ↦ rw absent (raw_fields_known cols names row (ground arith))
      | inr found ↦ ground (arith, raw_fields_known cols names row)
    ]

sanitize_dict_known :
    (cols : List String) (fields : List (String × Value))
    → all (λ (f : String × Value). contains f.0 cols) fields ≡ true
    → all (λ (f : String × Native). contains f.0 cols) (sanitize_dict fields) ≡ true
unfolding sanitize_dict
sanitize_dict_known cols [] h = refl
sanitize_dict_known cols ((key, value) ∷ fields) h = ground (arith, sanitize_dict_known cols fields)

both : (a b : Bool) → (a && b) ≡ true → (a ≡ true) × (b ≡ true)
both a b h = ground arith

keep_if :
    {A : Type 0} (test : Bool) (x : A) (rest xs : List A)
    → test ≡ true
    → rest ≡ xs
    → (if test then x ∷ rest else rest) ≡ x ∷ xs
keep_if true x rest xs t e = ap (λ l. x ∷ l) e
keep_if false x rest xs t e = cc

known_fields-all :
    (fields : List (String × Native))
    → all (λ (f : String × Native). contains f.0 yfinance_column_names) fields ≡ true
    → known_fields fields ≡ fields
unfolding known_fields
known_fields-all [] h = refl
known_fields-all ((key, value) ∷ fields) h =
    let (known, rest) = both (contains key yfinance_column_names) _ h in
    keep_if (contains key yfinance_column_names) (key, value) (known_fields fields) fields known
      (known_fields-all fields rest)

some-injective : {A : Type 0} (a b : A) → some a ≡ some b → a ≡ b
some-injective a b h = cc

fields_made :
    (year : ℕ) (frame : Frame) (fields : List (String × Native))
    → fields_of_frame year frame ≡ some fields
    → (row : List (String × Value)) × (fields
        ≡ sanitize_dict (raw_fields yfinance_to_db_fields row))
unfolding fields_of_frame
fields_made year frame fields h = elim (Bool-cases frame.empty) [
  | inl empty ↦ absurd (ground arith)
  | inr filled ↦ elim (Option-cases (find_year year frame.rows)) [
    | inl missing ↦ absurd (ground arith)
    | inr (row, found) ↦ (row, ground arith)
  ]
]

-- The filter by the known columns leaves out nothing of what the import has fetched.
pub known_fields-fields_of_frame :
    (year : ℕ) (frame : Frame) (fields : List (String × Native))
    → fields_of_frame year frame ≡ some fields
    → known_fields fields ≡ fields
known_fields-fields_of_frame year frame fields h =
    let (row, made) = fields_made year frame fields h in
    known_fields-all fields (
      subst (λ l. all (λ (f : String × Native). contains f.0 yfinance_column_names) l ≡ true)
        (sym made)
        (sanitize_dict_known yfinance_column_names (raw_fields yfinance_to_db_fields row)
          (raw_fields_known yfinance_column_names yfinance_to_db_fields row targets_known)))

pub answer-cases :
    (r : String ⊎ Frame) → ((said : String) × (r ≡ inl said)) ⊎ ((frame : Frame) × (r ≡ inr frame))
answer-cases (inl said) = inl (said, refl)
answer-cases (inr frame) = inr (frame, refl)

insert_columns-find_sheet :
    (company_id year : ℕ) (columns : List (String × Float)) (db s : Database) (b : BalanceSheet)
    → insert_columns company_id year columns db ≡ (ok b, s)
    → find_sheet company_id year s.balance_sheets ≡ some b
unfolding insert_columns
insert_columns-find_sheet company_id year columns db s b h =
    elim (Option-cases (find_sheet company_id year db.balance_sheets)) [
      | inl absent ↦
          let added =
            find_sheet-append company_id year db.balance_sheets
              (new_sheet company_id year columns db) in
          elim (Bool-cases (is_some (find_company company_id db.companies))) [
            | inl owned ↦ ground arith
            | inr missing ↦ absurd (ground arith)
          ]
      | inr (old, there) ↦ absurd (ground arith)
    ]

-- Where an import returns a row, that row is the one on file for the company and the year.
pub import_balance_sheet-find_sheet :
    (yfinance : Yfinance) (company_id year : ℕ) (ticker : String) (db s : Database)
    (b : BalanceSheet)
    → import_balance_sheet yfinance company_id year ticker db ≡ (ok b, s)
    → find_sheet company_id year s.balance_sheets ≡ some b
unfolding import_balance_sheet insert_balance_sheet get_balance_sheet
import_balance_sheet-find_sheet yfinance company_id year ticker db s b h =
    elim (Option-cases (find_sheet company_id year db.balance_sheets)) [
      | inr (old, there) ↦ absurd (ground arith)
      | inl absent ↦ elim (answer-cases (yfinance.balance_sheet ticker)) [
        | inl (said, failed) ↦ absurd (ground arith)
        | inr (frame, answered) ↦ elim (Option-cases (fields_of_frame year frame)) [
          | inl no_data ↦ absurd (ground arith)
          | inr (fields, made) ↦
              elim (Option-cases (store_columns yfinance.double_of (known_fields fields))) [
                | inl refused ↦ absurd (ground arith)
                | inr (columns, stored) ↦
                    ground (arith, insert_columns-find_sheet company_id year columns db s b)
              ]
        ]
      ]
    ]

-- After an import that returns a row, every further import for the company and the year is refused
-- and changes nothing, whatever yfinance answers by then.
pub import_balance_sheet-again :
    (yfinance later : Yfinance) (company_id year : ℕ) (ticker other : String) (db s : Database)
    (b : BalanceSheet)
    → import_balance_sheet yfinance company_id year ticker db ≡ (ok b, s)
    → import_balance_sheet later company_id year other s
      ≡ (err (value_error (balance_sheet_exists company_id year)), s)
unfolding import_balance_sheet get_balance_sheet
import_balance_sheet-again yfinance later company_id year ticker other db s b h =
    rw (import_balance_sheet-find_sheet yfinance company_id year ticker db s b h) refl
