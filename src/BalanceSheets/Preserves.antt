-- ===== src/BalanceSheets/Preserves.antt =====
-- The operations of BalanceSheets/Crud.antt keep the tables valid, whether they return or raise.
use balance_sheet_analysis.Prelude.{
  ℕ, suc, String, not, ◌≡◌, refl, inl, inr, Option, none, some, is_some, List, [], ◌∷◌, ◌++◌, arith,
  Option-cases, Elem-append, Elem-select,
}
use balance_sheet_analysis.Prelude.Equality.{◌==◌, nat_eq}
use balance_sheet_analysis.Prelude.Int.{ℤ}
use balance_sheet_analysis.BalanceSheets.Fetched.{answer-cases}
use balance_sheet_analysis.Exec.{or_raise}
use balance_sheet_analysis.Tables.{Database, Company, BalanceSheet, Float}
use balance_sheet_analysis.Validity.{IsValid, IsValidAfter}
use balance_sheet_analysis.Companies.Rows.{find_company}
use balance_sheet_analysis.BalanceSheets.Sanitize.{Native}
use balance_sheet_analysis.BalanceSheets.Rows.{find_sheet}
use balance_sheet_analysis.BalanceSheets.Rows.Laws.{NodupYears-select, NodupYears-append}
use balance_sheet_analysis.BalanceSheets.Crud.{
  Yfinance, fields_of_frame, known_fields, store_columns, insert_balance_sheet, insert_columns,
  new_sheet, import_balance_sheet, delete_balance_sheet,
}

module _ (db : Database) (v : IsValid db) where
  taken-IsValid : IsValid (record db { balance_sheet_seq = suc db.balance_sheet_seq })
  taken-IsValid = record {
    hierarchy = v.hierarchy;
    ids = v.ids;
    tickers = v.tickers;
    years = v.years;
    owners = v.owners;
    sheet_ids = λ b e. omega (arith, v.sheet_ids b e);
  }

  insert-IsValid :
      (b : BalanceSheet)
      → b.id ≡ db.balance_sheet_seq
      → find_sheet b.company_id b.year db.balance_sheets ≡ none
      → (c : Company) → find_company b.company_id db.companies ≡ some c
      → IsValid (record db {
        balance_sheet_seq = suc db.balance_sheet_seq;
        balance_sheets = db.balance_sheets ++ b ∷ [];
      })
  insert-IsValid b i absent c owner = record {
    hierarchy = v.hierarchy;
    ids = v.ids;
    tickers = v.tickers;
    years = NodupYears-append db.balance_sheets b v.years absent;
    owners = λ d e. elim ((Elem-append d db.balance_sheets (b ∷ [])).0 e) [
      | inl old ↦ v.owners d old
      | inr (inl is) ↦ (c, rw is owner)
      | inr (inr h) ↦ absurd h
    ];
    sheet_ids = λ d e. elim ((Elem-append d db.balance_sheets (b ∷ [])).0 e) [
      | inl old ↦ omega (arith, v.sheet_ids d old)
      | inr (inl is) ↦ rw is (omega arith)
      | inr (inr h) ↦ absurd h
    ];
  }

  module _ (company_id year : ℕ) where
    insert_columns-IsValid :
        (columns : List (String × Float)) → IsValidAfter (insert_columns company_id year columns db)
    unfolding insert_columns
    insert_columns-IsValid columns =
        elim (Option-cases (find_sheet company_id year db.balance_sheets)) [
          | inr (b, there) ↦ rw (there, is_some) taken-IsValid
          | inl absent ↦ elim (Option-cases (find_company company_id db.companies)) [
            | inl gone ↦ rw (absent, gone, is_some) taken-IsValid
            | inr (c, owner) ↦
                rw (absent, owner, is_some)
                  (insert-IsValid (new_sheet company_id year columns db) refl absent c owner)
          ]
        ]

    -- Whatever the fields are, the insert leaves a valid state: the constraints refuse the rest.
    pub insert_balance_sheet-IsValid :
        (double_of : ℤ → Option Float) (fields : List (String × Native))
        → IsValidAfter (insert_balance_sheet double_of company_id year fields db)
    unfolding insert_balance_sheet
    insert_balance_sheet-IsValid double_of fields =
        elim (Option-cases (store_columns double_of fields)) [
          | inl refused ↦ rw (refused, or_raise) v
          | inr (columns, stored) ↦ rw (stored, or_raise) (insert_columns-IsValid columns)
        ]

    -- From a valid state, an import leaves a valid state, whatever yfinance answers and whether
    -- the import returns or raises.
    pub import_balance_sheet-IsValid :
        (yfinance : Yfinance) (ticker : String)
        → IsValidAfter (import_balance_sheet yfinance company_id year ticker db)
    unfolding import_balance_sheet
    import_balance_sheet-IsValid yfinance ticker =
        elim (Option-cases (find_sheet company_id year db.balance_sheets)) [
          | inr (b, there) ↦ rw there v
          | inl absent ↦ elim (answer-cases (yfinance.balance_sheet ticker)) [
            | inl (said, failed) ↦ rw (absent, failed) v
            | inr (frame, answered) ↦ elim (Option-cases (fields_of_frame year frame)) [
              | inl no_data ↦ rw (absent, answered) (rw no_data v)
              | inr (fields, e) ↦
                  rw (absent, answered)
                    (rw e (insert_balance_sheet-IsValid yfinance.double_of (known_fields fields)))
            ]
          ]
        ]

  pub delete_balance_sheet-IsValid : (b : BalanceSheet) → IsValidAfter (delete_balance_sheet b db)
  unfolding delete_balance_sheet
  delete_balance_sheet-IsValid b = record {
    hierarchy = v.hierarchy;
    ids = v.ids;
    tickers = v.tickers;
    years = NodupYears-select (λ d. not (d.id == b.id)) db.balance_sheets v.years;
    owners = λ d e. v.owners d ((Elem-select (λ d. not (d.id == b.id)) d db.balance_sheets).0 e).0;
    sheet_ids =
        λ d e. v.sheet_ids d ((Elem-select (λ d. not (d.id == b.id)) d db.balance_sheets).0 e).0;
  }
