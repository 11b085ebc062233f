-- ===== src/Companies/Preserves/Delete.antt =====
-- `delete_company` keeps the tables valid.
use balance_sheet_analysis.Prelude.{
  ◌≡◌, sym, ap, ◌∙◌, inl, inr, arith, Bool-cases, ltb, Elem-select, not,
}
use balance_sheet_analysis.Tables.{Database, Company}
use balance_sheet_analysis.BalanceSheets.Rows.Laws.{NodupYears-select}
use balance_sheet_analysis.Prelude.Equality.{◌==◌, nat_eq}
use balance_sheet_analysis.Validity.{IsValid, IsValidAfter}
use balance_sheet_analysis.Companies.Rows.{orphan, count_subsidiaries}
use balance_sheet_analysis.Companies.Rows.Laws.{
  NodupIds-remove, find_company-remove_cases, find_company-remove_old,
}
use balance_sheet_analysis.Companies.Invariant.{remove-IsHierarchy}
use balance_sheet_analysis.Companies.Crud.{delete_row, delete_company}

module _ (db : Database) (v : IsValid db) where
  delete_row-IsValid :
      (company : Company)
      → count_subsidiaries company.id db.companies ≡ 0
      → IsValidAfter (delete_row company db)
  unfolding delete_row
  delete_row-IsValid company leaf = record {
    hierarchy = remove-IsHierarchy v.hierarchy company.id leaf;
    ids = NodupIds-remove company.id db.companies v.ids;
    tickers = λ i j c d f g e.
        let (_, (b, f', is)) = find_company-remove_cases i company.id db.companies f in
        let (_, (b', g', is')) = find_company-remove_cases j company.id db.companies g in
        v.tickers i j b b' f' g'
          (sym (ap (λ (x : Company). x.ticker) is) ∙ e ∙ ap (λ (x : Company). x.ticker) is');
    years = NodupYears-select (λ b. not (b.company_id == company.id)) db.balance_sheets v.years;
    owners = λ b e.
        let (there, keep) =
          (Elem-select (λ b. not (b.company_id == company.id)) b db.balance_sheets).0 e in
        let (c, f) = v.owners b there in
        (
          orphan company.id c,
          find_company-remove_old b.company_id company.id db.companies f (ground arith),
        );
    sheet_ids = λ b e.
        v.sheet_ids b
          ((Elem-select (λ b. not (b.company_id == company.id)) b db.balance_sheets).0 e).0;
  }

  -- Deleting a company from a valid state leaves a valid state, whether it returns or raises: no
  -- company is left with a group root that is gone, and no balance sheet without its company.
  pub delete_company-IsValid : (company : Company) → IsValidAfter (delete_company company db)
  unfolding delete_company
  delete_company-IsValid company =
      elim (Bool-cases (ltb 0 (count_subsidiaries company.id db.companies))) [
        | inl some_left ↦ rw some_left v
        | inr leaf ↦ rw leaf (delete_row-IsValid company (ground arith))
      ]
