-- ===== src/Routes/Sheet.antt =====
-- backend/app/api/balance_sheet_routes/balance_sheet_routes.py. The limit on the rate of imports
-- is not modelled.
use balance_sheet_analysis.Prelude.{ℕ, String, List}
use balance_sheet_analysis.Exec.{Exec, ◌>>=◌}
use balance_sheet_analysis.Tables.{Database, BalanceSheet}
use balance_sheet_analysis.Access.Permissions.{
  resource_balance_sheet, balance_sheet_read, balance_sheet_import, balance_sheet_delete,
}
use balance_sheet_analysis.Policies.Conditions.Library.{Environment}
use balance_sheet_analysis.BalanceSheets.Crud.{
  Yfinance, get_balance_sheet, list_balance_sheets_for_company, import_balance_sheet,
  delete_balance_sheet,
}
use balance_sheet_analysis.Routes.Guard.{checked_company, get_or_404, or_400, or_502}

module _ (env : Environment) (email : String) where
  unfoldable pub list_company_balance_sheets : ℕ → Exec Database (List BalanceSheet)
  list_company_balance_sheets company_id = do
    _ ← checked_company env email balance_sheet_read resource_balance_sheet company_id
    list_balance_sheets_for_company company_id

  unfoldable pub get_company_balance_sheet : ℕ → ℕ → Exec Database BalanceSheet
  get_company_balance_sheet company_id year = do
    _ ← checked_company env email balance_sheet_read resource_balance_sheet company_id
    get_or_404 (get_balance_sheet company_id year) "Balance sheet not found"

  -- `yfinance` is what the service answers for a ticker at the time of the request.
  unfoldable pub create_company_balance_sheet : Yfinance → ℕ → ℕ → Exec Database BalanceSheet
  create_company_balance_sheet yfinance company_id year = do
    company ← checked_company env email balance_sheet_import resource_balance_sheet company_id
    λ db. or_502 (or_400 (import_balance_sheet yfinance company_id year company.ticker db))

  unfoldable pub delete_company_balance_sheet : ℕ → ℕ → Exec Database Unit
  delete_company_balance_sheet company_id year = do
    _ ← checked_company env email balance_sheet_delete resource_balance_sheet company_id
    balance_sheet ← get_or_404 (get_balance_sheet company_id year) "Balance sheet not found"
    delete_balance_sheet balance_sheet
