-- ===== src/Routes/Company.antt =====
-- backend/app/api/company_routes/company_routes.py: the handlers of one company.
use balance_sheet_analysis.Prelude.{ℕ, String, none, some}
use balance_sheet_analysis.Json.{Fields}
use balance_sheet_analysis.Exec.{Exec, ◌>>=◌, ◌>>◌}
use balance_sheet_analysis.Tables.{Database, Company}
use balance_sheet_analysis.Access.Permissions.{
  resource_company, company_create, company_read, company_update, company_delete,
}
use balance_sheet_analysis.Policies.Conditions.Library.{Environment}
use balance_sheet_analysis.Policies.Service.{require}
use balance_sheet_analysis.Companies.Schema.{CompanyCreate, CompanyUpdate}
use balance_sheet_analysis.Companies.Crud.{create_company, update_company, delete_company}
use balance_sheet_analysis.Routes.Guard.{checked_company, or_400}

-- `email` is the caller's; `context` is made from the request by build_authorization_context.
module _ (env : Environment) (email : String) where
  unfoldable pub add_company : Fields → CompanyCreate → Exec Database Company
  add_company context payload = do
    require env email company_create resource_company none (some context)
    λ db. or_400 (create_company payload db)

  unfoldable pub get_company : ℕ → Exec Database Company
  get_company company_id = checked_company env email company_read resource_company company_id

  unfoldable pub edit_company : ℕ → CompanyUpdate → Exec Database Company
  edit_company company_id payload = do
    company ← checked_company env email company_update resource_company company_id
    λ db. or_400 (update_company company payload db)

  unfoldable pub remove_company : ℕ → Exec Database Unit
  remove_company company_id = do
    company ← checked_company env email company_delete resource_company company_id
    λ db. or_400 (delete_company company db)
