-- ===== src/Routes/Guard.antt =====
-- What the handlers of backend/app/api share: get_or_404, the check of one company, and the
-- answers for the exceptions that they catch.
pub mod Laws
use balance_sheet_analysis.Prelude.{ℕ, String, Option, none, some}
use balance_sheet_analysis.Json.{Fields}
use balance_sheet_analysis.Exec.{
  Result, ok, err, Exec, pure, or_raise, ◌>>=◌, ◌>>◌, Exception, value_error, fetch_error,
  http_exception, text, reason,
}
use balance_sheet_analysis.Tables.{Database, Company}
use balance_sheet_analysis.Access.Scope.{resource_scope_dict}
use balance_sheet_analysis.Policies.Conditions.Library.{Environment}
use balance_sheet_analysis.Policies.Service.{require}
use balance_sheet_analysis.Companies.Crud.{get_company_by_id}

unfoldable pub get_or_404 : {A : Type 0} → Exec Database (Option A) → String → Exec Database A
get_or_404 fetch not_found_detail = do
  found ← fetch
  or_raise found (http_exception 404 (text not_found_detail))

-- `except ValueError as exc: raise HTTPException(400, ...)`
abbrev pub or_400 : {A : Type 0} → Result A × Database → Result A × Database
or_400 (err (value_error r), db) = (err (http_exception 400 (reason r)), db)
or_400 (r, db) = (r, db)

-- `except YFinanceFetchError as exc: raise HTTPException(502, ...)`
abbrev pub or_502 : {A : Type 0} → Result A × Database → Result A × Database
or_502 (err (fetch_error t), db) = (err (http_exception 502 (text t)), db)
or_502 (r, db) = (r, db)

-- `get_or_404(get_company_by_id(...))` and `require` of an action on that row, with which every
-- handler of one company starts. The check has no context.
unfoldable pub checked_company : Environment → String → String → String → ℕ → Exec Database Company
unfolding get_or_404 get_company_by_id
checked_company env email action resource_type company_id = do
  company ← get_or_404 (get_company_by_id company_id) "Company not found"
  require env email action resource_type
      (some (resource_scope_dict company.id company.group_root_id)) none
  pure company
