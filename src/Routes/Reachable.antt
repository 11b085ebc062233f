-- ===== src/Routes/Reachable.antt =====
-- Sequences of requests to the handlers of Routes/Company.antt and Routes/Sheet.antt, each run to
-- its end before the next, and what holds in every state that they lead to.
use balance_sheet_analysis.Prelude.{ℕ, String, ◌≡◌, sym, Option, none, some, List}
use mathlib.Core.Path.{subst}
use balance_sheet_analysis.Json.{Fields}
use balance_sheet_analysis.Exec.{
  Result, ok, err, Exec, pure, or_raise, continue, Exception, value_error, fetch_error,
}
use balance_sheet_analysis.Tables.{Database, User, Policy, UserPolicy}
use balance_sheet_analysis.Access.Permissions.{
  resource_company, company_create, company_read, company_update, company_delete,
  resource_balance_sheet, balance_sheet_read, balance_sheet_import, balance_sheet_delete,
}
use balance_sheet_analysis.Policies.Conditions.Library.{Environment}
use balance_sheet_analysis.Policies.Service.{require}
use balance_sheet_analysis.Companies.Rows.{find_company}
use balance_sheet_analysis.Companies.Rows.Laws.{find_company-id}
use balance_sheet_analysis.Companies.Schema.{CompanyCreate, CompanyUpdate}
use balance_sheet_analysis.Companies.Preserves.Create.{create_company-IsValid}
use balance_sheet_analysis.Companies.Preserves.Update.{update_company-IsValid}
use balance_sheet_analysis.Companies.Preserves.Delete.{delete_company-IsValid}
use balance_sheet_analysis.BalanceSheets.Rows.{find_sheet}
use balance_sheet_analysis.BalanceSheets.Crud.{
  Yfinance, get_balance_sheet, list_balance_sheets_for_company, import_balance_sheet,
}
use balance_sheet_analysis.BalanceSheets.Preserves.{
  import_balance_sheet-IsValid, delete_balance_sheet-IsValid,
}
use balance_sheet_analysis.Validity.{IsValid, IsValidAfter, others-IsValid}
use balance_sheet_analysis.Routes.Guard.{get_or_404, or_400, or_502}
use balance_sheet_analysis.Routes.Guard.Laws.{require-IsValid, checked_company-IsValid}
use balance_sheet_analysis.Routes.Company.{add_company, get_company, edit_company, remove_company}
use balance_sheet_analysis.Routes.Sheet.{
  list_company_balance_sheets, get_company_balance_sheet, create_company_balance_sheet,
  delete_company_balance_sheet,
}

or_400-IsValid : {A : Type 0} (r : Result A × Database) → IsValidAfter r → IsValidAfter (or_400 r)
or_400-IsValid (ok a, db) v = v
or_400-IsValid (err (value_error r), db) v = v
or_400-IsValid (err x, db) v = v

or_502-IsValid : {A : Type 0} (r : Result A × Database) → IsValidAfter r → IsValidAfter (or_502 r)
or_502-IsValid (ok a, db) v = v
or_502-IsValid (err (fetch_error t), db) v = v
or_502-IsValid (err x, db) v = v

-- A request, with who sends it and what the environment is at the time, or what happens to the
-- database from elsewhere: the clock, and the management of users and policies.
pub data Request : Type 0 where
  add : Environment → String → Fields → CompanyCreate → Request
  read : Environment → String → ℕ → Request
  edit : Environment → String → ℕ → CompanyUpdate → Request
  remove : Environment → String → ℕ → Request
  list_sheets : Environment → String → ℕ → Request
  read_sheet : Environment → String → ℕ → ℕ → Request
  import_sheet : Environment → String → Yfinance → ℕ → ℕ → Request
  delete_sheet : Environment → String → ℕ → ℕ → Request
  clock : ℕ → Request
  manage : List User → List Policy → List UserPolicy → Request

unfoldable pub serve : Request → Database → Database
unfolding add_company
serve (add env email context payload) db = (add_company env email context payload db).1
serve (read env email k) db = (get_company env email k db).1
serve (edit env email k payload) db = (edit_company env email k payload db).1
serve (remove env email k) db = (remove_company env email k db).1
serve (list_sheets env email k) db = (list_company_balance_sheets env email k db).1
serve (read_sheet env email k year) db = (get_company_balance_sheet env email k year db).1
serve (import_sheet env email yfinance k year) db =
    (create_company_balance_sheet env email yfinance k year db).1
serve (delete_sheet env email k year) db = (delete_company_balance_sheet env email k year db).1
serve (clock time) db = record db { now = time }
serve (manage users policies user_policies) db = record db {
  users = users;
  policies = policies;
  user_policies = user_policies;
}

-- The states that some sequence of requests leads to.
pub data Reachable (initial : Database) : Database → Type 0 where
  start : {db : Database} → db ≡ initial → Reachable initial db
  after :
      {db next : Database} (request : Request)
      → Reachable initial db
      → next ≡ serve request db
      → Reachable initial next

continue-IsValid :
    {A B : Type 0} (r : Result A × Database) (f : A → Exec Database B)
    → IsValidAfter r
    → ((a : A) (s : Database) → IsValid s → IsValidAfter (f a s))
    → IsValidAfter (continue r f)
continue-IsValid (ok a, s) f v keep = keep a s v
continue-IsValid (err x, s) f v keep = v

of_pure : {A : Type 0} (r : Result A × Database) → IsValidAfter (continue r pure) → IsValidAfter r
of_pure (ok a, s) v = v
of_pure (err x, s) v = v

raise-IsValid :
    {A : Type 0} (o : Option A) (x : Exception) (s : Database)
    → IsValid s
    → IsValidAfter (or_raise o x s)
raise-IsValid none x s v = v
raise-IsValid (some a) x s v = v

-- Every request leaves a valid state valid, whatever it is answered.
serve-IsValid : (request : Request) (db : Database) → IsValid db → IsValid (serve request db)
unfolding serve add_company get_company edit_company remove_company list_company_balance_sheets
    get_company_balance_sheet create_company_balance_sheet delete_company_balance_sheet get_or_404
    get_balance_sheet list_balance_sheets_for_company
serve-IsValid (add env email context payload) db v =
    continue-IsValid (require env email company_create resource_company none (some context) db) _
      (require-IsValid env email company_create resource_company none (some context) db v)
      (λ _ s w. or_400-IsValid _ (create_company-IsValid s w payload))
serve-IsValid (read env email k) db v = of_pure _ (
    checked_company-IsValid env email company_read resource_company k pure db v
      (λ company s w there. w))
serve-IsValid (edit env email k payload) db v =
    checked_company-IsValid env email company_update resource_company k _ db v (λ company s w there.
      or_400-IsValid _ (
        update_company-IsValid s w company
          (subst (λ i. find_company i s.companies ≡ some company)
            (sym (find_company-id k s.companies there)) there)
          payload))
serve-IsValid (remove env email k) db v =
    checked_company-IsValid env email company_delete resource_company k _ db v
      (λ company s w there. or_400-IsValid _ (delete_company-IsValid s w company))
serve-IsValid (list_sheets env email k) db v =
    checked_company-IsValid env email balance_sheet_read resource_balance_sheet k _ db v
      (λ company s w there. w)
serve-IsValid (read_sheet env email k year) db v =
    checked_company-IsValid env email balance_sheet_read resource_balance_sheet k _ db v
      (λ company s w there. raise-IsValid (find_sheet k year s.balance_sheets) _ s w)
serve-IsValid (import_sheet env email yfinance k year) db v =
    checked_company-IsValid env email balance_sheet_import resource_balance_sheet k _ db v
      (λ company s w there.
        or_502-IsValid (or_400 (import_balance_sheet yfinance k year company.ticker s)) (
          or_400-IsValid (import_balance_sheet yfinance k year company.ticker s)
            (import_balance_sheet-IsValid s w k year yfinance company.ticker)))
serve-IsValid (delete_sheet env email k year) db v =
    checked_company-IsValid env email balance_sheet_delete resource_balance_sheet k _ db v
      (λ company s w there.
        continue-IsValid (or_raise (find_sheet k year s.balance_sheets) _ s) _
          (raise-IsValid (find_sheet k year s.balance_sheets) _ s w)
          (λ b t u. delete_balance_sheet-IsValid t u b))
serve-IsValid (clock time) db v =
    others-IsValid db db.users db.policies db.user_policies db.audit_log time v
serve-IsValid (manage users policies user_policies) db v =
    others-IsValid db users policies user_policies db.audit_log db.now v

-- In every state that a sequence of requests leads to from a valid one, tickers are unique, a
-- company has at most one balance sheet for a year, every balance sheet has its company, and
-- `group_root_id` is the id of the top-most ancestor.
pub Reachable-IsValid :
    {initial db : Database} → IsValid initial → Reachable initial db → IsValid db
Reachable-IsValid v (start e) = subst IsValid (sym e) v
Reachable-IsValid v (after {db = before} request r e) =
    subst IsValid (sym e) (serve-IsValid request before (Reachable-IsValid v r))
