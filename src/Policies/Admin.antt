-- ===== src/Policies/Admin.antt =====
-- backend/mystic_auth/api/pbac_routes: the management of policies and their assignments. Here is
-- what the handlers share; they are in the modules below.
pub mod Crud
pub mod History
pub mod Assignment
pub mod Check
pub mod Steps
pub mod Answers
use balance_sheet_analysis.Prelude.{String, Bool, not, Option, none, some, List, is_nil}
use balance_sheet_analysis.Prelude.Equality.{◌==◌, string_eq}
use balance_sheet_analysis.Json.{Json, Fields}
use balance_sheet_analysis.Exec.{
  Exec, gets, or_raise, raise_if, ◌>>=◌, http_exception, text, messages,
}
use balance_sheet_analysis.Tables.{Database, User, Policy}
use balance_sheet_analysis.Policies.Conditions.Library.{Environment}
use balance_sheet_analysis.Policies.Conditions.Validator.{validate_conditions, conditions_value}
use balance_sheet_analysis.Policies.Service.{require}
use balance_sheet_analysis.Policies.Store.Mutations.{get_by_name}
use balance_sheet_analysis.Prelude.{if◌then◌else◌, [], ◌∷◌}

unfoldable pub get_or_404 : {A : Type 0} → Exec Database (Option A) → String → Exec Database A
get_or_404 fetch not_found_detail = do
  found ← fetch
  or_raise found (http_exception 404 (text not_found_detail))

-- `Depends(require_authorization(action, "policies"))`; `context` is made from the request by
-- build_authorization_context.
unfoldable pub policies_dependency : Environment → String → Fields → String → Exec Database Unit
policies_dependency env email context action =
    require env email action "policies" none (some context)

-- `validate_conditions(...)`, `except ConditionValidationError` with the errors as the detail
unfoldable pub check_conditions : Environment → Option Fields → Exec Database Unit
check_conditions env conditions =
    let errors = validate_conditions env (conditions_value conditions) in
    raise_if (not (is_nil errors)) (http_exception 422 (messages errors))

-- `get_or_404(policy_repository.get_by_name(...), "Policy not found")`
unfoldable pub find_policy_or_404 : String → Exec Database Policy
unfolding get_or_404 get_by_name
find_policy_or_404 policy_name = get_or_404 (get_by_name policy_name) "Policy not found"

abbrev pub find_user : String → List User → Option User
find_user email [] = none
find_user email (u ∷ users) = if u.email == email then some u else find_user email users

-- user_crud.get_by_email, with normalize_email
unfoldable pub get_by_email : Environment → String → Exec Database (Option User)
get_by_email env email = gets (λ db. find_user (env.lower (env.strip email)) db.users)

unfoldable pub find_user_or_404 : Environment → String → Exec Database User
unfolding get_or_404 get_by_email
find_user_or_404 env user_email = get_or_404 (get_by_email env user_email) "User not found"
