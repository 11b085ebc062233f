-- ===== src/Policies/Service.antt =====
-- backend/mystic_auth/authorization/services/authorization_service.py: the decision of one
-- check, its audit entry, and the 403. Writing the entry is taken to succeed.
pub mod Laws
use balance_sheet_analysis.Prelude.{
  String, Bool, not, Option, none, some, ◌++◌, is_nil, if◌then◌else◌,
}
use balance_sheet_analysis.Json.{Json, null, Fields, get, truthy}
use balance_sheet_analysis.Exec.{Exec, pure, lift, raise_if, ◌>>=◌, ◌>>◌, http_exception, text}
use balance_sheet_analysis.Tables.{Database, AuditEntry}
use balance_sheet_analysis.Access.Scope.{CompanyScope, scope_of_policies}
use balance_sheet_analysis.Policies.Conditions.Library.{Environment}
use balance_sheet_analysis.Policies.Engine.{AuthorizationDecision, evaluate_detailed}
use balance_sheet_analysis.Policies.Repository.{get_active_policies_for_user, create_entry}

-- `resource.get("email") or resource.get("id")`, None where there is no resource. The text that
-- the log holds is `str` of it.
unfoldable pub resource_identifier : Option Fields → Option Json
resource_identifier none = none
resource_identifier (some r) =
    let email = get "email" r in
    let id = get "id" r in
    let found = if truthy email then email else id in elim found [ null ↦ none | v ↦ some v ]

unfoldable pub entry_of :
    String → String → String → Option Fields → Option Fields → AuthorizationDecision → AuditEntry
unfolding resource_identifier
entry_of user_email action resource_type resource context decision = record {
  user_email = user_email;
  action = action;
  resource_type = resource_type;
  resource_identifier = resource_identifier resource;
  allowed = decision.allowed;
  candidate_policy_names = decision.matched_policies ++ decision.rejected_policies;
  granting_policy_names = decision.matched_policies;
  failed_conditions =
      if is_nil decision.failed_conditions then none else some decision.failed_conditions;
  context = context;
}

module _ (env : Environment) (user_email action resource_type : String)
    (resource context : Option Fields) where
  unfoldable pub authorize_detailed : Exec Database AuthorizationDecision
  unfolding get_active_policies_for_user
  authorize_detailed = do
    policies ← get_active_policies_for_user user_email
    lift (evaluate_detailed env action resource_type user_email resource context policies)

  unfoldable pub authorize_with_decision : Exec Database AuthorizationDecision
  unfolding authorize_detailed create_entry entry_of
  authorize_with_decision = do
    decision ← authorize_detailed
    create_entry (entry_of user_email action resource_type resource context decision)
    pure decision

  unfoldable pub authorize : Exec Database Bool
  unfolding authorize_with_decision
  authorize = do decision ← authorize_with_decision; pure decision.allowed

  unfoldable pub require : Exec Database Unit
  unfolding authorize
  require = do
    allowed ← authorize
    raise_if (not allowed) (http_exception 403 (text "Insufficient permissions"))

-- access/scope.py, `get_company_scope`
unfoldable pub get_company_scope : String → String → String → Exec Database CompanyScope
unfolding get_active_policies_for_user
get_company_scope user_email action resource_type = do
  policies ← get_active_policies_for_user user_email
  lift (scope_of_policies policies action resource_type)
