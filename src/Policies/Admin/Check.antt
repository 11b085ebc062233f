-- ===== src/Policies/Admin/Check.antt =====
-- backend/mystic_auth/api/pbac_routes/authorization_check_routes.py and `authorize_batch` of
-- authorization_service.py.
pub mod Laws
use balance_sheet_analysis.Prelude.{
  String, Bool, false, Option, none, some, List, [], ◌∷◌, ◌++◌, map,
}
use balance_sheet_analysis.Json.{Fields}
use balance_sheet_analysis.Exec.{Result, ok, err, Exec, pure, ◌>>=◌, ◌>>◌}
use balance_sheet_analysis.Tables.{Database, Policy}
use balance_sheet_analysis.Policies.Conditions.Library.{Environment}
use balance_sheet_analysis.Policies.Engine.{AuthorizationDecision, evaluate_detailed}
use balance_sheet_analysis.Policies.Repository.{get_active_policies_for_user, create_entry}
use balance_sheet_analysis.Policies.Service.{authorize_detailed, entry_of, require}
use balance_sheet_analysis.Policies.Admin.{policies_dependency, find_user_or_404}

-- An item of a batch.
pub record BatchItem : Type 0 where
  pub action : String
  pub resource_type : String
  pub resource : Option Fields

-- The decision for a check whose evaluation raised.
abbrev pub evaluation_error : String → BatchItem → AuthorizationDecision
evaluation_error user_email check = record {
  allowed = false;
  action = check.action;
  resource_type = check.resource_type;
  user = user_email;
  evaluated_policies = [];
  matched_policies = [];
  rejected_policies = [];
  failed_conditions = [];
  denial_reason = some "evaluation_error";
}

-- `except Exception`
abbrev pub or_evaluation_error :
    String → BatchItem → Result AuthorizationDecision → AuthorizationDecision
or_evaluation_error user_email check (ok decision) = decision
or_evaluation_error user_email check (err e) = evaluation_error user_email check

module _ (env : Environment) (user_email : String) (context : Option Fields) where
  unfoldable pub decide_item : List Policy → BatchItem → AuthorizationDecision
  decide_item policies check = or_evaluation_error user_email check (
      evaluate_detailed env check.action check.resource_type user_email check.resource context
        policies)

  -- The loop over the checks: each decision is logged.
  unfoldable pub decide_items :
      List Policy → List BatchItem → Exec Database (List AuthorizationDecision)
  unfolding decide_item create_entry entry_of
  decide_items policies [] = pure []
  decide_items policies (check ∷ checks) = do
    let decision = decide_item policies check
    create_entry
        (entry_of user_email check.action check.resource_type check.resource context decision)
    decisions ← decide_items policies checks
    pure (decision ∷ decisions)

  -- The policies are fetched once for all the checks.
  unfoldable pub authorize_batch : List BatchItem → Exec Database (List AuthorizationDecision)
  unfolding get_active_policies_for_user decide_items
  authorize_batch checks = do
    policies ← get_active_policies_for_user user_email
    decide_items policies checks

pub record BatchResult : Type 0 where
  pub action : String
  pub resource_type : String
  pub allowed : Bool
  pub denial_reason : Option String

abbrev pub result_of : AuthorizationDecision → BatchResult
result_of decision = record {
  action = decision.action;
  resource_type = decision.resource_type;
  allowed = decision.allowed;
  denial_reason = decision.denial_reason;
}

module _ (env : Environment) (email : String) (context : Fields) where
  -- The answer's fields are those of the decision, but for `candidate_policies`, the matched and the
  -- rejected ones. The user is looked up by the normalised address, and the policies by the address
  -- as it was sent.
  unfoldable pub check_user_authorization :
      String
      → String
      → String
      → Option Fields
      → Option Fields
      → Exec Database (AuthorizationDecision × List String)
  unfolding policies_dependency find_user_or_404 authorize_detailed
  check_user_authorization user_email action resource_type resource hypothetical = do
    policies_dependency env email context "policies:read"
    find_user_or_404 env user_email
    decision ← authorize_detailed env user_email action resource_type resource hypothetical
    pure (decision, decision.matched_policies ++ decision.rejected_policies)

  unfoldable pub batch_check_authorization : List BatchItem → Exec Database (List BatchResult)
  unfolding authorize_batch
  batch_check_authorization checks = do
    require env email "users:read_own" "users" none (some context)
    decisions ← authorize_batch env email (some context) checks
    pure (map result_of decisions)
