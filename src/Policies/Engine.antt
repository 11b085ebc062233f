-- ===== src/Policies/Engine.antt =====
-- backend/mystic_auth/authorization/evaluators: one decision from a user's active policies.
pub mod Laws
pub mod Total
use balance_sheet_analysis.Prelude.{
  String, Bool, true, false, not, ◌&&◌, ◌||◌, Option, none, some, List, [], ◌∷◌, ◌++◌, map, is_nil,
  if◌then◌else◌,
}
use balance_sheet_analysis.Prelude.Equality.{◌==◌, contains, string_eq}
use balance_sheet_analysis.Json.{Fields}
use balance_sheet_analysis.Exec.{Result, ok, err}
use balance_sheet_analysis.Exec.Pure.{◌>>=◌}
use balance_sheet_analysis.Tables.{Policy}
use balance_sheet_analysis.Policies.Conditions.{evaluate_conditions}
use balance_sheet_analysis.Policies.Conditions.Library.{Environment}

-- authorization_decision.py, without the time of the evaluation.
pub record AuthorizationDecision : Type 0 where
  pub allowed : Bool
  pub action : String
  pub resource_type : String
  pub user : String
  pub evaluated_policies : List String
  pub matched_policies : List String
  pub rejected_policies : List String
  pub failed_conditions : List (String × List String)
  pub denial_reason : Option String

-- What the loop collects: matched, rejected, failed_conditions.
pub record Tally : Type 0 where
  pub matched : List String
  pub rejected : List String
  pub failed : List (String × List String)

-- `policy.resource_type in (resource_type, "*")` and `action in (policy.actions or [])`
unfoldable pub concerns : String → String → Policy → Bool
concerns action resource_type policy =
    (policy.resource_type == resource_type || policy.resource_type == "*")
    && elim policy.actions [ none ↦ false | some actions ↦ contains action actions ]

-- `d[k] = v`
unfoldable pub insert :
    String → List String → List (String × List String) → List (String × List String)
insert k v [] = (k, v) ∷ []
insert k v ((j, w) ∷ d) = if j == k then (j, v) ∷ d else (j, w) ∷ insert k v d

unfoldable pub add_result : String → List String → Tally → Tally
unfolding insert
add_result name [] t = record t { matched = t.matched ++ name ∷ [] }
add_result name (key ∷ keys) t = record t {
  rejected = t.rejected ++ name ∷ [];
  failed = insert name (key ∷ keys) t.failed;
}

-- `_denial_reason`
unfoldable pub denial_reason : List String → List String → String
denial_reason [] rejected = "no_assigned_policies"
denial_reason (p ∷ ps) [] = "no_matching_policy"
denial_reason (p ∷ ps) (r ∷ rs) = "condition_failed"

module _ (env : Environment) (action resource_type user_email : String)
    (resource context : Option Fields) where
  -- The loop's body: a policy for another resource type or action is passed over.
  unfoldable pub add_policy : Policy → Tally → Result Tally
  unfolding add_result concerns
  add_policy policy t =
      if concerns action resource_type policy
      then (do
        failed ← evaluate_conditions env user_email resource context policy.conditions
        ok (add_result policy.name failed t))
      else ok t

  unfoldable pub tally_policies : List Policy → Tally → Result Tally
  unfolding add_policy
  tally_policies [] t = ok t
  tally_policies (policy ∷ policies) t = do t' ← add_policy policy t; tally_policies policies t'

  unfoldable pub decision_of : List Policy → Tally → AuthorizationDecision
  unfolding denial_reason
  decision_of policies t =
      let allowed = not (is_nil t.matched) in
      let evaluated = map (λ (p : Policy). p.name) policies in
      record {
        allowed = allowed;
        action = action;
        resource_type = resource_type;
        user = user_email;
        evaluated_policies = evaluated;
        matched_policies = t.matched;
        rejected_policies = t.rejected;
        failed_conditions = t.failed;
        denial_reason = if allowed then none else some (denial_reason evaluated t.rejected);
      }

  unfoldable pub evaluate_detailed : List Policy → Result AuthorizationDecision
  unfolding tally_policies decision_of
  evaluate_detailed policies = do
    t ← tally_policies policies (record { matched = []; rejected = []; failed = [] })
    ok (decision_of policies t)

  -- `evaluate`
  unfoldable pub evaluate : List Policy → Result Bool
  unfolding evaluate_detailed
  evaluate policies = do decision ← evaluate_detailed policies; ok decision.allowed
