-- ===== src/Policies/Conditions.antt =====
-- backend/mystic_auth/authorization/conditions: the registry that finds a condition's handler by
-- its key, and the service that requires every condition of a policy. The handlers are in the
-- modules below.
pub mod Library
pub mod Attributes
pub mod Bounded
pub mod Validator
use balance_sheet_analysis.Prelude.{
  String, Bool, false, Option, none, some, List, [], ◌∷◌, if◌then◌else◌,
}
use balance_sheet_analysis.Prelude.Equality.{◌==◌, string_eq}
use balance_sheet_analysis.Json.{Json, Fields, end, field}
use balance_sheet_analysis.Exec.{Result, ok}
use balance_sheet_analysis.Exec.Pure.{◌>>=◌}
use Library.{Environment, or_empty}
use Attributes.{self_only, attributes_match, security_context}
use Bounded.{time_condition, date_range_condition, network_condition}

-- default_condition_registry
pub data Handler : Type 0 where
  self_only_handler resource_attributes_handler context_attributes_handler : Handler
  time_handler date_range_handler network_handler security_context_handler : Handler

unfoldable pub registry : String → Option Handler
registry key =
    if key == "self_only"
    then some self_only_handler
    else if key == "resource_attributes"
    then some resource_attributes_handler
    else if key == "context_attributes"
    then some context_attributes_handler
    else if key == "time"
    then some time_handler
    else if key == "date_range"
    then some date_range_handler
    else if key == "network"
    then some network_handler
    else if key == "security_context"
    then some security_context_handler
    else none

module _ (env : Environment) (user_email : String) (resource context : Option Fields) where
  unfoldable pub evaluate_handler : Handler → Json → Result Bool
  evaluate_handler self_only_handler value = ok (self_only value user_email resource)
  evaluate_handler resource_attributes_handler value = attributes_match value resource
  evaluate_handler context_attributes_handler value = attributes_match value context
  evaluate_handler time_handler value = ok (time_condition env value context)
  evaluate_handler date_range_handler value = ok (date_range_condition env value context)
  evaluate_handler network_handler value = ok (network_condition env value context)
  evaluate_handler security_context_handler value = security_context value context

  -- `handler is None or not handler.evaluate(...)`, turned round
  unfoldable pub condition_holds : String → Json → Result Bool
  unfolding registry evaluate_handler
  condition_holds key value = elim (registry key) [
    | none ↦ ok false
    | some handler ↦ evaluate_handler handler value
  ]

  -- The loop over the conditions, which collects every key that fails.
  unfoldable pub failed_keys : Fields → Result (List String)
  unfolding condition_holds
  failed_keys end = ok []
  failed_keys (field key value rest) = condition_holds key value >>= λ holds.
      failed_keys rest >>= λ failed. ok (if holds then failed else key ∷ failed)

  -- `evaluate_detailed` of the service: the keys that failed; the policy is satisfied if none did.
  unfoldable pub evaluate_conditions : Option Fields → Result (List String)
  unfolding failed_keys
  evaluate_conditions conditions = failed_keys (or_empty conditions)
