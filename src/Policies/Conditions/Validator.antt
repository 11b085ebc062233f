-- ===== src/Policies/Conditions/Validator.antt =====
-- backend/mystic_auth/authorization/conditions/condition_validator.py: what a policy's conditions
-- must be before they are stored. Every check returns the problems that it finds, in their order.
pub mod Laws
use text.Mathlib.Text.{find?}
use balance_sheet_analysis.Prelude.{
  String, Bool, true, false, not, ◌&&◌, ◌||◌, Option, none, some, is_some, List, [], ◌∷◌, ◌++◌,
  if◌then◌else◌, ◌<>◌,
}
use balance_sheet_analysis.Prelude.Equality.{◌==◌, string_eq}
use balance_sheet_analysis.Json.{
  Json, null, bool, str, arr, obj, Items, nil, item, Fields, end, field, get,
}
use balance_sheet_analysis.Policies.Conditions.Library.{Environment}

-- `not isinstance(value, dict) or not value`
abbrev pub non_empty_object : String → Json → List String
non_empty_object message (obj (field k v fs)) = []
non_empty_object message _ = message ∷ []

unfoldable pub validate_self_only : Json → List String
validate_self_only (bool b) = []
validate_self_only _ = "'self_only' must be a boolean" ∷ []

unfoldable pub validate_resource_attributes : Json → List String
validate_resource_attributes value =
    non_empty_object "'resource_attributes' must be a non-empty object" value

unfoldable pub validate_context_attributes : Json → List String
validate_context_attributes value =
    non_empty_object "'context_attributes' must be a non-empty object" value

unfoldable pub validate_security_context : Json → List String
validate_security_context value =
    non_empty_object "'security_context' must be a non-empty object" value

module _ (env : Environment) where
  -- The body of the loop over "start" and "end" of a daily window.
  unfoldable pub validate_time_bound : String → Json → List String
  validate_time_bound bound (str raw) =
      if is_some (env.parse_time raw)
      then []
      else ("'time." <> bound <> "' is not a valid time: " <> env.repr (str raw)) ∷ []
  validate_time_bound bound raw =
      ("'time." <> bound <> "' is required and must be a string ('HH:MM')") ∷ []

  abbrev not_a_timezone : Json → String
  not_a_timezone timezone_name =
      "'time.timezone' is not a valid IANA timezone name: " <> env.repr timezone_name

  -- `timezone_name is not None and (not isinstance(...) or ... not in available_timezones())`
  unfoldable pub validate_timezone : Json → List String
  validate_timezone null = []
  validate_timezone (str name) =
      if env.available_timezone name then [] else not_a_timezone (str name) ∷ []
  validate_timezone v = not_a_timezone v ∷ []

  unfoldable pub validate_time : Json → List String
  unfolding validate_time_bound validate_timezone
  validate_time (obj fs) =
      validate_time_bound "start" (get "start" fs)
      ++ validate_time_bound "end" (get "end" fs)
      ++ validate_timezone (get "timezone" fs)
  validate_time _ = "'time' must be an object" ∷ []

  -- The body of the loop over the two bounds of a range of dates.
  unfoldable pub validate_date_bound : String → Json → List String
  validate_date_bound bound_name null = []
  validate_date_bound bound_name (str bound_value) =
      if is_some (env.parse_date bound_value)
      then []
      else "'date_range." <> bound_name <> "' is not a valid date: " <> env.repr (str bound_value)
        ∷ []
  validate_date_bound bound_name bound_value =
      "'date_range." <> bound_name <> "' must be a string ('YYYY-MM-DD')" ∷ []

  -- The test for None on both bounds comes first.
  unfoldable pub validate_bounds : Json → Json → List String
  unfolding validate_date_bound
  validate_bounds null null = "'date_range' requires at least one of 'start' or 'end'" ∷ []
  validate_bounds start finish =
      validate_date_bound "start" start ++ validate_date_bound "end" finish

  unfoldable pub validate_date_range : Json → List String
  unfolding validate_bounds
  validate_date_range (obj fs) = validate_bounds (get "start" fs) (get "end" fs)
  validate_date_range _ = "'date_range' must be an object" ∷ []

  -- The body of the loop over the addresses and networks.
  unfoldable pub validate_entry : Json → List String
  validate_entry (str s) =
      if (if is_some (find? s "/") then env.is_network s else is_some (env.parse_address (str s)))
      then []
      else "'network.allowed_ips' contains an invalid IP/CIDR: " <> env.repr (str s) ∷ []
  validate_entry v = "'network.allowed_ips' entries must be strings, got " <> env.repr v ∷ []

  unfoldable pub validate_entries : Items → List String
  unfolding validate_entry
  validate_entries nil = []
  validate_entries (item x xs) = validate_entry x ++ validate_entries xs

  unfoldable pub validate_allowed_ips : Json → List String
  unfolding validate_entries
  validate_allowed_ips (arr (item x xs)) = validate_entries (item x xs)
  validate_allowed_ips _ = "'network.allowed_ips' must be a non-empty list" ∷ []

  unfoldable pub validate_network : Json → List String
  unfolding validate_allowed_ips
  validate_network (obj fs) = validate_allowed_ips (get "allowed_ips" fs)
  validate_network _ = "'network' must be an object" ∷ []

  -- `_VALIDATORS`, whose keys are those of `_SUPPORTED_KEYS`
  unfoldable pub validator : String → Option (Json → List String)
  validator key =
      if key == "self_only"
      then some validate_self_only
      else if key == "resource_attributes"
      then some validate_resource_attributes
      else if key == "context_attributes"
      then some validate_context_attributes
      else if key == "security_context"
      then some validate_security_context
      else if key == "time"
      then some validate_time
      else if key == "date_range"
      then some validate_date_range
      else if key == "network"
      then some validate_network
      else none

  unfoldable pub validate_condition : String → Json → List String
  unfolding validator
  validate_condition key value = elim (validator key) [
    | none ↦ "Unknown condition key '" <> key <> "'" ∷ []
    | some check ↦ check value
  ]

  unfoldable pub validate_fields : Fields → List String
  unfolding validate_condition
  validate_fields end = []
  validate_fields (field key value fs) = validate_condition key value ++ validate_fields fs

  -- The problems that ConditionValidationError carries; it is raised if there are any.
  unfoldable pub validate_conditions : Json → List String
  unfolding validate_fields
  validate_conditions null = []
  validate_conditions (obj fs) = validate_fields fs
  validate_conditions _ = "'conditions' must be a JSON object" ∷ []

-- The JSON value of a policy's conditions.
abbrev pub conditions_value : Option Fields → Json
conditions_value none = null
conditions_value (some fs) = obj fs
