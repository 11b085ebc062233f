-- ===== src/Policies/Admin/History.antt =====
-- backend/mystic_auth/api/pbac_routes/policy_history_routes.py.
use balance_sheet_analysis.Prelude.{
  ℕ, String, Bool, true, false, not, ◌&&◌, Option, none, some, List, [], ◌∷◌, ◌<>◌, if◌then◌else◌,
}
use balance_sheet_analysis.Prelude.Equality.{◌==◌, string_eq}
use balance_sheet_analysis.Prelude.Int.{pos}
use balance_sheet_analysis.Json.{Json, int, str, Fields, end, get, truthy}
use balance_sheet_analysis.Exec.{
  Exec, pure, or_raise, raise_if, ◌>>=◌, ◌>>◌, http_exception, text, Exception,
}
use balance_sheet_analysis.Tables.{
  Database, Policy, PolicyDefinition, PolicyHistory, policy_rolled_back,
}
use balance_sheet_analysis.Policies.Conditions.Library.{Environment}
use balance_sheet_analysis.Policies.Names.{is_protected}
use balance_sheet_analysis.Policies.Grant.{assert_authorized_to_grant}
use balance_sheet_analysis.Policies.Store.Rows.{
  Change, set_name, set_description, set_actions, set_resource_type, set_conditions, set_is_active,
  definition_dict, field_differs,
}
use balance_sheet_analysis.Policies.Store.History.{get_for_policy, get_by_id}
use balance_sheet_analysis.Policies.Store.Mutations.{update}
use balance_sheet_analysis.Policies.Admin.{
  policies_dependency, check_conditions, find_policy_or_404,
}
use balance_sheet_analysis.Policies.Admin.Crud.{cannot_be}

-- `_definition_for_entry`
unfoldable pub definition_for_entry : PolicyHistory → Option PolicyDefinition
definition_for_entry entry = elim entry.new_definition [
  | some d ↦ some d
  | none ↦ entry.previous_definition
]

abbrev pub no_entry : String → Exception
no_entry label = http_exception 404 (text ("History entry for '" <> label <> "' not found"))

pub record PolicyHistoryCompareResponse : Type 0 where
  pub policy_name : String
  pub from_history_id : ℕ
  pub to_history_id : ℕ
  pub from_definition : Option PolicyDefinition
  pub to_definition : Option PolicyDefinition
  pub changed_fields : List String
  pub diff : List (String × Json × Json)

-- `definition or {}`
abbrev pub dict_or_empty : Option PolicyDefinition → Fields
dict_or_empty none = end
dict_or_empty (some d) = definition_dict d

-- The fields whose values differ, with the values, in the order of the keys that are given.
unfoldable pub diff_of : List String → Fields → Fields → List (String × Json × Json)
unfolding field_differs
diff_of [] old new = []
diff_of (key ∷ keys) old new =
    let rest = diff_of keys old new in
    if field_differs key old new then (key, get key old, get key new) ∷ rest else rest

-- The keys of a definition, sorted.
abbrev pub definition_keys : List String
definition_keys =
    "actions" ∷ "conditions" ∷ "description" ∷ "is_active" ∷ "name" ∷ "resource_type" ∷ []

abbrev pub keys_of_diff : List (String × Json × Json) → List String
keys_of_diff [] = []
keys_of_diff ((key, _, _) ∷ diff) = key ∷ keys_of_diff diff

-- A dict's items as an update: `(definition or {}).items()`, in the order in which a JSONB column
-- gives the keys back, the shorter first.
unfoldable pub changes_of : Option PolicyDefinition → List Change
changes_of none = []
changes_of (some d) =
    set_name (some d.name)
    ∷ set_actions (some d.actions)
    ∷ set_is_active (some d.is_active)
    ∷ set_conditions d.conditions
    ∷ set_description d.description
    ∷ set_resource_type d.resource_type
    ∷ []

-- `.get("conditions")`, `.get("name") != policy.name`, `.get("is_active") is False`,
-- `.get("actions", [])` and `.get("resource_type", policy.resource_type)`
abbrev pub conditions_in : Option PolicyDefinition → Option Fields
conditions_in none = none
conditions_in (some d) = d.conditions

abbrev pub names_another : Option PolicyDefinition → Policy → Bool
names_another none policy = true
names_another (some d) policy = not (d.name == policy.name)

abbrev pub inactive : Option PolicyDefinition → Bool
inactive none = false
inactive (some d) = not d.is_active

abbrev pub actions_in : Option PolicyDefinition → List String
actions_in none = []
actions_in (some d) = d.actions

abbrev pub resource_type_in : Option PolicyDefinition → Policy → String
resource_type_in none policy = policy.resource_type
resource_type_in (some d) policy = d.resource_type

-- `not history_entry or history_entry.policy_name != policy_name`
abbrev pub entry_of_policy : String → Option PolicyHistory → Option PolicyHistory
entry_of_policy policy_name none = none
entry_of_policy policy_name (some h) = if h.policy_name == policy_name then some h else none

module _ (env : Environment) (email : String) (context : Fields) where
  unfoldable pub list_policy_history : String → ℕ → ℕ → Exec Database (List PolicyHistory)
  unfolding policies_dependency get_for_policy
  list_policy_history policy_name limit offset = do
    policies_dependency env email context "policies:read"
    get_for_policy policy_name limit offset

  -- The body of the loop over the two entries: it is there, and it is the policy's.
  unfoldable pub check_entry : String → String → Option PolicyHistory → Exec Database PolicyHistory
  check_entry policy_name label found = do
    entry ← or_raise found (no_entry label)
    raise_if (not (entry.policy_name == policy_name)) (
        http_exception 400 (
          text (
            "History entry "
            <> env.repr (int (pos entry.id))
            <> " belongs to policy '"
            <> entry.policy_name
            <> "', not '"
            <> policy_name
            <> "'")))
    pure entry

  unfoldable pub compare_policy_history :
      String → ℕ → ℕ → Exec Database PolicyHistoryCompareResponse
  unfolding policies_dependency get_by_id check_entry definition_for_entry diff_of
  compare_policy_history policy_name from_id to_id = do
    policies_dependency env email context "policies:read"
    from_found ← get_by_id from_id
    to_found ← get_by_id to_id
    from_entry ← check_entry policy_name "from_id" from_found
    to_entry ← check_entry policy_name "to_id" to_found
    let from_definition = definition_for_entry from_entry
    let to_definition = definition_for_entry to_entry
    let diff = diff_of definition_keys (dict_or_empty from_definition) (dict_or_empty to_definition)
    pure (record {
      policy_name = policy_name;
      from_history_id = from_id;
      to_history_id = to_id;
      from_definition = from_definition;
      to_definition = to_definition;
      changed_fields = keys_of_diff diff;
      diff = diff;
    })

  -- `reason or f"Rolled back to history entry {history_id}"`
  unfoldable pub reason_for : Option String → ℕ → String
  reason_for none history_id = "Rolled back to history entry " <> env.repr (int (pos history_id))
  reason_for (some reason) history_id =
      if truthy (str reason)
      then reason
      else "Rolled back to history entry " <> env.repr (int (pos history_id))

  unfoldable pub rollback_policy : String → ℕ → Option String → Exec Database Policy
  unfolding policies_dependency find_policy_or_404 get_by_id definition_for_entry check_conditions
      assert_authorized_to_grant changes_of update reason_for
  rollback_policy policy_name history_id reason = do
    policies_dependency env email context "policies:update"
    policy ← find_policy_or_404 policy_name
    found ← get_by_id history_id
    history_entry ←
        or_raise (entry_of_policy policy_name found)
          (http_exception 404 (text "History entry not found for this policy"))
    let target = definition_for_entry history_entry
    check_conditions env (conditions_in target)
    raise_if (is_protected policy.name && names_another target policy)
        (cannot_be policy.name "renamed")
    raise_if (is_protected policy.name && inactive target) (cannot_be policy.name "deactivated")
    assert_authorized_to_grant env email (resource_type_in target policy) (some (actions_in target))
    update policy (changes_of target) email (some (reason_for reason history_id)) policy_rolled_back
