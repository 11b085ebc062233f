-- ===== src/Policies/Store/Rows.antt =====
-- The rows of `policies` as a list, a policy's versioned definition, and the fields of an update.
pub mod Laws
pub mod Setting
use balance_sheet_analysis.Prelude.{
  ℕ, String, Bool, true, false, not, ◌&&◌, ◌||◌, Option, none, some, List, [], ◌∷◌, if◌then◌else◌,
}
use balance_sheet_analysis.Prelude.Equality.{◌==◌, nat_eq, string_eq}
use balance_sheet_analysis.Json.{
  Json, null, bool, str, arr, Items, nil, item, Fields, end, field, get, json_eq,
}
use balance_sheet_analysis.Tables.{Policy, PolicyDefinition}
use balance_sheet_analysis.Policies.Conditions.Validator.{conditions_value}

-- `select(Policy).where(Policy.name == name)`
abbrev pub find_policy : String → List Policy → Option Policy
find_policy name [] = none
find_policy name (p ∷ ps) = if p.name == name then some p else find_policy name ps

-- UPDATE of the row with this id.
abbrev pub replace_policy : Policy → List Policy → List Policy
replace_policy new [] = []
replace_policy new (p ∷ ps) = (if p.id == new.id then new else p) ∷ replace_policy new ps

-- DELETE of the row with this id.
abbrev pub remove_policy : ℕ → List Policy → List Policy
remove_policy id [] = []
remove_policy id (p ∷ ps) = let rest = remove_policy id ps in if p.id == id then rest else p ∷ rest

-- The unique index on `name`, for a row with this id.
abbrev pub name_free : ℕ → String → List Policy → Bool
name_free id name [] = true
name_free id name (p ∷ ps) = (p.id == id || not (p.name == name)) && name_free id name ps

-- `list(policy.actions) if policy.actions else []`
abbrev pub actions_list : Option (List String) → List String
actions_list none = []
actions_list (some actions) = actions

-- `_definition_snapshot`
unfoldable pub definition_snapshot : Policy → PolicyDefinition
definition_snapshot policy = record {
  name = policy.name;
  description = policy.description;
  actions = actions_list policy.actions;
  resource_type = policy.resource_type;
  conditions = policy.conditions;
  is_active = policy.is_active;
}

-- An item of `update_data`: a field with its value, None included. A None for the resource type is
-- not modelled.
pub data Change : Type 0 where
  set_name set_description : Option String → Change
  set_resource_type : String → Change
  set_actions : Option (List String) → Change
  set_conditions : Option Fields → Change
  set_is_active : Option Bool → Change

-- `setattr(db_obj, field, value)`; `none` where the column is NOT NULL and refuses the value at the
-- flush. No field comes twice in a dict.
unfoldable pub set_field : Change → Policy → Option Policy
set_field (set_name none) p = none
set_field (set_name (some v)) p = some (record p { name = v })
set_field (set_description v) p = some (record p { description = v })
set_field (set_actions none) p = none
set_field (set_actions (some v)) p = some (record p { actions = some v })
set_field (set_resource_type v) p = some (record p { resource_type = v })
set_field (set_conditions v) p = some (record p { conditions = v })
set_field (set_is_active none) p = none
set_field (set_is_active (some v)) p = some (record p { is_active = v })

unfoldable pub set_fields : List Change → Policy → Option Policy
unfolding set_field
set_fields [] p = some p
set_fields (change ∷ changes) p = elim (set_field change p) [
  | none ↦ none
  | some q ↦ set_fields changes q
]

abbrev pub field_name : Change → String
field_name (set_name v) = "name"
field_name (set_description v) = "description"
field_name (set_actions v) = "actions"
field_name (set_resource_type v) = "resource_type"
field_name (set_conditions v) = "conditions"
field_name (set_is_active v) = "is_active"

abbrev pub text_value : Option String → Json
text_value none = null
text_value (some s) = str s

abbrev pub items_value : List String → Items
items_value [] = nil
items_value (s ∷ texts) = item (str s) (items_value texts)

-- A definition as the dict that it is.
unfoldable pub definition_dict : PolicyDefinition → Fields
definition_dict d = field "name" (str d.name) (
    field "description" (text_value d.description) (
      field "actions" (arr (items_value d.actions)) (
        field "resource_type" (str d.resource_type) (
          field "conditions" (conditions_value d.conditions)
            (field "is_active" (bool d.is_active) end)))))

-- `previous_definition.get(field) != new_definition.get(field)`
unfoldable pub field_differs : String → Fields → Fields → Bool
field_differs key old new = not (json_eq (get key old) (get key new))

unfoldable pub changed_fields : List Change → PolicyDefinition → PolicyDefinition → List String
unfolding field_differs definition_dict
changed_fields [] old new = []
changed_fields (change ∷ changes) old new =
    let rest = changed_fields changes old new in
    if field_differs (field_name change) (definition_dict old) (definition_dict new)
    then field_name change ∷ rest
    else rest
