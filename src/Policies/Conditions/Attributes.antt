-- ===== src/Policies/Conditions/Attributes.antt =====
-- The condition handlers that compare fields: self_only, resource_attributes, context_attributes
-- and security_context. A resource is a dict, or an object given by the dict of its attributes.
use balance_sheet_analysis.Prelude.{
  String, Bool, true, false, ◌&&◌, Option, none, some, if◌then◌else◌,
}
use balance_sheet_analysis.Json.{
  Json, str, Fields, end, field, get, truthy, json_eq, attribute, items_of,
}
use balance_sheet_analysis.Exec.{Result, ok, attribute_error}
use balance_sheet_analysis.Exec.Pure.{◌>>=◌}
use balance_sheet_analysis.Policies.Conditions.Library.{or_empty}

unfoldable pub self_only : Json → String → Option Fields → Bool
self_only value user_email resource =
    if truthy value
    then elim resource [ none ↦ false | some r ↦ json_eq (get "email" r) (str user_email) ]
    else true

-- `all(get(key) == expected for key, expected in fields.items())`
unfoldable pub all_equal : Fields → Fields → Bool
all_equal end source = true
all_equal (field k v fs) source = json_eq (get k source) v && all_equal fs source

-- resource_attributes and context_attributes
unfoldable pub attributes_match : Json → Option Fields → Result Bool
unfolding all_equal
attributes_match value source =
    if truthy value
    then elim source [
      | none ↦ ok false
      | some s ↦ items_of attribute_error value >>= λ fs. ok (all_equal fs s)
    ]
    else ok true

-- The loop of security_context, which returns at the first signal that is absent or differs.
unfoldable pub signals_match : Fields → Json → Result Bool
signals_match end signals = ok true
signals_match (field k v fs) signals = attribute attribute_error k signals >>= elim [
  | none ↦ ok false
  | some w ↦ if json_eq w v then signals_match fs signals else ok false
]

unfoldable pub security_context : Json → Option Fields → Result Bool
unfolding signals_match
security_context value context =
    let signals = get "security_context" (or_empty context) in
    if truthy value
    then (if truthy signals
        then (items_of attribute_error value >>= λ fs. signals_match fs signals)
        else ok false)
    else ok true
