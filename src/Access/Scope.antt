-- ===== src/Access/Scope.antt =====
-- backend/app/access/scope.py: a user's policies collapsed into one rule for filtering lists, and
-- the dict that every check of a single company passes. Reading the policies from the database is
-- in Policies/Repository.antt; `scope_of_policies` is the rest of `get_company_scope`.
pub mod Laws
use balance_sheet_analysis.Prelude.{
  ℕ, String, Bool, true, false, not, ◌&&◌, ◌||◌, Option, none, some, List, [], ◌∷◌, ◌++◌, any,
  is_nil, if◌then◌else◌,
}
use balance_sheet_analysis.Prelude.Equality.{◌==◌, contains, string_eq}
use balance_sheet_analysis.Prelude.Int.{pos}
use balance_sheet_analysis.Json.{
  Json, null, bool, int, str, arr, obj, Fields, end, field, lookup, truthy, json_eq, hashable,
  attribute,
}
use balance_sheet_analysis.Exec.{Result, ok, err, type_error}
use balance_sheet_analysis.Exec.Pure.{◌>>=◌}
use balance_sheet_analysis.Tables.{Policy}

-- The `resource=` payload of every check of a company, a balance sheet or a chat.
unfoldable pub resource_scope_dict : ℕ → ℕ → Fields
resource_scope_dict company_id group_root_id =
    field "company_id" (int (pos company_id)) (field "group_root_id" (int (pos group_root_id)) end)

pub record CompanyScope : Type 0 where
  pub unrestricted : Bool
  pub company_ids : List Json
  pub group_root_ids : List Json

unfoldable pub is_empty : CompanyScope → Bool
is_empty s = not s.unrestricted && is_nil s.company_ids && is_nil s.group_root_ids

-- `ids.add(v)`
unfoldable pub add_value : Option Json → List Json → Result (List Json)
add_value none ids = ok ids
add_value (some v) ids =
    if hashable v
    then (if any (json_eq v) ids then ok ids else ok (ids ++ v ∷ []))
    else err type_error

-- `policy.resource_type in (resource_type, "*")` and `action in (policy.actions or [])`
unfoldable pub applies : String → String → Policy → Bool
applies action resource_type policy =
    (policy.resource_type == resource_type || policy.resource_type == "*")
    && elim policy.actions [ none ↦ false | some actions ↦ contains action actions ]

-- `(policy.conditions or {}).get("resource_attributes")`
unfoldable pub resource_attributes : Policy → Option Json
resource_attributes policy = elim policy.conditions [
  | none ↦ none
  | some conditions ↦ lookup "resource_attributes" conditions
]

-- What is no dict raises, as a policy stored by another way than the management API may hold.
unfoldable pub add_attributes : Json → CompanyScope → Result CompanyScope
unfolding attribute add_value
add_attributes attrs scope = do
  company_id ← attribute type_error "company_id" attrs
  company_ids ← add_value company_id scope.company_ids
  group_root_id ← attribute type_error "group_root_id" attrs
  group_root_ids ← add_value group_root_id scope.group_root_ids
  ok (record scope { company_ids = company_ids; group_root_ids = group_root_ids })

-- `if not resource_attrs: unrestricted = True`, else the two ids
unfoldable pub add_found : Option Json → CompanyScope → Result CompanyScope
unfolding add_attributes
add_found none scope = ok (record scope { unrestricted = true })
add_found (some attrs) scope =
    if truthy attrs then add_attributes attrs scope else ok (record scope { unrestricted = true })

-- The body of the loop for a policy that applies.
unfoldable pub add_policy : Policy → CompanyScope → Result CompanyScope
unfolding resource_attributes add_found
add_policy policy scope = add_found (resource_attributes policy) scope

-- The loop over the policies.
unfoldable pub add_policies : String → String → List Policy → CompanyScope → Result CompanyScope
unfolding applies add_policy
add_policies action resource_type [] scope = ok scope
add_policies action resource_type (policy ∷ policies) scope =
    (if applies action resource_type policy then add_policy policy scope else ok scope)
    >>= add_policies action resource_type policies

abbrev pub nothing : CompanyScope
nothing = record { unrestricted = false; company_ids = []; group_root_ids = [] }

unfoldable pub scope_of_policies : List Policy → String → String → Result CompanyScope
unfolding add_policies
scope_of_policies policies action resource_type = add_policies action resource_type policies nothing

-- The rows that the scope's WHERE clause lets through (companies/company_crud.py,
-- `_apply_scope_and_filters`). The values are compared as Python compares them; that the database
-- driver refuses a value that is no number is not modelled.
unfoldable pub in_scope : CompanyScope → ℕ → ℕ → Bool
in_scope scope company_id group_root_id =
    scope.unrestricted
    || any (λ v. json_eq v (int (pos company_id))) scope.company_ids
    || any (λ v. json_eq v (int (pos group_root_id))) scope.group_root_ids
