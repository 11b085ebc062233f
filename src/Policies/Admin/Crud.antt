-- ===== src/Policies/Admin/Crud.antt =====
-- backend/mystic_auth/api/pbac_routes/policy_crud_routes.py.
use balance_sheet_analysis.Prelude.{
  ℕ, String, Bool, true, false, not, ◌&&◌, Option, none, some, is_some, List, [], ◌∷◌, ◌++◌, ◌<>◌,
  if◌then◌else◌,
}
use balance_sheet_analysis.Prelude.Equality.{◌==◌, string_eq}
use balance_sheet_analysis.Json.{Fields}
use balance_sheet_analysis.Exec.{
  Exec, pure, gets, raise_if, ◌>>=◌, ◌>>◌, http_exception, text, Exception,
}
use balance_sheet_analysis.Tables.{Database, Policy, policy_updated}
use balance_sheet_analysis.Companies.Schema.{Sent, unset, sent}
use balance_sheet_analysis.Policies.Conditions.Library.{Environment}
use balance_sheet_analysis.Policies.Names.{is_protected}
use balance_sheet_analysis.Policies.Grant.{assert_authorized_to_grant}
use balance_sheet_analysis.Policies.Store.Rows.{
  find_policy, Change, set_name, set_description, set_actions, set_resource_type, set_conditions,
  set_is_active,
}
use balance_sheet_analysis.Policies.Store.Mutations.{PolicyCreate, create, get_all, update, delete}
use balance_sheet_analysis.Policies.Admin.{
  policies_dependency, check_conditions, find_policy_or_404,
}

-- `PolicyUpdate` after validation. A `resource_type` sent as null is not modelled: `none` is a field
-- left out.
pub record PolicyUpdate : Type 0 where
  pub name : Sent String
  pub description : Sent String
  pub actions : Sent (List String)
  pub resource_type : Option String
  pub conditions : Sent Fields
  pub is_active : Sent Bool
  pub change_reason : Option String

abbrev pub if_sent : {A : Type 0} → (Option A → Change) → Sent A → List Change
if_sent change unset = []
if_sent change (sent v) = change v ∷ []

abbrev pub if_given : Option String → List Change
if_given none = []
if_given (some v) = set_resource_type v ∷ []

-- `update_data.model_dump(exclude_unset=True, exclude={"change_reason"})`
unfoldable pub fields_of : PolicyUpdate → List Change
fields_of u =
    if_sent set_name u.name
    ++ if_sent set_description u.description
    ++ if_sent set_actions u.actions
    ++ if_given u.resource_type
    ++ if_sent set_conditions u.conditions
    ++ if_sent set_is_active u.is_active

-- `"name" in fields and fields["name"] != policy.name`
unfoldable pub renames : Sent String → Policy → Bool
renames unset policy = false
renames (sent none) policy = true
renames (sent (some name)) policy = not (name == policy.name)

-- `fields.get("is_active") is False`
abbrev pub deactivates : Sent Bool → Bool
deactivates (sent (some false)) = true
deactivates _ = false

abbrev pub name_taken : String → Exception
name_taken name = http_exception 409 (text ("A policy named '" <> name <> "' already exists"))

abbrev pub cannot_be : String → String → Exception
cannot_be name what =
    http_exception 403 (text ("Baseline policy '" <> name <> "' cannot be " <> what))

-- The lookup of a new name; no row has the name None.
unfoldable pub reject_taken : Sent String → Policy → Exec Database Unit
unfolding renames
reject_taken (sent (some name)) policy =
    if renames (sent (some name)) policy
    then (do
      existing ← gets (λ db. find_policy name db.policies)
      raise_if (is_some existing) (name_taken name))
    else pure tt
reject_taken _ policy = pure tt

module _ (env : Environment) (email : String) (context : Fields) where
  unfoldable pub create_policy : PolicyCreate → Exec Database Policy
  unfolding policies_dependency check_conditions assert_authorized_to_grant create
  create_policy policy_data = do
    policies_dependency env email context "policies:create"
    check_conditions env policy_data.conditions
    existing ← gets (λ db. find_policy policy_data.name db.policies)
    raise_if (is_some existing) (name_taken policy_data.name)
    assert_authorized_to_grant env email policy_data.resource_type (some policy_data.actions)
    create policy_data email

  unfoldable pub list_policies : ℕ → ℕ → Exec Database (List Policy)
  unfolding policies_dependency get_all
  list_policies limit offset = do
    policies_dependency env email context "policies:read"
    get_all limit offset

  unfoldable pub get_policy : String → Exec Database Policy
  unfolding policies_dependency find_policy_or_404
  get_policy policy_name = do
    policies_dependency env email context "policies:read"
    find_policy_or_404 policy_name

  -- `if "conditions" in fields: validate_conditions(...)`
  unfoldable pub check_sent_conditions : Sent Fields → Exec Database Unit
  unfolding check_conditions
  check_sent_conditions unset = pure tt
  check_sent_conditions (sent conditions) = check_conditions env conditions

  -- `if "actions" in fields or "resource_type" in fields`, with the values that they would have
  unfoldable pub guard_grant : Policy → Sent (List String) → Option String → Exec Database Unit
  unfolding assert_authorized_to_grant
  guard_grant policy unset none = pure tt
  guard_grant policy unset (some resource_type) =
      assert_authorized_to_grant env email resource_type policy.actions
  guard_grant policy (sent actions) none =
      assert_authorized_to_grant env email policy.resource_type actions
  guard_grant policy (sent actions) (some resource_type) =
      assert_authorized_to_grant env email resource_type actions

  unfoldable pub update_policy : String → PolicyUpdate → Exec Database Policy
  unfolding policies_dependency find_policy_or_404 check_sent_conditions renames reject_taken
      guard_grant fields_of update
  update_policy policy_name update_data = do
    policies_dependency env email context "policies:update"
    policy ← find_policy_or_404 policy_name
    check_sent_conditions update_data.conditions
    raise_if (is_protected policy.name && renames update_data.name policy)
        (cannot_be policy.name "renamed")
    reject_taken update_data.name policy
    raise_if (is_protected policy.name && deactivates update_data.is_active)
        (cannot_be policy.name "deactivated")
    guard_grant policy update_data.actions update_data.resource_type
    update policy (fields_of update_data) email update_data.change_reason policy_updated

  unfoldable pub delete_policy : String → Option String → Exec Database String
  unfolding policies_dependency find_policy_or_404 delete
  delete_policy policy_name reason = do
    policies_dependency env email context "policies:delete"
    policy ← find_policy_or_404 policy_name
    raise_if (is_protected policy_name) (cannot_be policy_name "deleted")
    delete policy email reason
    pure ("Policy '" <> policy_name <> "' deleted successfully")
