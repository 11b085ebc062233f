-- ===== src/Policies/Managed/Tests.antt =====
-- The theorems about the management of policies applied to a database with the baseline policies.
use balance_sheet_analysis.Prelude.{
  ◌↔◌, ◌⊎◌, false, Elem, String, true, not, ◌≡◌, refl, inl, inr, none, some, List, [], ◌∷◌, map,
}
use balance_sheet_analysis.Prelude.Equality.{string_eq, nat_eq}
use balance_sheet_analysis.Prelude.Equality.{◌==◌, nat_eq}
use balance_sheet_analysis.Json.{end}
use balance_sheet_analysis.Exec.{ok, raise_if}
use balance_sheet_analysis.Tables.{Policy, PolicyDefinition, PolicyHistory, policy_rolled_back}
use balance_sheet_analysis.Access.Tests.{no_library}
use balance_sheet_analysis.Policies.Store.Assignments.{links}
use balance_sheet_analysis.Policies.Conditions.Validator.{
  validate_conditions, validate_fields, validate_condition, validator, validate_self_only,
}
use balance_sheet_analysis.Policies.Names.{is_sensitive}
use balance_sheet_analysis.Policies.Conditions.{evaluate_conditions, failed_keys}
use balance_sheet_analysis.Policies.Conditions.Validator.Laws.{
  no_signals, evaluate_conditions-total,
}
use balance_sheet_analysis.Policies.Engine.{
  AuthorizationDecision, evaluate_detailed, tally_policies, add_policy, concerns, add_result,
  decision_of,
}
use balance_sheet_analysis.Policies.Repository.{
  active_policies, is_assigned, get_active_policies_for_user, create_entry,
}
use balance_sheet_analysis.Policies.Service.{
  require, authorize, authorize_with_decision, authorize_detailed,
}
use balance_sheet_analysis.Policies.Service.Laws.{decided, logged, denied}
use balance_sheet_analysis.Policies.Grant.{assert_each, assert_authorized_to_grant}
use balance_sheet_analysis.Policies.Grant.Laws.{holds, first_unheld, verdict, assert_each-verdict}
use balance_sheet_analysis.Policies.Store.Rows.{definition_snapshot}
use balance_sheet_analysis.Policies.Store.History.{add_entry}
use balance_sheet_analysis.Policies.Store.Mutations.{
  new_policy, create, insert_policy, get_by_name, update,
}
use balance_sheet_analysis.Policies.Store.Assignments as Store
use balance_sheet_analysis.Policies.Store.Assignments.{insert_missing}
use balance_sheet_analysis.Policies.Store.Replay.Laws.{Accounts}
use balance_sheet_analysis.Policies.Admin.{
  policies_dependency, check_conditions, find_user_or_404, find_policy_or_404, get_or_404,
  get_by_email,
}
use balance_sheet_analysis.Policies.Admin.Check.{BatchItem, authorize_batch}
use balance_sheet_analysis.Policies.Admin.Check.Laws.{single, entry_for, authorize_batch-map}
use balance_sheet_analysis.Policies.Admin.Crud.{create_policy}
use balance_sheet_analysis.Policies.Admin.History.{changes_of}
use balance_sheet_analysis.Policies.Admin.Assignment.{assign_policy_to_user, log_security_event}
use balance_sheet_analysis.Policies.Managed.Decides.{active_policies-accepted, require-answers}
use balance_sheet_analysis.Policies.Managed.Restore.{update-restores}
use balance_sheet_analysis.Policies.Managed.Escalation.{
  create_policy-holds, assign_policy_to_user-holds,
}
use balance_sheet_analysis.Policies.Managed.Reachable.{
  AdminRequest, create_request, assign_request, serve_admin, begin_admin, then_admin,
  AdminReachable-Managed, AdminReachable-Accounts,
}
use balance_sheet_analysis.Policies.Managed.Example.{
  reader, self_conditions, administration_policy, superuser_policy, seeded, seeded-Managed,
}
use balance_sheet_analysis.Policies.Managed.{Managed}

evaluate_conditions-total_example :
    (failed : List String) × (evaluate_conditions no_library "guest" none none self_conditions
      ≡ ok failed)
unfolding validate_conditions validate_fields validate_condition validator validate_self_only
evaluate_conditions-total_example =
    evaluate_conditions-total no_library no_library "guest" none none no_signals self_conditions
      refl

abbrev two_actions : List String
two_actions = "policies:create" ∷ "users:purge" ∷ []

assert_each-verdict_example :
    (assert_each no_library "root" "*" two_actions seeded).0
    ≡ verdict no_library "root" "*" (first_unheld no_library "root" "*" seeded two_actions)
assert_each-verdict_example =
    assert_each-verdict no_library "root" "*" seeded two_actions
      (active_policies-accepted seeded "root" seeded-Managed)

abbrev add_reader : AdminRequest
add_reader = create_request reader

abbrev hire_guest : AdminRequest
hire_guest = assign_request "guest" "reader"

AdminReachable-Managed_example : Managed (
    serve_admin no_library "root" end hire_guest
      (serve_admin no_library "root" end add_reader seeded))
AdminReachable-Managed_example = AdminReachable-Managed seeded-Managed (
    then_admin no_library "root" end hire_guest
      (then_admin no_library "root" end add_reader (begin_admin refl) refl) refl)

AdminReachable-Accounts_example :
    Accounts seeded (serve_admin no_library "root" end add_reader seeded)
AdminReachable-Accounts_example =
    AdminReachable-Accounts seeded-Managed
      (then_admin no_library "root" end add_reader (begin_admin refl) refl)

require-answers_example :
    (d : AuthorizationDecision) × (decided no_library "guest" "users:read_own" "users" none none
        seeded
      ≡ ok d)
    × (require no_library "guest" "users:read_own" "users" none none seeded
        ≡ raise_if
            (not d.allowed)
            denied
            (logged no_library "guest" "users:read_own" "users" none none d seeded))
require-answers_example =
    require-answers no_library "guest" "users:read_own" "users" none none seeded no_signals
      seeded-Managed

-- An earlier definition of the policy for administrators.
abbrev earlier : PolicyDefinition
earlier = record {
  name = "user_administration";
  description = some "Users";
  actions = "users:delete_any" ∷ [];
  resource_type = "users";
  conditions = self_conditions;
  is_active = true;
}

update-restores_example :
    (new : Policy) × (entry : PolicyHistory) × ((update administration_policy
        (changes_of (some earlier))
        "root"
        none
        policy_rolled_back
        seeded).0
      ≡ ok new)
    × (definition_snapshot new ≡ earlier)
    × (new.id ≡ 2)
    × (Elem superuser_policy
          (update administration_policy
            (changes_of (some earlier))
            "root"
            none
            policy_rolled_back
            seeded).1.policies
        ↔ ((superuser_policy ≡ new)
            ⊎ (Elem superuser_policy seeded.policies
                × ((superuser_policy.id == administration_policy.id) ≡ false))))
    × ((update administration_policy
          (changes_of (some earlier))
          "root"
          none
          policy_rolled_back
          seeded).1.policy_history
        ≡ entry ∷ [])
    × (entry.previous_definition ≡ some (definition_snapshot administration_policy))
    × (entry.new_definition ≡ some earlier)
update-restores_example =
    update-restores seeded administration_policy earlier "root" none superuser_policy seeded-Managed
      (inr (inl refl)) refl

create_policy-holds_example : holds no_library "root" "company" seeded "policies:read" ≡ true
unfolding create_policy policies_dependency check_conditions assert_authorized_to_grant assert_each
    create insert_policy add_entry require authorize authorize_with_decision authorize_detailed
    get_active_policies_for_user active_policies is_assigned evaluate_detailed tally_policies
    add_policy concerns add_result decision_of evaluate_conditions failed_keys create_entry
    is_sensitive validate_conditions
create_policy-holds_example =
    create_policy-holds no_library "root" end seeded seeded-Managed "policies:read" "company" refl
      reader (new_policy reader "root" 4) refl refl refl

assign_policy_to_user-holds_example :
    holds no_library "root" "users" seeded "policies:create" ≡ true
unfolding assign_policy_to_user policies_dependency assert_authorized_to_grant assert_each
    find_user_or_404 find_policy_or_404 get_or_404 get_by_email get_by_name
    Store.assign_policy_to_user insert_missing log_security_event require authorize
    authorize_with_decision authorize_detailed get_active_policies_for_user active_policies
    is_assigned evaluate_detailed tally_policies add_policy concerns add_result decision_of
    evaluate_conditions failed_keys create_entry is_sensitive
assign_policy_to_user-holds_example =
    assign_policy_to_user-holds no_library "root" end seeded seeded-Managed "policies:create"
      "users" refl "guest" "system_superuser" "Policy 'system_superuser' assigned to guest"
      superuser_policy refl refl refl

abbrev two_items : List BatchItem
two_items =
    record { action = "users:read_own"; resource_type = "users"; resource = none }
    ∷ record { action = "policies:read"; resource_type = "policies"; resource = none }
    ∷ []

authorize_batch-map_example : authorize_batch no_library "root" none two_items seeded ≡ (
  ok (map (single no_library "root" none seeded) two_items),
  record seeded { audit_log = map (entry_for no_library "root" none seeded) two_items },
)
authorize_batch-map_example = authorize_batch-map no_library "root" none two_items seeded
