-- ===== src/Policies/Admin/Assignment.antt =====
-- backend/mystic_auth/api/pbac_routes/policy_assignment_routes.py. Writing to the security audit log
-- is taken to succeed.
use balance_sheet_analysis.Prelude.{
  String, not, some, List, [], ◌∷◌, ◌++◌, ◌<>◌, leb, if◌then◌else◌,
}
use balance_sheet_analysis.Prelude.Equality.{◌==◌, string_eq}
use balance_sheet_analysis.Json.{Fields}
use balance_sheet_analysis.Exec.{Exec, pure, modify, raise_if, ◌>>=◌, ◌>>◌, http_exception, text}
use balance_sheet_analysis.Tables.{Database, Policy, SecurityEvent}
use balance_sheet_analysis.Policies.Conditions.Library.{Environment}
use balance_sheet_analysis.Policies.Names.{system_superuser}
use balance_sheet_analysis.Policies.Grant.{assert_authorized_to_grant}
use balance_sheet_analysis.Policies.Store.Assignments as Store
use balance_sheet_analysis.Policies.Admin.{
  policies_dependency, find_policy_or_404, find_user_or_404,
}

-- `log_security_event`; the metadata of these events has no key that is redacted.
unfoldable pub log_security_event : SecurityEvent → Exec Database Unit
log_security_event event = modify (λ db. record db { security_log = db.security_log ++ event ∷ [] })

pub record UserPoliciesRead : Type 0 where
  pub user_email : String
  pub policies : List Policy

-- The lockout protection: the last holder of system_superuser keeps it.
unfoldable pub keep_last_superuser : String → Policy → Exec Database Unit
unfolding Store.count_assignments
keep_last_superuser policy_name policy =
    if policy_name == system_superuser
    then (do
      holder_count ← Store.count_assignments policy.id
      raise_if (leb holder_count 1) (
          http_exception 409
            (text "Cannot remove the last remaining assignment of 'system_superuser'")))
    else pure tt

module _ (env : Environment) (email : String) (context : Fields) where
  unfoldable pub assign_policy_to_user : String → String → Exec Database String
  unfolding policies_dependency find_user_or_404 find_policy_or_404 assert_authorized_to_grant
      Store.assign_policy_to_user log_security_event
  assign_policy_to_user user_email policy_name = do
    policies_dependency env email context "policies:assign"
    user ← find_user_or_404 env user_email
    policy ← find_policy_or_404 policy_name
    assert_authorized_to_grant env email policy.resource_type policy.actions
    Store.assign_policy_to_user user.id policy.id (some email)
    log_security_event (record {
      event_type = "policy_assigned";
      user_email = user.email;
      changed_by = email;
      policy_name = policy.name;
    })
    pure ("Policy '" <> policy_name <> "' assigned to " <> user_email)

  unfoldable pub remove_policy_from_user : String → String → Exec Database String
  unfolding policies_dependency find_user_or_404 find_policy_or_404 keep_last_superuser
      Store.remove_policy_from_user log_security_event
  remove_policy_from_user user_email policy_name = do
    policies_dependency env email context "policies:revoke"
    user ← find_user_or_404 env user_email
    policy ← find_policy_or_404 policy_name
    keep_last_superuser policy_name policy
    removed ← Store.remove_policy_from_user user.id policy.id
    raise_if (not removed)
        (http_exception 404 (text (user_email <> " does not hold policy '" <> policy_name <> "'")))
    log_security_event (record {
      event_type = "policy_revoked";
      user_email = user.email;
      changed_by = email;
      policy_name = policy_name;
    })
    pure ("Policy '" <> policy_name <> "' removed from " <> user_email)

  -- A caller's own policies need no permission.
  unfoldable pub list_my_policies : Exec Database UserPoliciesRead
  unfolding Store.get_policies_for_user
  list_my_policies = do
    policies ← Store.get_policies_for_user email
    pure (record { user_email = email; policies = policies })

  unfoldable pub list_user_policies : String → Exec Database UserPoliciesRead
  unfolding policies_dependency find_user_or_404 Store.get_policies_for_user
  list_user_policies user_email = do
    policies_dependency env email context "policies:read"
    find_user_or_404 env user_email
    policies ← Store.get_policies_for_user user_email
    pure (record { user_email = user_email; policies = policies })
