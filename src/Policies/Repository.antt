-- ===== src/Policies/Repository.antt =====
-- backend/mystic_auth/authorization/repositories: the queries on policies and assignments, and
-- the audit log's insert. The cache in front of `get_active_policies_for_user` is in Cache.
use balance_sheet_analysis.Prelude.{String, Bool, ◌&&◌, List, [], ◌∷◌, ◌++◌, any, select}
use balance_sheet_analysis.Prelude.Equality.{◌==◌, nat_eq, string_eq}
use balance_sheet_analysis.Exec.{Exec, gets, modify}
use balance_sheet_analysis.Tables.{Database, Policy, AuditEntry}

-- The two joins: some assignment links the policy to a user with this email.
unfoldable pub is_assigned : Database → String → Policy → Bool
is_assigned db email policy =
    any (λ l. l.policy_id == policy.id && any (λ u. u.id == l.user_id && u.email == email) db.users)
      db.user_policies

unfoldable pub active_policies : Database → String → List Policy
unfolding is_assigned
active_policies db email = select (λ p. is_assigned db email p && p.is_active) db.policies

unfoldable pub get_active_policies_for_user : String → Exec Database (List Policy)
unfolding active_policies
get_active_policies_for_user email = gets (λ db. active_policies db email)

-- audit_log_repository.create_entry
unfoldable pub create_entry : AuditEntry → Exec Database Unit
create_entry entry = modify (λ db. record db { audit_log = db.audit_log ++ entry ∷ [] })
