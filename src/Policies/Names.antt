-- ===== src/Policies/Names.antt =====
-- backend/mystic_auth/authorization: permissions.py, policies/default_policies.py and
-- dependencies/policy_route_dependencies.py.
use balance_sheet_analysis.Prelude.{String, Bool, List, [], ◌∷◌}
use balance_sheet_analysis.Prelude.Equality.{contains, string_eq}

-- `_KNOWN_SENSITIVE_ACTIONS`: the values of the enum `Permission`.
abbrev pub sensitive_actions : List String
sensitive_actions =
    "users:read_own" ∷ "users:update_own" ∷ "users:list_all" ∷ "users:update_any"
    ∷ "users:delete_any" ∷ "users:assign_role" ∷ "users:reactivate" ∷ "users:assign_system_role"
    ∷ "users:purge" ∷ "policies:read" ∷ "policies:create" ∷ "policies:update" ∷ "policies:delete"
    ∷ "policies:assign" ∷ "policies:revoke" ∷ "security_audit:read" ∷ []

unfoldable pub is_sensitive : String → Bool
is_sensitive action = contains action sensitive_actions

abbrev pub self_service : String
self_service = "self_service"

abbrev pub user_administration : String
user_administration = "user_administration"

abbrev pub system_superuser : String
system_superuser = "system_superuser"

abbrev pub protected_policy_names : List String
protected_policy_names = self_service ∷ user_administration ∷ system_superuser ∷ []

unfoldable pub is_protected : String → Bool
is_protected name = contains name protected_policy_names
