-- ===== src/Policies.antt =====
-- backend/mystic_auth/authorization: the policy engine that decides every access.
pub mod Conditions
pub mod Engine
pub mod Repository
pub mod Names
pub mod Grant
pub mod Service
pub mod Store
pub mod Cache
pub mod Context
pub mod Admin
pub mod Managed
