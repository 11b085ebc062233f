-- ===== src/Access.antt =====
-- backend/app/access: the action vocabulary, and which companies a user's policies reach.
pub mod Permissions
pub mod Scope
pub mod Agreement
pub mod Plain
pub mod Tests
