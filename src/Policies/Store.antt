-- ===== src/Policies/Store.antt =====
-- backend/mystic_auth/authorization/repositories/policy_repository.py and
-- policy_history_repository.py: the tables of policies, assignments and history. Each function runs
-- in one transaction, which ends with its commit; the cache that the mutations flush is not in them.
pub mod Rows
pub mod History
pub mod Mutations
pub mod Assignments
pub mod Replay
