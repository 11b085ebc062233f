-- ===== src/Routes.antt =====
-- backend/app/api: the HTTP handlers as programs over the operations and the checks.
pub mod Guard
pub mod Company
pub mod Listing
pub mod Sheet
pub mod Chat
pub mod Tickers
pub mod Reachable
pub mod Tests
