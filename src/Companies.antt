-- ===== src/Companies.antt =====
-- backend/app/companies: companies and their hierarchy.
pub mod Schema
pub mod Rows
pub mod Crud
pub mod Tickers
pub mod Listing
pub mod Hierarchy
pub mod Invariant
pub mod Preserves
pub mod Tests
