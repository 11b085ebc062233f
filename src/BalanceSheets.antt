-- ===== src/BalanceSheets.antt =====
-- backend/app/balance_sheets: the balance sheets on file and their import from yfinance.
pub mod FieldMap
pub mod Columns
pub mod Declared
pub mod Sanitize
pub mod Rows
pub mod Crud
pub mod Preserves
pub mod Fetched
pub mod Stored
pub mod Figures
pub mod Tests
