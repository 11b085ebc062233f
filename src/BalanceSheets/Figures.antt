-- ===== src/BalanceSheets/Figures.antt =====
-- backend/app/balance_sheets/balance_sheet_crud.py: the figures that an import stores.
use balance_sheet_analysis.Prelude.Equality.{string_eq}
