-- ===== src/BalanceSheets/Declared.antt =====
-- The columns of a balance sheet in the response schema and in the migration that makes the table.
use balance_sheet_analysis.Prelude.{String, List, [], ◌∷◌}

-- The attributes of `BalanceSheetResponse`.
abbrev pub response_fields : List String
response_fields =
    "treasury_shares_number" ∷ "ordinary_shares_number" ∷ "share_issued" ∷ "net_debt" ∷ "total_debt"
    ∷ "tangible_book_value" ∷ "invested_capital" ∷ "working_capital" ∷ "net_tangible_assets"
    ∷ "capital_lease_obligations" ∷ "common_stock_equity" ∷ "total_capitalization"
    ∷ "total_equity_gross_minority_interest" ∷ "stockholders_equity"
    ∷ "gains_losses_not_affecting_retained_earnings" ∷ "other_equity_adjustments"
    ∷ "retained_earnings" ∷ "capital_stock" ∷ "common_stock"
    ∷ "total_liabilities_net_minority_interest"
    ∷ "total_non_current_liabilities_net_minority_interest" ∷ "other_non_current_liabilities"
    ∷ "trade_and_other_payables_non_current" ∷ "long_term_debt_and_capital_lease_obligation"
    ∷ "long_term_capital_lease_obligation" ∷ "long_term_debt" ∷ "current_liabilities"
    ∷ "other_current_liabilities" ∷ "current_deferred_liabilities" ∷ "current_deferred_revenue"
    ∷ "current_debt_and_capital_lease_obligation" ∷ "current_capital_lease_obligation"
    ∷ "current_debt" ∷ "other_current_borrowings" ∷ "commercial_paper"
    ∷ "payables_and_accrued_expenses" ∷ "payables" ∷ "total_tax_payable" ∷ "income_tax_payable"
    ∷ "accounts_payable" ∷ "total_assets" ∷ "total_non_current_assets" ∷ "other_non_current_assets"
    ∷ "non_current_deferred_assets" ∷ "non_current_deferred_taxes_assets"
    ∷ "investments_and_advances" ∷ "other_investments" ∷ "investment_in_financial_assets"
    ∷ "available_for_sale_securities" ∷ "net_ppe" ∷ "accumulated_depreciation" ∷ "gross_ppe"
    ∷ "leases" ∷ "other_properties" ∷ "machinery_furniture_equipment" ∷ "land_and_improvements"
    ∷ "properties" ∷ "current_assets" ∷ "other_current_assets" ∷ "inventory" ∷ "receivables"
    ∷ "other_receivables" ∷ "accounts_receivable"
    ∷ "cash_cash_equivalents_and_short_term_investments" ∷ "other_short_term_investments"
    ∷ "cash_and_cash_equivalents" ∷ "cash_equivalents" ∷ "cash_financial" ∷ []

-- _YFINANCE_COLUMNS of the migration
abbrev pub migration_columns : List String
migration_columns =
    "treasury_shares_number" ∷ "ordinary_shares_number" ∷ "share_issued" ∷ "net_debt" ∷ "total_debt"
    ∷ "tangible_book_value" ∷ "invested_capital" ∷ "working_capital" ∷ "net_tangible_assets"
    ∷ "capital_lease_obligations" ∷ "common_stock_equity" ∷ "total_capitalization"
    ∷ "total_equity_gross_minority_interest" ∷ "stockholders_equity"
    ∷ "gains_losses_not_affecting_retained_earnings" ∷ "other_equity_adjustments"
    ∷ "retained_earnings" ∷ "capital_stock" ∷ "common_stock"
    ∷ "total_liabilities_net_minority_interest"
    ∷ "total_non_current_liabilities_net_minority_interest" ∷ "other_non_current_liabilities"
    ∷ "trade_and_other_payables_non_current" ∷ "long_term_debt_and_capital_lease_obligation"
    ∷ "long_term_capital_lease_obligation" ∷ "long_term_debt" ∷ "current_liabilities"
    ∷ "other_current_liabilities" ∷ "current_deferred_liabilities" ∷ "current_deferred_revenue"
    ∷ "current_debt_and_capital_lease_obligation" ∷ "current_capital_lease_obligation"
    ∷ "current_debt" ∷ "other_current_borrowings" ∷ "commercial_paper"
    ∷ "payables_and_accrued_expenses" ∷ "payables" ∷ "total_tax_payable" ∷ "income_tax_payable"
    ∷ "accounts_payable" ∷ "total_assets" ∷ "total_non_current_assets" ∷ "other_non_current_assets"
    ∷ "non_current_deferred_assets" ∷ "non_current_deferred_taxes_assets"
    ∷ "investments_and_advances" ∷ "other_investments" ∷ "investment_in_financial_assets"
    ∷ "available_for_sale_securities" ∷ "net_ppe" ∷ "accumulated_depreciation" ∷ "gross_ppe"
    ∷ "leases" ∷ "other_properties" ∷ "machinery_furniture_equipment" ∷ "land_and_improvements"
    ∷ "properties" ∷ "current_assets" ∷ "other_current_assets" ∷ "inventory" ∷ "receivables"
    ∷ "other_receivables" ∷ "accounts_receivable"
    ∷ "cash_cash_equivalents_and_short_term_investments" ∷ "other_short_term_investments"
    ∷ "cash_and_cash_equivalents" ∷ "cash_equivalents" ∷ "cash_financial" ∷ []
