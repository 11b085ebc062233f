-- ===== src/Access/Permissions.antt =====
-- backend/app/access/permissions.py: the action strings of the application's own resources.
use balance_sheet_analysis.Prelude.{String}

abbrev pub resource_company : String
resource_company = "company"

abbrev pub resource_balance_sheet : String
resource_balance_sheet = "balance_sheet"

abbrev pub resource_llm : String
resource_llm = "llm"

abbrev pub company_read : String
company_read = "company:read"

abbrev pub company_create : String
company_create = "company:create"

abbrev pub company_update : String
company_update = "company:update"

abbrev pub company_delete : String
company_delete = "company:delete"

abbrev pub balance_sheet_read : String
balance_sheet_read = "balance_sheet:read"

abbrev pub balance_sheet_import : String
balance_sheet_import = "balance_sheet:import"

abbrev pub balance_sheet_delete : String
balance_sheet_delete = "balance_sheet:delete"

abbrev pub llm_chat : String
llm_chat = "llm:chat"
