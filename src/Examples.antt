-- ===== src/Examples.antt =====
-- Small databases that the tests start from.
use balance_sheet_analysis.Prelude.{none, some, []}
use balance_sheet_analysis.Tables.{Database}
use balance_sheet_analysis.Validity.{IsValid}
use balance_sheet_analysis.Companies.Schema.{CompanyCreate}
use balance_sheet_analysis.Companies.Crud.{create_company}
use balance_sheet_analysis.Companies.Preserves.Create.{create_company-IsValid}

abbrev pub empty_database : Database
empty_database = record {
  companies = [];
  company_seq = 1;
  balance_sheets = [];
  balance_sheet_seq = 1;
  users = [];
  policies = [];
  policy_seq = 1;
  user_policies = [];
  policy_history = [];
  history_seq = 1;
  security_log = [];
  audit_log = [];
  now = 100;
}

pub empty-IsValid : IsValid empty_database
empty-IsValid = record {
  hierarchy = record { below = λ k c f. cc; roots = λ k c f. absurd (cc) };
  ids = tt;
  tickers = λ i j c d f g e. absurd (cc);
  years = tt;
  owners = λ b e. absurd e;
  sheet_ids = λ b e. absurd e;
}

abbrev pub holding : CompanyCreate
holding = record { name = "Holding"; ticker = "HLD"; parent_company_id = none }

abbrev pub subsidiary : CompanyCreate
subsidiary = record { name = "Subsidiary"; ticker = "SUB"; parent_company_id = some 1 }

abbrev pub other : CompanyCreate
other = record { name = "Other"; ticker = "OTH"; parent_company_id = none }

-- A company with a subsidiary, and a third of its own.
abbrev pub two_groups : Database
two_groups =
    (create_company other (create_company subsidiary (create_company holding empty_database).1).1).1

pub two_groups-IsValid : IsValid two_groups
two_groups-IsValid =
    create_company-IsValid _
      (create_company-IsValid _ (create_company-IsValid _ empty-IsValid holding) subsidiary) other
