-- ===== src/Companies/Schema.antt =====
-- backend/app/companies/company_schema.py: the request bodies, after validation.
use balance_sheet_analysis.Prelude.{ℕ, String, Option}

pub record CompanyCreate : Type 0 where
  pub name : String
  pub ticker : String
  pub parent_company_id : Option ℕ

-- A field of a PATCH body: left out, or sent, perhaps as null.
pub data Sent (A : Type 0) : Type 0 where
  unset : Sent A
  sent : Option A → Sent A

pub record CompanyUpdate : Type 0 where
  pub name : Sent String
  pub ticker : Sent String
  pub parent_company_id : Sent ℕ
