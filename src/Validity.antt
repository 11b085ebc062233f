-- ===== src/Validity.antt =====
-- What every state of the application's tables satisfies.
use balance_sheet_analysis.Prelude.{ℕ, ◌<◌, ◌≡◌, some, Elem, List}
use balance_sheet_analysis.Exec.{Result}
use balance_sheet_analysis.Tables.{
  Database, Company, BalanceSheet, User, Policy, UserPolicy, AuditEntry,
}
use balance_sheet_analysis.Companies.Rows.{find_company}
use balance_sheet_analysis.Companies.Rows.Laws.{NodupIds}
use balance_sheet_analysis.Companies.Invariant.{IsHierarchy}
use balance_sheet_analysis.BalanceSheets.Rows.{NodupYears}

-- A ticker is one company's, a company has at most one balance sheet for a year, every balance
-- sheet belongs to a company that is there, ids come from the sequences, and `group_root_id` is
-- the id of the top-most ancestor.
pub record IsValid (db : Database) : Type 0 where
  pub hierarchy : IsHierarchy db.company_seq db.companies
  pub ids : NodupIds db.companies
  pub tickers :
      (i j : ℕ) (c d : Company)
      → find_company i db.companies ≡ some c
      → find_company j db.companies ≡ some d
      → c.ticker ≡ d.ticker
      → i ≡ j
  pub years : NodupYears db.balance_sheets
  pub owners :
      (b : BalanceSheet)
      → Elem b db.balance_sheets
      → (c : Company) × (find_company b.company_id db.companies ≡ some c)
  pub sheet_ids : (b : BalanceSheet) → Elem b db.balance_sheets → b.id < db.balance_sheet_seq

-- The state that a call leaves is valid.
abbrev pub IsValidAfter : {A : Type 0} → Result A × Database → Type 0
IsValidAfter r = IsValid r.1

-- It is not about the users, the policies, the audit log and the clock.
pub others-IsValid :
    (db : Database) (users : List User) (policies : List Policy) (user_policies : List UserPolicy)
    (audit_log : List AuditEntry) (now : ℕ)
    → IsValid db
    → IsValid (record db {
      users = users;
      policies = policies;
      user_policies = user_policies;
      audit_log = audit_log;
      now = now;
    })
others-IsValid db users policies user_policies audit_log now v = record {
  hierarchy = v.hierarchy;
  ids = v.ids;
  tickers = v.tickers;
  years = v.years;
  owners = v.owners;
  sheet_ids = v.sheet_ids;
}
