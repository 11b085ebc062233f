-- ===== src/Tables.antt =====
-- The tables that the application reads and writes, a record for each row, and the database as
-- the state of every handler: the application's own (companies, balance_sheets) and those of the
-- access-control package (users, policies, user_policies, the authorization audit log).
mod Number
pub use Number.*
use balance_sheet_analysis.Prelude.{ℕ, String, Bool, Option, List}
use balance_sheet_analysis.Json.{Json, Fields}

-- A row of `companies`. Times are counted from some origin.
pub record Company : Type 0 where
  pub id : ℕ
  pub name : String
  pub ticker : String
  pub parent_company_id : Option ℕ
  pub group_root_id : ℕ
  pub created_at : ℕ
  pub updated_at : ℕ

-- A row of `balance_sheets`: the nullable columns are a dict from the column's name, with no
-- entry for a column that is NULL.
pub record BalanceSheet : Type 0 where
  pub id : ℕ
  pub company_id : ℕ
  pub year : ℕ
  pub created_at : ℕ
  pub columns : List (String × Float)

-- A row of `policies`, without its times.
pub record Policy : Type 0 where
  pub id : ℕ
  pub name : String
  pub description : Option String
  pub actions : Option (List String)
  pub resource_type : String
  pub conditions : Option Fields
  pub is_active : Bool
  pub created_by : Option String

pub record User : Type 0 where
  pub id : ℕ
  pub email : String

-- A policy that is assigned to a user, without the assignment's id and time.
pub record UserPolicy : Type 0 where
  pub user_id : ℕ
  pub policy_id : ℕ
  pub assigned_by : Option String

-- What determines what a policy grants, as the history keeps it.
pub record PolicyDefinition : Type 0 where
  pub name : String
  pub description : Option String
  pub actions : List String
  pub resource_type : String
  pub conditions : Option Fields
  pub is_active : Bool

pub data ChangeType : Type 0 where
  policy_created policy_updated policy_deleted policy_rolled_back : ChangeType

-- A row of `policy_history`.
pub record PolicyHistory : Type 0 where
  pub id : ℕ
  pub policy_id : ℕ
  pub policy_name : String
  pub change_type : ChangeType
  pub previous_definition : Option PolicyDefinition
  pub new_definition : Option PolicyDefinition
  pub changed_fields : Option (List String)
  pub changed_by : Option String
  pub change_reason : Option String
  pub created_at : ℕ

-- A row that the policy routes write to the security audit log: its event, the account that it is
-- about, who did it, and the policy's name.
pub record SecurityEvent : Type 0 where
  pub event_type : String
  pub user_email : String
  pub changed_by : String
  pub policy_name : String

-- A row of the authorization audit log.
pub record AuditEntry : Type 0 where
  pub user_email : String
  pub action : String
  pub resource_type : String
  pub resource_identifier : Option Json
  pub allowed : Bool
  pub candidate_policy_names : List String
  pub granting_policy_names : List String
  pub failed_conditions : Option (List (String × List String))
  pub context : Option Fields

-- The fields `*_seq` are the next values of the primary keys' sequences, which a rollback does not
-- take back; `now` is the server's clock.
pub record Database : Type 0 where
  pub companies : List Company
  pub company_seq : ℕ
  pub balance_sheets : List BalanceSheet
  pub balance_sheet_seq : ℕ
  pub users : List User
  pub policies : List Policy
  pub policy_seq : ℕ
  pub user_policies : List UserPolicy
  pub policy_history : List PolicyHistory
  pub history_seq : ℕ
  pub security_log : List SecurityEvent
  pub audit_log : List AuditEntry
  pub now : ℕ
