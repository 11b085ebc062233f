-- ===== src/Policies/Managed.antt =====
-- What the routes of backend/mystic_auth/api/pbac_routes keep of the tables of policies,
-- assignments and history.
pub mod Create
pub mod Update
pub mod Delete
pub mod Assignments
pub mod Kept
pub mod Routes
pub mod Reachable
pub mod Decides
pub mod Restore
pub mod Escalation
pub mod Example
mod Tests
use balance_sheet_analysis.Prelude.{
  ℕ, String, true, ◌≡◌, ◌<◌, ◌≤◌, some, List, Elem, select, length,
}
use balance_sheet_analysis.Prelude.Equality.{◌==◌, nat_eq}
use balance_sheet_analysis.Tables.{Database, Policy, PolicyDefinition, PolicyHistory, UserPolicy}
use balance_sheet_analysis.Policies.Engine.Total.{IsAccepted}
use balance_sheet_analysis.Policies.Names.{is_protected, system_superuser}
use balance_sheet_analysis.Policies.Store.Assignments.{links}
use balance_sheet_analysis.Policies.Admin.History.{definition_for_entry}

-- The conditions of every policy were accepted by the validator. A name and an id are one policy's,
-- and ids come from the sequence. The three baseline policies are there and active. An assignment
-- is of a policy that is there, and there are not two of one policy to one user. system_superuser is
-- assigned to somebody. Every entry of the history has a definition, which bears the policy's name.
pub record IsManaged (policies : List Policy) (policy_seq : ℕ) (user_policies : List UserPolicy)
    (history : List PolicyHistory) : Type 0 where
  pub accepted : (p : Policy) → Elem p policies → IsAccepted p.conditions
  pub names : (p q : Policy) → Elem p policies → Elem q policies → p.name ≡ q.name → p ≡ q
  pub ids : (p q : Policy) → Elem p policies → Elem q policies → p.id ≡ q.id → p ≡ q
  pub below : (p : Policy) → Elem p policies → p.id < policy_seq
  pub baseline :
      (name : String)
      → is_protected name ≡ true
      → (p : Policy) × Elem p policies × (p.name ≡ name) × (p.is_active ≡ true)
  pub linked :
      (l : UserPolicy)
      → Elem l user_policies
      → (p : Policy) × Elem p policies × (p.id ≡ l.policy_id)
  pub single : (u k : ℕ) → length (select (links u k) user_policies) ≤ 1
  pub superuser :
      (p : Policy) × Elem p policies
      × (p.name ≡ system_superuser)
      × (1 ≤ length (select (λ (l : UserPolicy). l.policy_id == p.id) user_policies))
  pub named :
      (h : PolicyHistory)
      → Elem h history
      → (d : PolicyDefinition) × (definition_for_entry h ≡ some d) × (d.name ≡ h.policy_name)

abbrev pub Managed : Database → Type 0
Managed db = IsManaged db.policies db.policy_seq db.user_policies db.policy_history
