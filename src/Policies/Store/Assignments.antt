-- ===== src/Policies/Store/Assignments.antt =====
-- policy_repository.py: the assignments of policies to users.
pub mod Laws
use balance_sheet_analysis.Prelude.{
  ℕ, String, Bool, true, false, not, ◌&&◌, Option, none, some, List, [], ◌∷◌, ◌++◌, length, select,
  if◌then◌else◌,
}
use balance_sheet_analysis.Prelude.Equality.{◌==◌, nat_eq}
use balance_sheet_analysis.Exec.{ok, Exec, pure, gets, ◌>>=◌}
use balance_sheet_analysis.Tables.{Database, Policy, UserPolicy}
use balance_sheet_analysis.Policies.Repository.{is_assigned}

unfoldable pub get_policies_for_user : String → Exec Database (List Policy)
unfolding is_assigned
get_policies_for_user user_email =
    gets (λ db. select (λ p. is_assigned db user_email p) db.policies)

unfoldable pub count_assignments : ℕ → Exec Database ℕ
count_assignments policy_id =
    gets (λ db. length (select (λ l. l.policy_id == policy_id) db.user_policies))

abbrev pub links : ℕ → ℕ → UserPolicy → Bool
links user_id policy_id l = l.user_id == user_id && l.policy_id == policy_id

-- `select(UserPolicy).where(user_id == ..., policy_id == ...)`
abbrev pub find_assignment : ℕ → ℕ → List UserPolicy → Option UserPolicy
find_assignment user_id policy_id [] = none
find_assignment user_id policy_id (l ∷ ls) =
    if links user_id policy_id l then some l else find_assignment user_id policy_id ls

-- `if existing_row: return existing_row`, else the new row
unfoldable pub insert_missing : ℕ → ℕ → Option String → Option UserPolicy → Exec Database UserPolicy
insert_missing user_id policy_id assigned_by (some row) db = (ok row, db)
insert_missing user_id policy_id assigned_by none db =
    let assignment : UserPolicy = record {
      user_id = user_id;
      policy_id = policy_id;
      assigned_by = assigned_by;
    } in
    (ok assignment, record db { user_policies = db.user_policies ++ assignment ∷ [] })

-- A user who holds the policy keeps the assignment that there is.
unfoldable pub assign_policy_to_user : ℕ → ℕ → Option String → Exec Database UserPolicy
unfolding insert_missing
assign_policy_to_user user_id policy_id assigned_by = do
  existing ← gets (λ db. find_assignment user_id policy_id db.user_policies)
  insert_missing user_id policy_id assigned_by existing

-- `if not assignment: return False`, else the row goes
unfoldable pub delete_found : ℕ → ℕ → Option UserPolicy → Exec Database Bool
delete_found user_id policy_id none db = (ok false, db)
delete_found user_id policy_id (some row) db = (
  ok true,
  record db { user_policies = select (λ l. not (links user_id policy_id l)) db.user_policies },
)

-- True where an assignment was there.
unfoldable pub remove_policy_from_user : ℕ → ℕ → Exec Database Bool
unfolding delete_found
remove_policy_from_user user_id policy_id = do
  assignment ← gets (λ db. find_assignment user_id policy_id db.user_policies)
  delete_found user_id policy_id assignment
