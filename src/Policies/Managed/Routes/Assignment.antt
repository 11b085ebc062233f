-- ===== src/Policies/Managed/Routes/Assignment.antt =====
-- Assigning a policy and taking it away.
use balance_sheet_analysis.Prelude.{
  ℕ, String, Bool, true, false, not, ◌≡◌, ◌≤◌, refl, sym, ◌∙◌, Option, none, some, Elem, length,
  select, leb, arith, if◌then◌else◌,
}
use balance_sheet_analysis.Prelude.Equality.{◌==◌, string_eq, nat_eq}
use balance_sheet_analysis.Json.{Fields}
use balance_sheet_analysis.Exec.{Exec, pure, raise_if, continue, ◌>>=◌, http_exception, text}
use balance_sheet_analysis.Tables.{Database, Policy, UserPolicy}
use balance_sheet_analysis.Policies.Conditions.Library.{Environment}
use balance_sheet_analysis.Policies.Names.{system_superuser}
use balance_sheet_analysis.Policies.Grant.{assert_authorized_to_grant}
use balance_sheet_analysis.Policies.Grant.Laws.{assert_authorized_to_grant-OnlyLogged}
use balance_sheet_analysis.Policies.Store.Assignments.{
  links, find_assignment, count_assignments, insert_missing, delete_found,
}
use balance_sheet_analysis.Policies.Store.Assignments as Store
use balance_sheet_analysis.Policies.Admin.{find_user, find_user_or_404, get_or_404, get_by_email}
use balance_sheet_analysis.Policies.Admin.Assignment.{
  assign_policy_to_user, remove_policy_from_user, keep_last_superuser, log_security_event,
}
use balance_sheet_analysis.Policies.Admin.Steps.{after_logged, after_or_raise, after_raise_if}
use balance_sheet_analysis.Policies.Managed.Assignments.{assigned-IsManaged, unassigned-IsManaged}
use balance_sheet_analysis.Policies.Managed.Kept.{Kept}
use balance_sheet_analysis.Policies.Managed.Routes.{after_dependency, after_find_policy}

module _ (initial : Database) (env : Environment) (email : String) (context : Fields) where
  after_insert :
      {B : Type 0} (user_id : ℕ) (p : Policy) (assigned_by : Option String)
      (found : Option UserPolicy) (db : Database) (f : UserPolicy → Exec Database B)
      → Kept initial db
      → Elem p db.policies
      → find_assignment user_id p.id db.user_policies ≡ found
      → ((row : UserPolicy) (s : Database) → Kept initial s → Kept initial (f row s).1)
      → Kept initial (continue (insert_missing user_id p.id assigned_by found db) f).1
  unfolding insert_missing
  after_insert user_id p assigned_by (some row) db f k there e next = next row db k
  after_insert user_id p assigned_by none db f (m, a) there e next =
      let assignment : UserPolicy = record {
        user_id = user_id;
        policy_id = p.id;
        assigned_by = assigned_by;
      } in
      next assignment _ (
        assigned-IsManaged db.policies db.policy_seq db.user_policies db.policy_history m p there
            assignment refl e,
        a,
      )

  pub assign_policy_to_user-Kept :
      (user_email policy_name : String) (db : Database)
      → Kept initial db
      → Kept initial (assign_policy_to_user env email context user_email policy_name db).1
  unfolding assign_policy_to_user find_user_or_404 get_or_404 get_by_email
      Store.assign_policy_to_user log_security_event
  assign_policy_to_user-Kept user_email policy_name db k =
      after_dependency initial env email context "policies:assign" db _ k (λ s k.
        after_or_raise (Kept initial) (find_user (env.lower (env.strip user_email)) s.users) _ s _ k
          (λ user _. after_find_policy initial env email context policy_name s _ k (λ p there named.
            after_logged (Kept initial) s
              (assert_authorized_to_grant env email p.resource_type p.actions s) _
              (assert_authorized_to_grant-OnlyLogged env email p.resource_type s p.actions)
              (λ log. k)
              (λ _ log _.
                after_insert user.id p (some email) (find_assignment user.id p.id s.user_policies)
                  (record s { audit_log = log }) _ k there refl (λ row t k. k)))))

  others_hold :
      (name : String) (p : Policy) (db : Database)
      → p.name ≡ name
      → (name == system_superuser) ≡ false
      → p.name ≡ system_superuser
      → 2 ≤ length (select (λ (l : UserPolicy). l.policy_id == p.id) db.user_policies)
  others_hold name p db named f e =
      absurd (cc (f, (string_eq.same_iff name system_superuser).1 (sym named ∙ e)))

  after_keep_last :
      {B : Type 0} (name : String) (p : Policy) (db : Database) (f : Unit {0} → Exec Database B)
      → Kept initial db
      → p.name ≡ name
      → ((p.name ≡ system_superuser
            → 2 ≤ length (select (λ (l : UserPolicy). l.policy_id == p.id) db.user_policies))
          → Kept initial (f tt db).1)
      → Kept initial (continue (keep_last_superuser name p db) f).1
  unfolding keep_last_superuser count_assignments
  after_keep_last name p db f k named next = by_name (name == system_superuser) refl
    where
      count : ℕ
      count = length (select (λ (l : UserPolicy). l.policy_id == p.id) db.user_policies)

      by_name :
          (b : Bool)
          → (name == system_superuser) ≡ b
          → Kept initial
              (continue
                ((if b
                    then (do
                      holder_count ← count_assignments p.id
                      raise_if (leb holder_count 1) (
                          http_exception 409 (
                            text
                              "Cannot remove the last remaining assignment of 'system_superuser'")))
                    else pure tt)
                  db)
                f).1
      by_name true e =
          after_raise_if (Kept initial) (leb count 1) _ db f k (λ h. next (λ _. ground arith))
      by_name false e = next (others_hold name p db named e)

  after_delete :
      {B : Type 0} (user_id : ℕ) (p : Policy) (found : Option UserPolicy) (db : Database)
      (f : Bool → Exec Database B)
      → Kept initial db
      → Elem p db.policies
      → (p.name ≡ system_superuser
          → 2 ≤ length (select (λ (l : UserPolicy). l.policy_id == p.id) db.user_policies))
      → ((removed : Bool) (s : Database) → Kept initial s → Kept initial (f removed s).1)
      → Kept initial (continue (delete_found user_id p.id found db) f).1
  unfolding delete_found
  after_delete user_id p none db f k there others next = next false db k
  after_delete user_id p (some row) db f (m, a) there others next = next true _ (
    unassigned-IsManaged db.policies db.policy_seq db.user_policies db.policy_history m p there
        user_id others,
    a,
  )

  pub remove_policy_from_user-Kept :
      (user_email policy_name : String) (db : Database)
      → Kept initial db
      → Kept initial (remove_policy_from_user env email context user_email policy_name db).1
  unfolding remove_policy_from_user find_user_or_404 get_or_404 get_by_email
      Store.remove_policy_from_user log_security_event
  remove_policy_from_user-Kept user_email policy_name db k =
      after_dependency initial env email context "policies:revoke" db _ k (λ s k.
        after_or_raise (Kept initial) (find_user (env.lower (env.strip user_email)) s.users) _ s _ k
          (λ user _. after_find_policy initial env email context policy_name s _ k (λ p there named.
            after_keep_last policy_name p s _ k named (λ others.
              after_delete user.id p (find_assignment user.id p.id s.user_policies) s _ k there
                others
                (λ removed t k. after_raise_if (Kept initial) (not removed) _ t _ k (λ _. k))))))
