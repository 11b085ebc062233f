-- ===== src/Policies/Managed/Routes/Update.antt =====
-- Editing a policy.
use balance_sheet_analysis.Prelude.{
  String, Bool, true, false, ◌≡◌, refl, Option, none, some, List, is_some, if◌then◌else◌,
}
use mathlib.Core.Path.{subst}
use balance_sheet_analysis.Prelude.Equality.{string_eq}
use balance_sheet_analysis.Json.{Fields}
use balance_sheet_analysis.Exec.{Exec, pure, raise_if, continue, gets, ◌>>=◌}
use balance_sheet_analysis.Tables.{Database, Policy, policy_updated}
use balance_sheet_analysis.Companies.Schema.{Sent, unset, sent}
use balance_sheet_analysis.Policies.Conditions.Library.{Environment}
use balance_sheet_analysis.Policies.Engine.Total.{IsAccepted}
use balance_sheet_analysis.Policies.Service.Laws.{OnlyLogged}
use balance_sheet_analysis.Policies.Grant.Laws.{assert_authorized_to_grant-OnlyLogged}
use balance_sheet_analysis.Policies.Store.Rows.{find_policy}
use balance_sheet_analysis.Policies.Store.Rows.Setting.{set_fields-keeps}
use balance_sheet_analysis.Policies.Admin.Crud.{
  PolicyUpdate, fields_of, renames, cannot_be, reject_taken, name_taken, check_sent_conditions,
  guard_grant, update_policy,
}
use balance_sheet_analysis.Policies.Admin.Steps.{after_logged, after_raise_if}
use balance_sheet_analysis.Policies.Managed.Kept.{Kept, IsKept, update-Kept}
use balance_sheet_analysis.Policies.Managed.Routes.{
  after_dependency, after_find_policy, after_check,
}
use balance_sheet_analysis.Policies.Managed.Routes.Allowed.{
  IsAllowed, one_change, sent-inj, pieces, unchanged,
}

module _ (initial : Database) (env : Environment) (email : String) (context : Fields) where
  after_check_sent :
      {B : Type 0} (conditions : Sent Fields) (db : Database) (f : Unit {0} → Exec Database B)
      → Kept initial db
      → (((v : Option Fields) → conditions ≡ sent v → IsAccepted v) → Kept initial (f tt db).1)
      → Kept initial (continue (check_sent_conditions env email context conditions db) f).1
  unfolding check_sent_conditions
  after_check_sent unset db f k next = next (λ v e. absurd (cc))
  after_check_sent (sent v) db f k next =
      after_check initial env email context v db f k
        (λ good. next (λ w e. subst IsAccepted (sent-inj v w e) good))

  after_reject_taken :
      {B : Type 0} (name : Sent String) (policy : Policy) (db : Database)
      (f : Unit {0} → Exec Database B)
      → Kept initial db
      → Kept initial (f tt db).1
      → Kept initial (continue (reject_taken name policy db) f).1
  unfolding reject_taken
  after_reject_taken unset policy db f k next = next
  after_reject_taken (sent none) policy db f k next = next
  after_reject_taken (sent (some n)) policy db f k next =
      by_renames (renames (sent (some n)) policy)
    where
      by_renames :
          (b : Bool)
          → Kept initial
              (continue
                ((if b
                    then (do
                      existing ← gets (λ (db : Database). find_policy n db.policies)
                      raise_if (is_some existing) (name_taken n))
                    else pure tt)
                  db)
                f).1
      by_renames true =
          after_raise_if (Kept initial) (is_some (find_policy n db.policies)) (name_taken n) db f k
            (λ _. next)
      by_renames false = next

  guard-OnlyLogged :
      (policy : Policy) (actions : Sent (List String)) (resource_type : Option String)
      (db : Database)
      → OnlyLogged db (guard_grant env email context policy actions resource_type db).1
  unfolding guard_grant
  guard-OnlyLogged policy unset none db = (db.audit_log, refl)
  guard-OnlyLogged policy unset (some r) db =
      assert_authorized_to_grant-OnlyLogged env email r db policy.actions
  guard-OnlyLogged policy (sent actions) none db =
      assert_authorized_to_grant-OnlyLogged env email policy.resource_type db actions
  guard-OnlyLogged policy (sent actions) (some r) db =
      assert_authorized_to_grant-OnlyLogged env email r db actions

  pub update_policy-Kept :
      (name : String) (u : PolicyUpdate) (db : Database)
      → Kept initial db
      → Kept initial (update_policy env email context name u db).1
  unfolding update_policy
  update_policy-Kept name u db k =
      after_dependency initial env email context "policies:update" db _ k (λ s k.
        after_find_policy initial env email context name s _ k (λ p there named.
          after_check_sent u.conditions s _ k (λ good.
            after_raise_if (Kept initial) _ (cannot_be p.name "renamed") s _ k (λ same_name.
              after_reject_taken u.name p s _ k (
                after_raise_if (Kept initial) _ (cannot_be p.name "deactivated") s _ k (λ live.
                  after_logged (Kept initial) s
                    (guard_grant env email context p u.actions u.resource_type s) _
                    (guard-OnlyLogged p u.actions u.resource_type s) (λ log. k)
                    (λ _ log e.
                      update-Kept initial p (fields_of u) email u.change_reason policy_updated
                        (record s { audit_log = log }) k there
                        (λ new set.
                          set_fields-keeps (IsAllowed p) (IsKept p) (one_change p) (fields_of u) p
                            new (pieces p u good same_name live) (unchanged s k.0 p there)
                            set))))))))
