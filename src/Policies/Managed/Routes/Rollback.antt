-- ===== src/Policies/Managed/Routes/Rollback.antt =====
-- Rolling a policy back.
use balance_sheet_analysis.Prelude.{ℕ, String, false, ◌&&◌, ◌≡◌, Option, none, some, All}
use balance_sheet_analysis.Prelude.Equality.{◌==◌, string_eq}
use balance_sheet_analysis.Json.{Fields}
use balance_sheet_analysis.Tables.{Database, Policy, PolicyDefinition, policy_rolled_back}
use balance_sheet_analysis.Policies.Conditions.Library.{Environment}
use balance_sheet_analysis.Policies.Engine.Total.{IsAccepted}
use balance_sheet_analysis.Policies.Names.{is_protected}
use balance_sheet_analysis.Policies.Grant.{assert_authorized_to_grant}
use balance_sheet_analysis.Policies.Grant.Laws.{assert_authorized_to_grant-OnlyLogged}
use balance_sheet_analysis.Policies.Store.Rows.Setting.{set_fields-keeps}
use balance_sheet_analysis.Policies.Store.History.{find_entry, get_by_id}
use balance_sheet_analysis.Policies.Admin.Crud.{cannot_be}
use balance_sheet_analysis.Policies.Admin.History.{
  changes_of, definition_for_entry, entry_of_policy, conditions_in, names_another, inactive,
  actions_in, resource_type_in, reason_for, rollback_policy,
}
use balance_sheet_analysis.Policies.Admin.Steps.{after_logged, after_or_raise, after_raise_if}
use balance_sheet_analysis.Policies.Managed.Kept.{Kept, IsKept, update-Kept}
use balance_sheet_analysis.Policies.Managed.Routes.{
  after_dependency, after_find_policy, after_check,
}
use balance_sheet_analysis.Policies.Managed.Routes.Allowed.{
  IsAllowed, one_change, not-false, implied, unchanged,
}

module _ (initial : Database) (env : Environment) (email : String) (context : Fields) where
  -- Where an entry says it is the policy's, its definition bears the policy's name.
  IsAllowed-target :
      (p : Policy) (target : Option PolicyDefinition)
      → IsAccepted (conditions_in target)
      → (is_protected p.name && names_another target p) ≡ false
      → (is_protected p.name && inactive target) ≡ false
      → All (IsAllowed p) (changes_of target)
  unfolding changes_of
  IsAllowed-target p none good name live = tt
  IsAllowed-target p (some d) good name live = (
    λ t.
        (string_eq.same_iff d.name p.name).0
          (not-false (d.name == p.name) (implied (is_protected p.name) _ name t)),
    (
      tt,
      (λ t. not-false d.is_active (implied (is_protected p.name) _ live t), (good, (tt, (tt, tt)))),
    ),
  )

  pub rollback_policy-Kept :
      (name : String) (history_id : ℕ) (reason : Option String) (db : Database)
      → Kept initial db
      → Kept initial (rollback_policy env email context name history_id reason db).1
  unfolding rollback_policy get_by_id
  rollback_policy-Kept name history_id reason db k =
      after_dependency initial env email context "policies:update" db _ k (λ s k.
        after_find_policy initial env email context name s _ k (λ p there named.
          after_or_raise (Kept initial)
            (entry_of_policy name (find_entry history_id s.policy_history)) _ s _ k
            (λ h at.
              let target = definition_for_entry h in
              after_check initial env email context (conditions_in target) s _ k (λ good.
                after_raise_if (Kept initial) _ (cannot_be p.name "renamed") s _ k (λ same_name.
                  after_raise_if (Kept initial) _ (cannot_be p.name "deactivated") s _ k (λ live.
                    after_logged (Kept initial) s
                      (assert_authorized_to_grant env email (resource_type_in target p)
                        (some (actions_in target)) s)
                      _
                      (assert_authorized_to_grant-OnlyLogged env email (resource_type_in target p) s
                        (some (actions_in target)))
                      (λ log. k)
                      (λ _ log e.
                        update-Kept initial p (changes_of target) email
                          (some (reason_for env email context reason history_id)) policy_rolled_back
                          (record s { audit_log = log }) k there
                          (λ new set.
                            set_fields-keeps (IsAllowed p) (IsKept p) (one_change p)
                              (changes_of target) p new
                              (IsAllowed-target p target good same_name live)
                              (unchanged s k.0 p there) set))))))))
