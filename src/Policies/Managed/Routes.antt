-- ===== src/Policies/Managed/Routes.antt =====
-- The handlers of backend/mystic_auth/api/pbac_routes keep the invariant and the account that the
-- history gives, on every path through them.
pub mod Allowed
pub mod Update
pub mod Rollback
pub mod Assignment
use balance_sheet_analysis.Prelude.{
  ℕ, String, Bool, true, false, not, ◌≡◌, refl, sym, ap, ◌∙◌, Option, none, some, List, [], ◌∷◌,
  is_nil, is_some, Elem,
}
use mathlib.Core.Path.{subst}
use balance_sheet_analysis.Prelude.Equality.{◌==◌, string_eq}
use balance_sheet_analysis.Json.{Fields}
use balance_sheet_analysis.Exec.{
  Result, Exec, pure, raise_if, or_raise, continue, http_exception, text,
}
use balance_sheet_analysis.Tables.{Database, Policy}
use balance_sheet_analysis.Policies.Conditions.Library.{Environment}
use balance_sheet_analysis.Policies.Conditions.Validator.{validate_conditions, conditions_value}
use balance_sheet_analysis.Policies.Engine.Total.{IsAccepted}
use balance_sheet_analysis.Policies.Names.{is_protected}
use balance_sheet_analysis.Policies.Service.{require}
use balance_sheet_analysis.Policies.Service.Laws.{OnlyLogged, require-OnlyLogged}
use balance_sheet_analysis.Policies.Grant.{assert_authorized_to_grant}
use balance_sheet_analysis.Policies.Grant.Laws.{assert_authorized_to_grant-OnlyLogged}
use balance_sheet_analysis.Policies.Store.Rows.{find_policy}
use balance_sheet_analysis.Policies.Store.Rows.Laws.{find_policy-Elem}
use balance_sheet_analysis.Policies.Store.Mutations.{PolicyCreate, create, delete, get_by_name}
use balance_sheet_analysis.Policies.Admin.{
  policies_dependency, check_conditions, find_policy_or_404, get_or_404,
}
use balance_sheet_analysis.Policies.Admin.Crud.{create_policy, delete_policy, name_taken, cannot_be}
use balance_sheet_analysis.Policies.Admin.Steps.{after_logged, after_or_raise, after_raise_if}
use balance_sheet_analysis.Policies.Managed.{Managed}
use balance_sheet_analysis.Policies.Managed.Kept.{Kept, create-Kept, delete-Kept}

pub no_errors : {A : Type 0} (errors : List A) → not (is_nil errors) ≡ false → errors ≡ []
no_errors [] h = refl
no_errors (e ∷ errors) h = absurd (cc)

module _ (initial : Database) (env : Environment) (email : String) (context : Fields) where
  -- The dependency with which a handler starts.
  pub after_dependency :
      {B : Type 0} (action : String) (db : Database) (f : Unit {0} → Exec Database B)
      → Kept initial db
      → ((s : Database) → Kept initial s → Kept initial (f tt s).1)
      → Kept initial (continue (policies_dependency env email context action db) f).1
  unfolding policies_dependency
  after_dependency action db f k next =
      after_logged (Kept initial) db (require env email action "policies" none (some context) db) f
        (require-OnlyLogged env email action "policies" none (some context) db) (λ log. k)
        (λ _ log e. next (record db { audit_log = log }) k)

  pub after_find_policy :
      {B : Type 0} (name : String) (db : Database) (f : Policy → Exec Database B)
      → Kept initial db
      → ((p : Policy) → Elem p db.policies → p.name ≡ name → Kept initial (f p db).1)
      → Kept initial (continue (find_policy_or_404 name db) f).1
  unfolding find_policy_or_404 get_or_404 get_by_name
  after_find_policy name db f k next =
      after_or_raise (Kept initial) (find_policy name db.policies) _ db f k
        (λ p e. let (there, named) = find_policy-Elem name db.policies p e in next p there named)

  pub after_check :
      {B : Type 0} (conditions : Option Fields) (db : Database) (f : Unit {0} → Exec Database B)
      → Kept initial db
      → (IsAccepted conditions → Kept initial (f tt db).1)
      → Kept initial (continue (check_conditions env conditions db) f).1
  unfolding check_conditions
  after_check conditions db f k next =
      after_raise_if (Kept initial) _ _ db f k (λ e. next (env, no_errors _ e))

  pub create_policy-Kept :
      (payload : PolicyCreate) (db : Database)
      → Kept initial db
      → Kept initial (create_policy env email context payload db).1
  unfolding create_policy
  create_policy-Kept payload db k = after_dependency "policies:create" db _ k (λ s k.
      after_check payload.conditions s _ k (λ good.
        after_raise_if (Kept initial) (is_some (find_policy payload.name s.policies))
          (name_taken payload.name) s _ k
          (λ _.
            after_logged (Kept initial) s
              (assert_authorized_to_grant env email payload.resource_type (some payload.actions) s)
              _
              (assert_authorized_to_grant-OnlyLogged env email payload.resource_type s
                (some payload.actions))
              (λ log. k)
              (λ _ log e.
                create-Kept initial payload email (record s { audit_log = log }) k good))))

  pub delete_policy-Kept :
      (name : String) (reason : Option String) (db : Database)
      → Kept initial db
      → Kept initial (delete_policy env email context name reason db).1
  unfolding delete_policy delete
  delete_policy-Kept name reason db k = after_dependency "policies:delete" db _ k (λ s k.
      after_find_policy name s _ k (λ p there named.
        after_raise_if (Kept initial) (is_protected name) (cannot_be name "deleted") s _ k
          (λ open_to.
            delete-Kept initial p email reason s k there (ap is_protected named ∙ open_to))))
