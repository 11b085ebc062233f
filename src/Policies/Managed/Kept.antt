-- ===== src/Policies/Managed/Kept.antt =====
-- What the functions of the repository keep: the invariant, and a history that accounts for the
-- policies.
use balance_sheet_analysis.Prelude.{
  String, true, false, ◌≡◌, refl, sym, inl, inr, Bool-cases, Option-cases, Option, some, List, Elem,
}
use mathlib.Core.Path.{subst}
use balance_sheet_analysis.Exec.{Result}
use balance_sheet_analysis.Tables.{Database, Policy, ChangeType}
use balance_sheet_analysis.Policies.Engine.Total.{IsAccepted}
use balance_sheet_analysis.Policies.Names.{is_protected}
use balance_sheet_analysis.Policies.Store.Rows.{name_free, Change, set_fields, definition_snapshot}
use balance_sheet_analysis.Policies.Store.History.{history_row}
use balance_sheet_analysis.Policies.Store.Mutations.{
  PolicyCreate, create, update, delete, created_entry, updated_entry, deleted_entry,
}
use balance_sheet_analysis.Policies.Store.Mutations.Laws.{
  added, create-free, create-taken, update-refused, update-free, update-taken, delete-deleted,
}
use balance_sheet_analysis.Policies.Store.Replay.Laws.{
  Accounts, Accounts-trans, create-Accounts, update-Accounts, delete-Accounts,
}
use balance_sheet_analysis.Policies.Admin.History.{definition_for_entry}
use balance_sheet_analysis.Policies.Managed.{Managed}
use balance_sheet_analysis.Policies.Managed.Create.{taken-IsManaged, added-IsManaged}
use balance_sheet_analysis.Policies.Managed.Update.{replaced-IsManaged}
use balance_sheet_analysis.Policies.Managed.Delete.{removed-IsManaged}

-- What an update must leave of a policy.
abbrev pub IsKept : Policy → Policy → Type 0
IsKept policy new =
    (new.id ≡ policy.id)
    × IsAccepted new.conditions
    × (is_protected policy.name ≡ true → (new.name ≡ policy.name) × (new.is_active ≡ true))

module _ (initial : Database) where
  abbrev pub Kept : Database → Type 0
  Kept db = Managed db × Accounts initial db

  pub create-Kept :
      (payload : PolicyCreate) (caller : String) (db : Database)
      → Kept db
      → IsAccepted payload.conditions
      → Kept (create payload caller db).1
  unfolding definition_for_entry definition_snapshot
  create-Kept payload caller db (m, a) good = (
    managed,
    Accounts-trans initial db (create payload caller db).1 a (create-Accounts payload caller db),
  )
    where
      managed : Managed (create payload caller db).1
      managed = elim (Bool-cases (name_free db.policy_seq payload.name db.policies)) [
        | inl free ↦
            subst (λ (r : Result Policy × Database). Managed r.1)
              (sym (create-free payload caller db free))
              (added-IsManaged db.policies db.policy_seq db.user_policies db.policy_history m
                (added payload caller db) refl
                (history_row (created_entry (added payload caller db) caller) db.history_seq db.now)
                (definition_snapshot (added payload caller db), refl, refl) free good)
        | inr taken ↦
            subst (λ (r : Result Policy × Database). Managed r.1)
              (sym (create-taken payload caller db taken))
              (taken-IsManaged db.policies db.policy_seq db.user_policies db.policy_history m)
      ]

  pub update-Kept :
      (policy : Policy) (changes : List Change) (caller : String) (change_reason : Option String)
      (change_type : ChangeType) (db : Database)
      → Kept db
      → Elem policy db.policies
      → ((new : Policy) → set_fields changes policy ≡ some new → IsKept policy new)
      → Kept (update policy changes caller change_reason change_type db).1
  unfolding definition_for_entry definition_snapshot
  update-Kept policy changes caller change_reason change_type db (m, a) there keeps = (
    managed,
    Accounts-trans initial db (update policy changes caller change_reason change_type db).1 a
        (update-Accounts policy changes caller change_reason change_type db),
  )
    where
      managed : Managed (update policy changes caller change_reason change_type db).1
      managed = elim (Option-cases (set_fields changes policy)) [
        | inl refused ↦
            subst (λ (r : Result Policy × Database). Managed r.1)
              (sym (update-refused policy changes caller change_reason change_type db refused)) m
        | inr (new, set) ↦ elim (Bool-cases (name_free new.id new.name db.policies)) [
          | inl free ↦
              let (same, good, stays) = keeps new set in
              subst (λ (r : Result Policy × Database). Managed r.1)
                (sym (update-free policy changes caller change_reason change_type db new set free))
                (replaced-IsManaged db.policies db.policy_seq db.user_policies db.policy_history m
                  policy there new same
                  (history_row (updated_entry policy new changes caller change_reason change_type)
                    db.history_seq db.now)
                  (definition_snapshot new, refl, refl) free good stays)
          | inr taken ↦
              subst (λ (r : Result Policy × Database). Managed r.1)
                (sym
                  (update-taken policy changes caller change_reason change_type db new set taken))
                m
        ]
      ]

  pub delete-Kept :
      (policy : Policy) (caller : String) (change_reason : Option String) (db : Database)
      → Kept db
      → Elem policy db.policies
      → is_protected policy.name ≡ false
      → Kept (delete policy caller change_reason db).1
  unfolding definition_for_entry definition_snapshot
  delete-Kept policy caller change_reason db (m, a) there unprotected = (
    subst (λ (r : Result (Unit {0}) × Database). Managed r.1)
        (sym (delete-deleted policy caller change_reason db))
        (removed-IsManaged db.policies db.policy_seq db.user_policies db.policy_history m policy
          there unprotected
          (history_row (deleted_entry policy caller change_reason) db.history_seq db.now)
          (definition_snapshot policy, refl, refl)),
    Accounts-trans initial db (delete policy caller change_reason db).1 a
        (delete-Accounts policy caller change_reason db),
  )
