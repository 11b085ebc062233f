-- ===== src/Policies/Store/Mutations/Laws.antt =====
-- What each mutation answers and leaves, on every branch.
use balance_sheet_analysis.Prelude.{
  suc, String, Bool, true, false, ◌≡◌, refl, ap, ◌∙◌, Option, none, some, List, [], ◌∷◌, ◌++◌, not,
  select, if◌then◌else◌,
}
use balance_sheet_analysis.Prelude.Equality.{◌==◌, nat_eq}
use balance_sheet_analysis.Exec.{Result, ok, err, continue, or_raise, integrity_error, ◌>>◌, pure}
use balance_sheet_analysis.Tables.{Database, Policy, ChangeType}
use balance_sheet_analysis.Policies.Store.Rows.{
  replace_policy, remove_policy, name_free, Change, set_fields,
}
use balance_sheet_analysis.Policies.Store.History.{HistoryEntry, add_entry, history_row}
use balance_sheet_analysis.Policies.Store.Mutations.{
  PolicyCreate, create, update, delete, insert_policy, flush_policy, new_policy, created_entry,
  updated_entry, deleted_entry,
}

-- The database with an entry of the history.
abbrev pub recorded : HistoryEntry → Database → Database
recorded entry db = record db {
  policy_history = db.policy_history ++ history_row entry db.history_seq db.now ∷ [];
  history_seq = suc db.history_seq;
}

module _ (payload : PolicyCreate) (caller : String) (db : Database) where
  abbrev pub added : Policy
  added = new_policy payload caller db.policy_seq

  abbrev pub after_create : Database
  after_create =
      recorded (created_entry added caller)
        (record db { policies = db.policies ++ added ∷ []; policy_seq = suc db.policy_seq })

  abbrev after_insert : Bool → Result Policy × Database
  after_insert free =
      continue
        (if free
          then (
            ok added,
            record db { policies = db.policies ++ added ∷ []; policy_seq = suc db.policy_seq },
          )
          else (err integrity_error, record db { policy_seq = suc db.policy_seq }))
        (λ policy. add_entry (created_entry policy caller) >> pure policy)

  pub create-free :
      name_free db.policy_seq payload.name db.policies ≡ true
      → create payload caller db ≡ (ok added, after_create)
  unfolding create insert_policy add_entry
  create-free free = ap after_insert free

  pub create-taken :
      name_free db.policy_seq payload.name db.policies ≡ false
      → create payload caller db
        ≡ (err integrity_error, record db { policy_seq = suc db.policy_seq })
  unfolding create insert_policy add_entry
  create-taken taken = ap after_insert taken

module _ (policy : Policy) (changes : List Change) (caller : String) (change_reason : Option String)
    (change_type : ChangeType) (db : Database) where
  abbrev pub after_update : Policy → Database
  after_update new =
      recorded (updated_entry policy new changes caller change_reason change_type)
        (record db { policies = replace_policy new db.policies })

  abbrev after_set : Option Policy → Result Policy × Database
  after_set found = continue (or_raise found integrity_error db) (λ new.
      flush_policy new
      >> (add_entry (updated_entry policy new changes caller change_reason change_type)
          >> pure new))

  abbrev after_flush : Policy → Bool → Result Policy × Database
  after_flush new free =
      continue
        (if free
          then (ok tt, record db { policies = replace_policy new db.policies })
          else (err integrity_error, db))
        (λ _.
          add_entry (updated_entry policy new changes caller change_reason change_type) >> pure new)

  pub update-refused :
      set_fields changes policy ≡ none
      → update policy changes caller change_reason change_type db ≡ (err integrity_error, db)
  unfolding update
  update-refused e = ap after_set e

  module _ (new : Policy) (set : set_fields changes policy ≡ some new) where
    pub update-free :
        name_free new.id new.name db.policies ≡ true
        → update policy changes caller change_reason change_type db ≡ (ok new, after_update new)
    unfolding update flush_policy add_entry
    update-free free = ap after_set set ∙ ap (after_flush new) free

    pub update-taken :
        name_free new.id new.name db.policies ≡ false
        → update policy changes caller change_reason change_type db ≡ (err integrity_error, db)
    unfolding update flush_policy
    update-taken taken = ap after_set set ∙ ap (after_flush new) taken

module _ (policy : Policy) (caller : String) (change_reason : Option String) (db : Database) where
  abbrev pub after_delete : Database
  after_delete = record (recorded (deleted_entry policy caller change_reason) db) {
    policies = remove_policy policy.id db.policies;
    user_policies = select (λ l. not (l.policy_id == policy.id)) db.user_policies;
  }

  pub delete-deleted : delete policy caller change_reason db ≡ (ok tt, after_delete)
  unfolding delete add_entry
  delete-deleted = refl
