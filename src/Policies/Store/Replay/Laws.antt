-- ===== src/Policies/Store/Replay/Laws.antt =====
-- The mutations do to the table of policies what their entries do to its view.
use balance_sheet_analysis.Prelude.{
  ℕ, suc, String, ◌≡◌, refl, sym, ap, ◌∙◌, inl, inr, Bool-cases, Option, Option-cases, List, [],
  ◌∷◌, ◌++◌, append-nil, append_assoc, arith,
}
use mathlib.Core.Path.{subst}
use balance_sheet_analysis.Prelude.Equality.{◌==◌, nat_eq}
use balance_sheet_analysis.Exec.{Result}
use balance_sheet_analysis.Tables.{Database, Policy, PolicyHistory, ChangeType}
use balance_sheet_analysis.Policies.Store.Rows.{
  definition_snapshot, replace_policy, remove_policy, name_free, Change, set_fields,
}
use balance_sheet_analysis.Policies.Store.History.{HistoryEntry, history_row}
use balance_sheet_analysis.Policies.Store.Mutations.{
  PolicyCreate, create, update, delete, created_entry, updated_entry, deleted_entry,
}
use balance_sheet_analysis.Policies.Store.Mutations.Laws.{
  added, after_create, create-free, create-taken, after_update, update-refused, update-free,
  update-taken, after_delete, delete-deleted,
}
use balance_sheet_analysis.Policies.Store.Replay.{
  View, definition_view, view_replace, view_remove, redo_of, replay,
}

-- The entries that the history has gained account for every change of the policies.
abbrev pub Accounts : Database → Database → Type 0
Accounts before later =
    (es : List PolicyHistory) × (later.policy_history ≡ before.policy_history ++ es)
    × (definition_view later.policies ≡ replay es (definition_view before.policies))

replay-append :
    (es fs : List PolicyHistory) (view : View) → replay (es ++ fs) view ≡ replay fs (replay es view)
unfolding replay
replay-append [] fs view = refl
replay-append (e ∷ es) fs view = replay-append es fs _

pub Accounts-refl :
    (before later : Database)
    → later.policy_history ≡ before.policy_history
    → later.policies ≡ before.policies
    → Accounts before later
unfolding replay
Accounts-refl before later h p =
    ([], h ∙ sym (append-nil before.policy_history), ap definition_view p)

pub Accounts-trans :
    (first second third : Database)
    → Accounts first second
    → Accounts second third
    → Accounts first third
Accounts-trans first second third (es, h, v) (fs, k, w) = (
  es ++ fs,
  k ∙ ap (λ l. l ++ fs) h ∙ append_assoc first.policy_history es fs,
  w ∙ ap (λ view. replay fs view) v ∙ sym (replay-append es fs (definition_view first.policies)),
)

view-append :
    (ps : List Policy) (p : Policy)
    → definition_view (ps ++ p ∷ []) ≡ definition_view ps ++ (p.id, definition_snapshot p) ∷ []
unfolding definition_view
view-append [] p = refl
view-append (q ∷ ps) p = ap (λ l. (q.id, definition_snapshot q) ∷ l) (view-append ps p)

view-replace_policy :
    (ps : List Policy) (p : Policy)
    → definition_view (replace_policy p ps)
      ≡ view_replace p.id (definition_snapshot p) (definition_view ps)
unfolding definition_view view_replace
view-replace_policy [] p = refl
view-replace_policy (q ∷ ps) p = elim (Bool-cases (q.id == p.id)) [
  | inl e ↦ ground (arith, view-replace_policy ps p)
  | inr e ↦ ground (arith, view-replace_policy ps p)
]

view-remove_policy :
    (ps : List Policy) (id : ℕ)
    → definition_view (remove_policy id ps) ≡ view_remove id (definition_view ps)
unfolding definition_view view_remove
view-remove_policy [] id = refl
view-remove_policy (q ∷ ps) id = ground (arith, view-remove_policy ps id)

-- One entry, that does to the view what was done to the table.
one_entry :
    (before later : Database) (entry : HistoryEntry)
    → later.policy_history
      ≡ before.policy_history ++ history_row entry before.history_seq before.now ∷ []
    → definition_view later.policies
      ≡ redo_of entry.policy_id entry.previous_definition entry.new_definition
          (definition_view before.policies)
    → Accounts before later
unfolding replay
one_entry before later entry h v = (history_row entry before.history_seq before.now ∷ [], h, v)

pub create-Accounts :
    (payload : PolicyCreate) (caller : String) (db : Database)
    → Accounts db (create payload caller db).1
unfolding redo_of
create-Accounts payload caller db =
    elim (Bool-cases (name_free db.policy_seq payload.name db.policies)) [
      | inl free ↦
          subst (λ (r : Result Policy × Database). Accounts db r.1)
            (sym (create-free payload caller db free))
            (one_entry db (after_create payload caller db)
              (created_entry (added payload caller db) caller) refl
              (view-append db.policies (added payload caller db)))
      | inr taken ↦
          subst (λ (r : Result Policy × Database). Accounts db r.1)
            (sym (create-taken payload caller db taken))
            (Accounts-refl db (record db { policy_seq = suc db.policy_seq }) refl refl)
    ]

pub update-Accounts :
    (policy : Policy) (changes : List Change) (caller : String) (change_reason : Option String)
    (change_type : ChangeType) (db : Database)
    → Accounts db (update policy changes caller change_reason change_type db).1
unfolding redo_of
update-Accounts policy changes caller change_reason change_type db =
    elim (Option-cases (set_fields changes policy)) [
      | inl refused ↦
          subst (λ (r : Result Policy × Database). Accounts db r.1)
            (sym (update-refused policy changes caller change_reason change_type db refused))
            (Accounts-refl db db refl refl)
      | inr (new, set) ↦ elim (Bool-cases (name_free new.id new.name db.policies)) [
        | inl free ↦
            subst (λ (r : Result Policy × Database). Accounts db r.1)
              (sym (update-free policy changes caller change_reason change_type db new set free))
              (one_entry db (after_update policy changes caller change_reason change_type db new)
                (updated_entry policy new changes caller change_reason change_type) refl
                (view-replace_policy db.policies new))
        | inr taken ↦
            subst (λ (r : Result Policy × Database). Accounts db r.1)
              (sym (update-taken policy changes caller change_reason change_type db new set taken))
              (Accounts-refl db db refl refl)
      ]
    ]

pub delete-Accounts :
    (policy : Policy) (caller : String) (change_reason : Option String) (db : Database)
    → Accounts db (delete policy caller change_reason db).1
unfolding redo_of
delete-Accounts policy caller change_reason db =
    subst (λ (r : Result (Unit {0}) × Database). Accounts db r.1)
      (sym (delete-deleted policy caller change_reason db))
      (one_entry db (after_delete policy caller change_reason db)
        (deleted_entry policy caller change_reason) refl (view-remove_policy db.policies policy.id))
