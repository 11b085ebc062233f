-- ===== src/Policies/Store/Mutations.antt =====
-- policy_repository.py, `create`, `get_by_name`, `get_all`, `update` and `delete`: every mutation
-- adds an entry to the history in the same transaction.
pub mod Laws
use balance_sheet_analysis.Prelude.{
  ℕ, suc, String, Bool, true, false, not, ◌&&◌, ◌||◌, Option, none, some, List, [], ◌∷◌, ◌++◌, leb,
  take, drop, select, if◌then◌else◌,
}
use balance_sheet_analysis.Prelude.Equality.{◌==◌, nat_eq}
use balance_sheet_analysis.Json.{Fields}
use balance_sheet_analysis.Exec.{
  ok, err, Exec, pure, gets, modify, or_raise, raise_if, ◌>>=◌, ◌>>◌, integrity_error,
}
use balance_sheet_analysis.Tables.{
  Database, Policy, UserPolicy, ChangeType, policy_created, policy_deleted,
}
use balance_sheet_analysis.Policies.Store.Rows.{
  find_policy, replace_policy, remove_policy, name_free, definition_snapshot, Change, set_fields,
  changed_fields,
}
use balance_sheet_analysis.Policies.Store.History.{HistoryEntry, add_entry}

-- `PolicyCreate`, after validation.
pub record PolicyCreate : Type 0 where
  pub name : String
  pub description : Option String
  pub actions : List String
  pub resource_type : String
  pub conditions : Option Fields

-- `Policy(**data)` with the id that the flush assigns and the default of `is_active`.
abbrev pub new_policy : PolicyCreate → String → ℕ → Policy
new_policy payload created_by id = record {
  id = id;
  name = payload.name;
  description = payload.description;
  actions = some payload.actions;
  resource_type = payload.resource_type;
  conditions = payload.conditions;
  is_active = true;
  created_by = some created_by;
}

abbrev pub created_entry : Policy → String → HistoryEntry
created_entry policy changed_by = record {
  policy_id = policy.id;
  policy_name = policy.name;
  change_type = policy_created;
  previous_definition = none;
  new_definition = some (definition_snapshot policy);
  changed_fields = none;
  changed_by = some changed_by;
  change_reason = none;
}

-- The flush: the id is taken from the sequence before the unique index is checked.
unfoldable pub insert_policy : PolicyCreate → String → Exec Database Policy
insert_policy payload created_by db =
    let policy = new_policy payload created_by db.policy_seq in
    let taken : Database = record db { policy_seq = suc db.policy_seq } in
    if name_free policy.id policy.name db.policies
    then (ok policy, record taken { policies = db.policies ++ policy ∷ [] })
    else (err integrity_error, taken)

-- `create`; `changed_by` and `created_by` are the same caller.
unfoldable pub create : PolicyCreate → String → Exec Database Policy
unfolding insert_policy add_entry
create payload changed_by = do
  policy ← insert_policy payload changed_by
  add_entry (created_entry policy changed_by)
  pure policy

-- `create` of a dict without `created_by`, as a script calls it.
unfoldable pub create_unowned : PolicyCreate → String → Exec Database Policy
unfolding add_entry
create_unowned payload changed_by db =
    let policy : Policy = record (new_policy payload changed_by db.policy_seq) {
      created_by = none;
    } in
    let taken : Database = record db { policy_seq = suc db.policy_seq } in
    if name_free policy.id policy.name db.policies
    then ((add_entry (created_entry policy changed_by) >> pure policy)
        (record taken { policies = db.policies ++ policy ∷ [] }))
    else (err integrity_error, taken)

unfoldable pub get_by_name : String → Exec Database (Option Policy)
get_by_name name = gets (λ db. find_policy name db.policies)

-- `order_by(Policy.id)`
abbrev pub insert_by_id : Policy → List Policy → List Policy
insert_by_id p [] = p ∷ []
insert_by_id p (q ∷ qs) =
    let rest = insert_by_id p qs in if leb p.id q.id then p ∷ q ∷ qs else q ∷ rest

abbrev pub by_id : List Policy → List Policy
by_id [] = []
by_id (p ∷ ps) = insert_by_id p (by_id ps)

unfoldable pub get_all : ℕ → ℕ → Exec Database (List Policy)
get_all limit offset = gets (λ db. take limit (drop offset (by_id db.policies)))

abbrev pub updated_entry :
    Policy → Policy → List Change → String → Option String → ChangeType → HistoryEntry
updated_entry old new changes changed_by change_reason change_type = record {
  policy_id = new.id;
  policy_name = new.name;
  change_type = change_type;
  previous_definition = some (definition_snapshot old);
  new_definition = some (definition_snapshot new);
  changed_fields =
      some (changed_fields changes (definition_snapshot old) (definition_snapshot new));
  changed_by = some changed_by;
  change_reason = change_reason;
}

-- The flush of a row whose fields are set.
unfoldable pub flush_policy : Policy → Exec Database Unit
flush_policy new db =
    if name_free new.id new.name db.policies
    then (ok tt, record db { policies = replace_policy new db.policies })
    else (err integrity_error, db)

unfoldable pub update :
    Policy → List Change → String → Option String → ChangeType → Exec Database Policy
unfolding set_fields flush_policy add_entry
update policy update_data changed_by change_reason change_type = do
  new ← or_raise (set_fields update_data policy) integrity_error
  flush_policy new
  add_entry (updated_entry policy new update_data changed_by change_reason change_type)
  pure new

abbrev pub deleted_entry : Policy → String → Option String → HistoryEntry
deleted_entry policy changed_by change_reason = record {
  policy_id = policy.id;
  policy_name = policy.name;
  change_type = policy_deleted;
  previous_definition = some (definition_snapshot policy);
  new_definition = none;
  changed_fields = none;
  changed_by = some changed_by;
  change_reason = change_reason;
}

-- The row goes, and with it its assignments (ON DELETE CASCADE).
unfoldable pub delete : Policy → String → Option String → Exec Database Unit
unfolding add_entry
delete policy changed_by change_reason = do
  add_entry (deleted_entry policy changed_by change_reason)
  modify (λ db. record db {
    policies = remove_policy policy.id db.policies;
    user_policies = select (λ l. not (l.policy_id == policy.id)) db.user_policies;
  })
