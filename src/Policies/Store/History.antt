-- ===== src/Policies/Store/History.antt =====
-- policy_history_repository.py: the rows are only ever added, and read newest first.
use balance_sheet_analysis.Prelude.{
  ℕ, suc, String, Bool, ◌&&◌, ◌||◌, Option, none, some, List, [], ◌∷◌, ◌++◌, ltb, leb, take, drop,
  select, if◌then◌else◌,
}
use balance_sheet_analysis.Prelude.Equality.{◌==◌, nat_eq, string_eq}
use balance_sheet_analysis.Exec.{Exec, gets, modify}
use balance_sheet_analysis.Tables.{Database, PolicyDefinition, PolicyHistory, ChangeType}

-- What a mutation says of itself: the policy's id and name after it, its kind, the two definitions,
-- the fields that differ, who made it and why.
pub record HistoryEntry : Type 0 where
  pub policy_id : ℕ
  pub policy_name : String
  pub change_type : ChangeType
  pub previous_definition : Option PolicyDefinition
  pub new_definition : Option PolicyDefinition
  pub changed_fields : Option (List String)
  pub changed_by : Option String
  pub change_reason : Option String

-- The row of an entry: its id is from the sequence, and its time is the server's.
abbrev pub history_row : HistoryEntry → ℕ → ℕ → PolicyHistory
history_row entry id now = record {
  id = id;
  policy_id = entry.policy_id;
  policy_name = entry.policy_name;
  change_type = entry.change_type;
  previous_definition = entry.previous_definition;
  new_definition = entry.new_definition;
  changed_fields = entry.changed_fields;
  changed_by = entry.changed_by;
  change_reason = entry.change_reason;
  created_at = now;
}

-- `add_entry`, with the commit of the mutation that stages it.
unfoldable pub add_entry : HistoryEntry → Exec Database Unit
add_entry entry = modify (λ db. record db {
  policy_history = db.policy_history ++ history_row entry db.history_seq db.now ∷ [];
  history_seq = suc db.history_seq;
})

-- `order_by(created_at.desc(), id.desc())`: whether one row comes before another.
abbrev pub newer : PolicyHistory → PolicyHistory → Bool
newer a b = ltb b.created_at a.created_at || (a.created_at == b.created_at && leb b.id a.id)

abbrev pub insert_newest : PolicyHistory → List PolicyHistory → List PolicyHistory
insert_newest h [] = h ∷ []
insert_newest h (k ∷ ks) =
    let rest = insert_newest h ks in if newer h k then h ∷ k ∷ ks else k ∷ rest

abbrev pub newest_first : List PolicyHistory → List PolicyHistory
newest_first [] = []
newest_first (h ∷ hs) = insert_newest h (newest_first hs)

unfoldable pub get_for_policy : String → ℕ → ℕ → Exec Database (List PolicyHistory)
get_for_policy policy_name limit offset = gets (λ db.
    take limit
      (drop offset (newest_first (select (λ h. h.policy_name == policy_name) db.policy_history))))

abbrev pub find_entry : ℕ → List PolicyHistory → Option PolicyHistory
find_entry id [] = none
find_entry id (h ∷ hs) = if h.id == id then some h else find_entry id hs

unfoldable pub get_by_id : ℕ → Exec Database (Option PolicyHistory)
get_by_id history_id = gets (λ db. find_entry history_id db.policy_history)
