-- ===== src/Policies/Store/Replay.antt =====
-- An abstract view of the policies, a definition for each id, and what an entry of the history does
-- to it.
pub mod Laws
use balance_sheet_analysis.Prelude.{
  ℕ, Bool, Option, none, some, List, [], ◌∷◌, ◌++◌, map, if◌then◌else◌,
}
use balance_sheet_analysis.Prelude.Equality.{◌==◌, nat_eq}
use balance_sheet_analysis.Tables.{Database, Policy, PolicyDefinition, PolicyHistory}
use balance_sheet_analysis.Policies.Store.Rows.{definition_snapshot}

abbrev pub View : Type 0
View = List (ℕ × PolicyDefinition)

unfoldable pub definition_view : List Policy → View
definition_view [] = []
definition_view (p ∷ ps) = (p.id, definition_snapshot p) ∷ definition_view ps

unfoldable pub view_replace : ℕ → PolicyDefinition → View → View
view_replace id d [] = []
view_replace id d ((k, e) ∷ view) = (k, if k == id then d else e) ∷ view_replace id d view

unfoldable pub view_remove : ℕ → View → View
view_remove id [] = []
view_remove id ((k, e) ∷ view) =
    let rest = view_remove id view in if k == id then rest else (k, e) ∷ rest

-- An entry with no definition before it adds one, an entry with none after it takes one away.
unfoldable pub redo_of : ℕ → Option PolicyDefinition → Option PolicyDefinition → View → View
unfolding view_replace view_remove
redo_of id previous none view = view_remove id view
redo_of id none (some d) view = view ++ (id, d) ∷ []
redo_of id (some e) (some d) view = view_replace id d view

unfoldable pub replay : List PolicyHistory → View → View
unfolding redo_of
replay [] view = view
replay (h ∷ hs) view = replay hs (redo_of h.policy_id h.previous_definition h.new_definition view)
