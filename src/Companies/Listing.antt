-- ===== src/Companies/Listing.antt =====
-- backend/app/companies/company_crud.py: the list of the companies in a scope, and its count.
pub mod Laws
pub mod Order
pub mod Unique
pub mod Stable
pub mod Tests
use Prim.Native.String.{◌++◌ as text_append}
use text.Mathlib.Text.{◌==◌ as str_eq}
use balance_sheet_analysis.Prelude.{
  ℕ, String, Bool, true, false, not, ◌&&◌, ◌||◌, Option, none, some, is_some, List, [], ◌∷◌, leb,
  length, take, drop, select, map, if◌then◌else◌,
}
use balance_sheet_analysis.Prelude.Equality.{◌==◌, contains, string_eq}
use balance_sheet_analysis.Exec.{Result, ok, Exec, gets}
use balance_sheet_analysis.Tables.{Database, Company}
use balance_sheet_analysis.Access.Scope.{CompanyScope, is_empty, in_scope}
use balance_sheet_analysis.Companies.Rows.{find_company}

-- What the queries take from PostgreSQL: the match of a text with an ILIKE pattern, and the order
-- of two texts in the database's collation.
pub record Collation : Type 0 where
  pub ilike : String → String → Bool
  pub text_le : String → String → Bool

-- HierarchyScope
pub data HierarchyScope : Type 0 where
  root subsidiary : HierarchyScope

abbrev pub sortable_column_names : List String
sortable_column_names = "name" ∷ "ticker" ∷ "created_at" ∷ []

-- A row of the result: the company, and its parent's name by the outer join.
abbrev pub Row : Type 0
Row = Company × Option String

unfoldable pub hierarchy_filter : Option HierarchyScope → Company → Bool
hierarchy_filter none c = true
hierarchy_filter (some root) c = not (is_some c.parent_company_id)
hierarchy_filter (some subsidiary) c = is_some c.parent_company_id

-- ORDER BY ... ASC has NULL last.
abbrev pub option_le : (String → String → Bool) → Option String → Option String → Bool
option_le le a none = true
option_le le none (some b) = false
option_le le (some a) (some b) = le a b

-- The outer join with the parent.
unfoldable pub with_parent : List Company → Company → Row
with_parent companies c = (
  c,
  elim c.parent_company_id [
    | none ↦ none
    | some p ↦ elim (find_company p companies) [ none ↦ none | some parent ↦ some parent.name ]
  ],
)

module _ (server : Collation) where
  -- `if search:`, an empty text asks for no search.
  unfoldable pub search_filter : Option String → Company → Bool
  search_filter none c = true
  search_filter (some search) c =
      let pattern = text_append (text_append "%" search) "%" in
      if str_eq search ""
      then true
      else (server.ilike c.name pattern || server.ilike c.ticker pattern)

  -- `_apply_scope_and_filters`
  unfoldable pub selected : CompanyScope → Option String → Option HierarchyScope → Company → Bool
  unfolding search_filter hierarchy_filter
  selected scope search hierarchy_scope c =
      in_scope scope c.id c.group_root_id
      && search_filter search c
      && hierarchy_filter hierarchy_scope c

  -- The order by `order_column` alone, ascending. What is no sortable column is the id.
  unfoldable pub column_le : Option String → Row → Row → Bool
  column_le none (c, p) (d, q) = leb c.id d.id
  column_le (some sort_by) (c, p) (d, q) =
      if str_eq sort_by "parent"
      then option_le server.text_le p q
      else if str_eq sort_by "name"
      then server.text_le c.name d.name
      else if str_eq sort_by "ticker"
      then server.text_le c.ticker d.ticker
      else if str_eq sort_by "created_at"
      then leb c.created_at d.created_at
      else leb c.id d.id

  -- The two ORDER BY terms, ascending: rows that are equal by the first go by id.
  unfoldable pub ascending : Option String → Row → Row → Bool
  unfolding column_le
  ascending sort_by r s =
      column_le sort_by r s && (not (column_le sort_by s r) || leb r.0.id s.0.id)

  -- `asc if sort_dir == "asc" else desc`, for both terms
  unfoldable pub row_le : Option String → String → Row → Row → Bool
  unfolding ascending
  row_le sort_by sort_dir r s =
      if str_eq sort_dir "asc" then ascending sort_by r s else ascending sort_by s r

  unfoldable pub insert_row : Option String → String → Row → List Row → List Row
  unfolding row_le
  insert_row sort_by sort_dir r [] = r ∷ []
  insert_row sort_by sort_dir r (s ∷ rows) =
      let rest = insert_row sort_by sort_dir r rows in
      if row_le sort_by sort_dir r s then r ∷ s ∷ rows else s ∷ rest

  unfoldable pub order_rows : Option String → String → List Row → List Row
  unfolding insert_row
  order_rows sort_by sort_dir [] = []
  order_rows sort_by sort_dir (r ∷ rows) =
      insert_row sort_by sort_dir r (order_rows sort_by sort_dir rows)

  -- Every row of the query, before LIMIT and OFFSET.
  unfoldable pub matching_rows :
      CompanyScope
      → Option String
      → Option HierarchyScope
      → Option String
      → String
      → List Company
      → List Row
  unfolding selected order_rows with_parent
  matching_rows scope search hierarchy_scope sort_by sort_dir companies =
      order_rows sort_by sort_dir
        (map (with_parent companies) (select (selected scope search hierarchy_scope) companies))

  unfoldable pub list_companies_in_scope :
      CompanyScope
      → ℕ
      → ℕ
      → Option String
      → Option HierarchyScope
      → Option String
      → String
      → Exec Database (List Row)
  unfolding is_empty matching_rows
  list_companies_in_scope scope limit offset search hierarchy_scope sort_by sort_dir = gets (λ db.
      if is_empty scope
      then []
      else take limit
          (drop offset (matching_rows scope search hierarchy_scope sort_by sort_dir db.companies)))

  unfoldable pub count_companies_in_scope :
      CompanyScope → Option String → Option HierarchyScope → Exec Database ℕ
  unfolding is_empty selected
  count_companies_in_scope scope search hierarchy_scope = gets (λ db.
      if is_empty scope
      then 0
      else length (select (selected scope search hierarchy_scope) db.companies))
