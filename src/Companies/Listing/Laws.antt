-- ===== src/Companies/Listing/Laws.antt =====
-- Which rows a listing shows, how many, and that the count counts them.
use balance_sheet_analysis.Prelude.{
  ℕ, ◌-◌, ◌≤◌, String, Bool, true, false, ◌≡◌, refl, sym, ◌∙◌, inl, inr, Option, List, [], ◌∷◌,
  arith, length, take, drop, select, is_nil, any, leb, Elem, Elem-take, Elem-drop, Elem-map,
  Elem-map_of, Elem-select, length-map, length-take-drop, length-select-le, take-all, Bool-cases,
  if◌then◌else◌,
}
use mathlib.Core.Path.{subst}
use balance_sheet_analysis.Json.{Json}
use balance_sheet_analysis.Exec.{ok}
use balance_sheet_analysis.Tables.{Database, Company}
use balance_sheet_analysis.Access.Scope.{CompanyScope, is_empty, in_scope}
use balance_sheet_analysis.Companies.Listing.{
  Collation, HierarchyScope, Row, hierarchy_filter, search_filter, selected, with_parent,
  matching_rows, list_companies_in_scope, count_companies_in_scope,
}
use balance_sheet_analysis.Companies.Listing.Order.{length-order_rows, Elem-order_rows}

pub ok-injective : {A : Type 0} (a b : A) → ok a ≡ ok b → a ≡ b
ok-injective a b h = cc

any-is_nil : {A : Type 0} (p : A → Bool) (xs : List A) → is_nil xs ≡ true → any p xs ≡ false
any-is_nil p [] h = refl
any-is_nil p (x ∷ xs) h = cc

is_empty-in_scope : (s : CompanyScope) (c g : ℕ) → is_empty s ≡ true → in_scope s c g ≡ false
unfolding is_empty in_scope
is_empty-in_scope s c g h =
    ground (arith, any-is_nil {A = Json} _ s.company_ids, any-is_nil {A = Json} _ s.group_root_ids)

module _ (server : Collation) (scope : CompanyScope) (search : Option String)
    (hierarchy_scope : Option HierarchyScope) where
  no_rows :
      (cs : List Company)
      → is_empty scope ≡ true
      → length (select (selected server scope search hierarchy_scope) cs) ≡ 0
  unfolding selected
  no_rows [] h = refl
  no_rows (c ∷ cs) h = ground (arith, no_rows cs h, is_empty-in_scope scope c.id c.group_root_id)

  module _ (sort_by : Option String) (sort_dir : String) where
    length-matching_rows :
        (cs : List Company)
        → length (matching_rows server scope search hierarchy_scope sort_by sort_dir cs)
          ≡ length (select (selected server scope search hierarchy_scope) cs)
    unfolding matching_rows
    length-matching_rows cs =
        length-order_rows server sort_by sort_dir _ ∙ length-map (with_parent cs) _

    Elem-matching_rows :
        (r : Row) (cs : List Company)
        → Elem r (matching_rows server scope search hierarchy_scope sort_by sort_dir cs)
        → (c : Company) × Elem c cs
          × (selected server scope search hierarchy_scope c ≡ true)
          × (r ≡ with_parent cs c)
    unfolding matching_rows
    Elem-matching_rows r cs h =
        let (c, m, e) =
          Elem-map (with_parent cs) r _ ((Elem-order_rows server sort_by sort_dir r _).0 h) in
        let (there, passes) =
          (Elem-select (selected server scope search hierarchy_scope) c cs).0 m in
        (c, there, passes, e)

    Elem-matching_rows_of :
        (c : Company) (cs : List Company)
        → Elem c cs
        → selected server scope search hierarchy_scope c ≡ true
        → Elem
            (with_parent cs c)
            (matching_rows server scope search hierarchy_scope sort_by sort_dir cs)
    unfolding matching_rows
    Elem-matching_rows_of c cs m h =
        (Elem-order_rows server sort_by sort_dir (with_parent cs c) _).1 (
          Elem-map_of (with_parent cs) c _
            ((Elem-select (selected server scope search hierarchy_scope) c cs).1 (m, h)))

    module _ (limit offset : ℕ) (db : Database) (rows : List Row)
        (listed : (list_companies_in_scope server scope limit offset search hierarchy_scope sort_by
            sort_dir db).0
          ≡ ok rows) where
      nothing_listed : is_empty scope ≡ true → rows ≡ []
      unfolding list_companies_in_scope
      nothing_listed empty = ground arith

      page_listed :
          is_empty scope ≡ false
          → rows
            ≡ take limit (
                drop offset
                  (matching_rows server scope search hierarchy_scope sort_by sort_dir db.companies))
      unfolding list_companies_in_scope
      page_listed filled = ground arith

      -- Every row of a page is a company on file that the scope reaches and the filters ask for,
      -- with its own parent's name.
      pub Elem-list_companies_in_scope :
          (r : Row)
          → Elem r rows
          → (c : Company) × Elem c db.companies
            × (in_scope scope c.id c.group_root_id ≡ true)
            × (hierarchy_filter hierarchy_scope c ≡ true)
            × (search_filter server search c ≡ true)
            × (r ≡ with_parent db.companies c)
      unfolding list_companies_in_scope selected
      Elem-list_companies_in_scope r h = elim (Bool-cases (is_empty scope)) [
        | inl empty ↦ absurd (subst (λ l. Elem r l) (nothing_listed empty) h)
        | inr filled ↦
            let whole =
              matching_rows server scope search hierarchy_scope sort_by sort_dir db.companies in
            let on_page = subst (λ l. Elem r l) (page_listed filled) h in
            let (c, there, passes, e) =
              Elem-matching_rows r db.companies
                (Elem-drop offset r whole (Elem-take limit r (drop offset whole) on_page)) in
            (c, there, ground arith, ground arith, ground arith, e)
      ]

      -- A page has as many rows as its limit allows of those that the count, which is made with
      -- the same filters, has after the offset.
      pub length-list_companies_in_scope :
          (total : ℕ)
          → (count_companies_in_scope server scope search hierarchy_scope db).0 ≡ ok total
          → length rows ≡ (if leb limit (total - offset) then limit else total - offset)
      unfolding list_companies_in_scope count_companies_in_scope
      length-list_companies_in_scope total counted = elim (Bool-cases (is_empty scope)) [
        | inl empty ↦ ground (arith, nothing_listed)
        | inr filled ↦
            let whole =
              matching_rows server scope search hierarchy_scope sort_by sort_dir db.companies in
            ground (
              arith,
              page_listed filled,
              length-take-drop limit offset whole,
              length-matching_rows db.companies,
            )
      ]

      -- A first page whose limit is large enough leaves nothing out: every company on file that
      -- the scope reaches and the filters ask for is on it.
      pub list_companies_in_scope-Elem :
          offset ≡ 0
          → length db.companies ≤ limit
          → (c : Company) → Elem c db.companies
          → in_scope scope c.id c.group_root_id ≡ true
          → hierarchy_filter hierarchy_scope c ≡ true
          → search_filter server search c ≡ true
          → Elem (with_parent db.companies c) rows
      unfolding selected
      list_companies_in_scope-Elem first large c there reached asked found =
          elim (Bool-cases (is_empty scope)) [
            | inl empty ↦
                let unreached = is_empty-in_scope scope c.id c.group_root_id empty in absurd (cc)
            | inr filled ↦
                let whole =
                  matching_rows server scope search hierarchy_scope sort_by sort_dir db.companies in
                let short : length whole ≤ limit = omega (
                  arith,
                  length-matching_rows db.companies,
                  length-select-le (selected server scope search hierarchy_scope) db.companies,
                  large,
                ) in
                let at_start =
                  subst (λ n. rows ≡ take limit (drop n whole)) first (page_listed filled) in
                subst (λ l. Elem (with_parent db.companies c) l)
                  (sym (at_start ∙ take-all limit whole short))
                  (Elem-matching_rows_of c db.companies there (ground arith))
          ]
