-- ===== src/Routes/Listing/Laws.antt =====
-- What the list of companies shows of the checks of single companies, and what the counts add up
-- to.
use balance_sheet_analysis.Prelude.{
  take, [], if◌then◌else◌, ℕ, ◌+◌, ◌≤◌, String, true, ◌≡◌, refl, sym, ap, ◌∙◌, inl, inr, ◌↔◌,
  Option, none, some, List, arith, length, select, Elem, length-select-split,
}
use mathlib.Core.Path.{subst}
use balance_sheet_analysis.Json.{Fields}
use balance_sheet_analysis.Exec.{Result, ok, Exec, continue, ◌>>=◌, pure}
use balance_sheet_analysis.Exec.Pure.{Result-cases}
use balance_sheet_analysis.Tables.{Database, Company}
use balance_sheet_analysis.Access.Permissions.{resource_company, company_read}
use balance_sheet_analysis.Access.Scope.{
  CompanyScope, is_empty, scope_of_policies, resource_scope_dict,
}
use balance_sheet_analysis.Access.Plain.{AllPlain, scope_agrees}
use balance_sheet_analysis.Policies.Conditions.Library.{Environment}
use balance_sheet_analysis.Policies.Engine.{evaluate}
use balance_sheet_analysis.Policies.Repository.{active_policies, get_active_policies_for_user}
use balance_sheet_analysis.Policies.Service.{get_company_scope}
use balance_sheet_analysis.Companies.Listing.{
  Collation, root, subsidiary, Row, with_parent, hierarchy_filter, search_filter, selected,
  matching_rows, list_companies_in_scope, count_companies_in_scope,
}
use balance_sheet_analysis.Companies.Listing.Laws.{
  ok-injective, Elem-list_companies_in_scope, list_companies_in_scope-Elem,
}
use balance_sheet_analysis.Routes.Listing.{CompanyStatsRead, list_companies, get_company_stats}

module _ (server : Collation) (email : String) (db : Database) where
  split_by_parent :
      (scope : CompanyScope) (cs : List Company)
      → length (select (selected server scope none none) cs)
        ≡ length (select (selected server scope none (some root)) cs)
          + length (select (selected server scope none (some subsidiary)) cs)
  unfolding selected hierarchy_filter
  split_by_parent scope cs =
      length-select-split (selected server scope none none) (selected server scope none (some root))
        (selected server scope none (some subsidiary)) cs (λ c. ground arith)

  -- The companies that a user may see are the group roots among them and the subsidiaries.
  pub get_company_stats-adds_up :
      (stats : CompanyStatsRead)
      → (get_company_stats server email db).0 ≡ ok stats
      → stats.total ≡ stats.group_roots + stats.subsidiaries
  unfolding get_company_stats get_company_scope count_companies_in_scope
      get_active_policies_for_user
  get_company_stats-adds_up stats h =
      elim (Result-cases
        (scope_of_policies (active_policies db email) company_read resource_company)) [
          | inl (scope, e) ↦ ground (arith, split_by_parent scope db.companies)
          | inr (x, e) ↦ ground arith
        ]

  abbrev answer : ℕ → Option String → String → CompanyScope → Exec Database (ℕ × List Row)
  answer limit sort_by sort_dir scope = do
    total ← count_companies_in_scope server scope none none
    rows ← list_companies_in_scope server scope limit 0 none none sort_by sort_dir
    pure (total, rows)

  abbrev rows_of : CompanyScope → ℕ → Option String → String → List Row
  rows_of scope limit sort_by sort_dir =
      if is_empty scope
      then []
      else take limit (matching_rows server scope none none sort_by sort_dir db.companies)

  -- Where every policy of the user is for every company, for one company or for one group, the
  -- list is made, and a first page whose limit is large enough shows exactly the companies on
  -- file that the check of a single company allows, each with its parent's name.
  pub list_companies-allowed :
      (env : Environment) (context : Option Fields) (limit : ℕ) (sort_by : Option String)
      (sort_dir : String)
      → AllPlain (active_policies db email)
      → length db.companies ≤ limit
      → (total : ℕ) × (rows : List Row) × ((list_companies server email limit 0 none none sort_by
            sort_dir db).0
          ≡ ok (total, rows))
        × ((r : Row)
            → Elem r rows ↔ (
                (c : Company) × Elem c db.companies
                × (r ≡ with_parent db.companies c)
                × (evaluate env company_read resource_company email
                      (some (resource_scope_dict c.id c.group_root_id))
                      context
                      (active_policies db email)
                    ≡ ok true)))
  unfolding list_companies get_company_scope count_companies_in_scope list_companies_in_scope
      get_active_policies_for_user search_filter hierarchy_filter
  list_companies-allowed env context limit sort_by sort_dir plain large =
      let (scope, made, agrees) =
        scope_agrees env company_read resource_company email context (active_policies db email)
          plain in
      let page = rows_of scope limit sort_by sort_dir in
      let total =
        if is_empty scope
        then 0
        else length (select (selected server scope none none) db.companies) in
      (
        total,
        page,
        ap (λ (r : Result CompanyScope). (continue (r, db) (answer limit sort_by sort_dir)).0) made,
        λ r. (
          λ h.
              let (c, there, reached, _, _, e) =
                Elem-list_companies_in_scope server scope none none sort_by sort_dir limit 0 db page
                  refl r h in
              (c, there, e, agrees c.id c.group_root_id ∙ ap (λ b. ok b) reached),
          λ k.
              let (c, there, e, allowed) = k in
              subst (λ q. Elem q page) (sym e)
                (list_companies_in_scope-Elem server scope none none sort_by sort_dir limit 0 db
                  page refl refl large c there
                  (ok-injective _ _ (sym (agrees c.id c.group_root_id) ∙ allowed)) refl refl),
        ),
      )
