-- ===== src/Routes/Listing.antt =====
-- backend/app/api/company_routes/company_routes.py: the list of companies and the counts. The
-- queries of one request are taken to see the same rows.
pub mod Laws
use balance_sheet_analysis.Prelude.{ℕ, String, Option, none, some, List}
use balance_sheet_analysis.Exec.{Result, ok, err, Exec, pure, ◌>>=◌}
use balance_sheet_analysis.Tables.{Database, Company}
use balance_sheet_analysis.Access.Permissions.{resource_company, company_read}
use balance_sheet_analysis.Access.Scope.{CompanyScope}
use balance_sheet_analysis.Policies.Service.{get_company_scope}
use balance_sheet_analysis.Companies.Listing.{
  Collation, HierarchyScope, root, subsidiary, Row, list_companies_in_scope,
  count_companies_in_scope,
}

-- CompanyStatsRead
pub record CompanyStatsRead : Type 0 where
  pub total : ℕ
  pub group_roots : ℕ
  pub subsidiaries : ℕ

module _ (server : Collation) (email : String) where
  -- The header X-Total-Count, and the rows of the body.
  unfoldable pub list_companies :
      ℕ
      → ℕ
      → Option String
      → Option HierarchyScope
      → Option String
      → String
      → Exec Database (ℕ × List Row)
  unfolding get_company_scope list_companies_in_scope count_companies_in_scope
  list_companies limit offset search hierarchy sort_by sort_dir = do
    scope ← get_company_scope email company_read resource_company
    total ← count_companies_in_scope server scope search hierarchy
    rows ← list_companies_in_scope server scope limit offset search hierarchy sort_by sort_dir
    pure (total, rows)

  unfoldable pub get_company_stats : Exec Database CompanyStatsRead
  unfolding get_company_scope count_companies_in_scope
  get_company_stats = do
    scope ← get_company_scope email company_read resource_company
    total ← count_companies_in_scope server scope none none
    group_roots ← count_companies_in_scope server scope none (some root)
    subsidiaries ← count_companies_in_scope server scope none (some subsidiary)
    pure (record { total = total; group_roots = group_roots; subsidiaries = subsidiaries })
