-- ===== src/Routes/Tests.antt =====
-- Runs of the handlers on small databases, and the theorems about them applied to these.
use balance_sheet_analysis.Prelude.{
  ℕ, true, false, ◌+◌, ◌-◌, ◌↔◌, inl, inr, Elem, leb, if◌then◌else◌, arith, ◌≡◌, refl, none, some,
  List, [], ◌∷◌,
}
use balance_sheet_analysis.Prelude.Int.{pos}
use balance_sheet_analysis.Json.{int, hashable, end, lookup, get, truthy, items_of, json_eq}
use balance_sheet_analysis.Exec.{ok, pure, ◌>>=◌}
use balance_sheet_analysis.Tables.{Database, Company}
use balance_sheet_analysis.Examples.{empty_database, empty-IsValid, two_groups, holding}
use balance_sheet_analysis.Access.Permissions.{company_read, resource_company}
use balance_sheet_analysis.Access.Scope.{
  resource_scope_dict, CompanyScope, is_empty, in_scope, scope_of_policies, add_policies, applies,
  add_policy as add_scope_policy, resource_attributes, add_found, add_attributes, add_value,
}
use balance_sheet_analysis.Access.Plain.{AllPlain, group, company}
use balance_sheet_analysis.Companies.Listing.{
  Row, hierarchy_filter, search_filter, selected, with_parent, matching_rows, order_rows,
  insert_row, row_le, ascending, column_le, list_companies_in_scope, count_companies_in_scope,
}
use balance_sheet_analysis.Companies.Listing.Laws.{
  Elem-list_companies_in_scope, length-list_companies_in_scope,
}
use balance_sheet_analysis.Companies.Listing.Tests.{by_length}
use balance_sheet_analysis.Policies.Service.{get_company_scope}
use balance_sheet_analysis.Routes.Listing.{CompanyStatsRead, list_companies, get_company_stats}
use balance_sheet_analysis.Routes.Listing.Laws.{get_company_stats-adds_up, list_companies-allowed}
use balance_sheet_analysis.Access.Tests.{no_library, two_policies, second_granted}
use balance_sheet_analysis.Companies.Crud.{create_company, get_parent, insert_company}
use balance_sheet_analysis.Policies.Conditions.{
  registry, evaluate_handler, condition_holds, failed_keys, evaluate_conditions,
}
use balance_sheet_analysis.Policies.Conditions.Attributes.{all_equal, attributes_match}
use balance_sheet_analysis.Policies.Repository.{
  active_policies, is_assigned, get_active_policies_for_user,
}
use balance_sheet_analysis.Policies.Engine.{
  evaluate, evaluate_detailed, tally_policies, add_policy, concerns, add_result, decision_of,
}
use balance_sheet_analysis.Validity.{IsValid}
use balance_sheet_analysis.Routes.Guard.{checked_company}
use balance_sheet_analysis.Policies.Service.Laws.{decided, logged}
use balance_sheet_analysis.Routes.Guard.Laws.{checked_company-decided}
use balance_sheet_analysis.Routes.Reachable.{
  Request, add, manage, serve, start, after, Reachable-IsValid,
}

-- Two groups, and a user who may read the first.
abbrev with_reader : Database
with_reader = record two_groups {
  users = record { id = 1; email = "a@b.c" } ∷ [];
  policies = two_policies;
  user_policies =
      record { user_id = 1; policy_id = 1; assigned_by = none }
      ∷ record { user_id = 1; policy_id = 2; assigned_by = none }
      ∷ [];
}

abbrev second_company : Company
second_company = record {
  id = 2;
  name = "Subsidiary";
  ticker = "SUB";
  parent_company_id = some 1;
  group_root_id = 1;
  created_at = 100;
  updated_at = 100;
}

decided_example :
    decided no_library "a@b.c" company_read resource_company
      (some (resource_scope_dict 2 1))
      none
      with_reader
    ≡ ok second_granted
unfolding create_company get_parent insert_company active_policies is_assigned evaluate_detailed
    tally_policies add_policy concerns add_result decision_of evaluate_conditions failed_keys
    condition_holds registry evaluate_handler attributes_match all_equal resource_scope_dict truthy
    items_of json_eq get lookup
decided_example = refl

checked_company-decided_example :
    (checked_company no_library "a@b.c" company_read resource_company 2 >>= λ company.
    pure company.name)
      with_reader
    ≡ (
      ok "Subsidiary",
      logged no_library "a@b.c" company_read resource_company
          (some (resource_scope_dict 2 1))
          none
          second_granted
          with_reader,
    )
unfolding create_company get_parent insert_company
checked_company-decided_example =
    checked_company-decided no_library "a@b.c" company_read resource_company 2
      (λ company. pure company.name) with_reader second_company refl second_granted decided_example

abbrev first_request : Request
first_request = add no_library "a@b.c" end holding

abbrev hired : Request
hired = manage with_reader.users with_reader.policies with_reader.user_policies

Reachable-IsValid_example : IsValid (serve first_request (serve hired empty_database))
Reachable-IsValid_example =
    Reachable-IsValid empty-IsValid (after first_request (after hired (start refl) refl) refl)

-- Texts in the order of their lengths, and a match of every pattern.
abbrev group_scope : CompanyScope
group_scope = record { unrestricted = false; company_ids = []; group_root_ids = int (pos 1) ∷ [] }

abbrev first_row : Row
first_row = (
  record {
    id = 1;
    name = "Holding";
    ticker = "HLD";
    parent_company_id = none;
    group_root_id = 1;
    created_at = 100;
    updated_at = 100;
  },
  none,
)

abbrev second_row : Row
second_row = (second_company, some "Holding")

by_name_example :
    (list_companies_in_scope by_length group_scope 5 0 none none (some "name") "desc" two_groups).0
    ≡ ok (second_row ∷ first_row ∷ [])
unfolding create_company get_parent insert_company list_companies_in_scope is_empty in_scope
    matching_rows selected search_filter hierarchy_filter with_parent order_rows insert_row row_le
    ascending column_le json_eq
by_name_example = refl

counted_example : (count_companies_in_scope by_length group_scope none none two_groups).0 ≡ ok 2
unfolding create_company get_parent insert_company count_companies_in_scope is_empty in_scope
    selected search_filter hierarchy_filter json_eq
counted_example = refl

Elem-list_companies_in_scope_example :
    (c : Company) × Elem c two_groups.companies
    × (in_scope group_scope c.id c.group_root_id ≡ true)
    × (hierarchy_filter none c ≡ true)
    × (search_filter by_length none c ≡ true)
    × (first_row ≡ with_parent two_groups.companies c)
Elem-list_companies_in_scope_example =
    Elem-list_companies_in_scope by_length group_scope none none (some "name") "desc" 5 0 two_groups
      (second_row ∷ first_row ∷ []) by_name_example first_row (inr (inl refl))

length-list_companies_in_scope_example : 2 ≡ (if leb 5 (2 - 0) then 5 else 2 - 0)
length-list_companies_in_scope_example =
    length-list_companies_in_scope by_length group_scope none none (some "name") "desc" 5 0
      two_groups (second_row ∷ first_row ∷ []) by_name_example 2 counted_example

abbrev reader_stats : CompanyStatsRead
reader_stats = record { total = 2; group_roots = 1; subsidiaries = 1 }

stats_example : (get_company_stats by_length "a@b.c" with_reader).0 ≡ ok reader_stats
unfolding create_company get_parent insert_company get_company_stats get_company_scope
    get_active_policies_for_user active_policies is_assigned scope_of_policies add_policies applies
    add_scope_policy resource_attributes add_found add_attributes add_value count_companies_in_scope
    is_empty in_scope selected search_filter hierarchy_filter json_eq truthy lookup hashable
stats_example = refl

get_company_stats-adds_up_example : 2 ≡ 1 + 1
get_company_stats-adds_up_example =
    get_company_stats-adds_up by_length "a@b.c" with_reader reader_stats stats_example

plain_reader : AllPlain (active_policies with_reader "a@b.c")
unfolding active_policies is_assigned
plain_reader = ((group 1, refl), ((company 7, refl), tt))

list_companies-allowed_example :
    (total : ℕ) × (rows : List Row) × ((list_companies by_length "a@b.c" 10 0 none none none "asc"
        with_reader).0
      ≡ ok (total, rows))
    × ((r : Row)
        → Elem r rows ↔ (
            (c : Company) × Elem c with_reader.companies
            × (r ≡ with_parent with_reader.companies c)
            × (evaluate no_library company_read resource_company "a@b.c"
                  (some (resource_scope_dict c.id c.group_root_id))
                  none
                  (active_policies with_reader "a@b.c")
                ≡ ok true)))
unfolding create_company get_parent insert_company
list_companies-allowed_example =
    list_companies-allowed by_length "a@b.c" with_reader no_library none 10 none "asc" plain_reader
      (omega arith)
