-- ===== src/Companies/Tests.antt =====
-- Runs of Companies/Crud.antt on a small database, and the theorems about them applied to it.
use balance_sheet_analysis.Prelude.{◌≡◌, refl, none, some, map, [], ◌∷◌}
use balance_sheet_analysis.Exec.{err, value_error, cannot_delete}
use balance_sheet_analysis.Tables.{Company}
use balance_sheet_analysis.Validity.{IsValid, IsValidAfter}
use balance_sheet_analysis.Examples.{two_groups, two_groups-IsValid}
use balance_sheet_analysis.Companies.Schema.{CompanyCreate, CompanyUpdate, unset, sent}
use balance_sheet_analysis.Companies.Crud.{
  get_parent, insert_company, create_company, reparent, resolve_parent, stamped, commit_company,
  update_company, delete_company,
}
use balance_sheet_analysis.Companies.Preserves.Create.{create_company-IsValid}
use balance_sheet_analysis.Companies.Preserves.Update.{update_company-IsValid}
use balance_sheet_analysis.Companies.Preserves.Delete.{delete_company-IsValid}

abbrev below_subsidiary : CompanyCreate
below_subsidiary = record { name = "Below"; ticker = "BLW"; parent_company_id = some 2 }

abbrev move_other : CompanyUpdate
move_other = record { name = unset; ticker = unset; parent_company_id = sent (some 2) }

-- The rows with ids 1 and 3 of the database.
abbrev pub first_company : Company
first_company = record {
  id = 1;
  name = "Holding";
  ticker = "HLD";
  parent_company_id = none;
  group_root_id = 1;
  created_at = 100;
  updated_at = 100;
}

abbrev pub third_company : Company
third_company = record {
  id = 3;
  name = "Other";
  ticker = "OTH";
  parent_company_id = none;
  group_root_id = 3;
  created_at = 100;
  updated_at = 100;
}

roots_example : map (λ (c : Company). c.group_root_id) two_groups.companies ≡ 1 ∷ 1 ∷ 3 ∷ []
unfolding create_company get_parent insert_company
roots_example = refl

moved_example :
    map
      (λ (c : Company). c.group_root_id)
      (update_company third_company move_other two_groups).1.companies
    ≡ 1 ∷ 1 ∷ 1 ∷ []
unfolding create_company get_parent insert_company update_company resolve_parent reparent
    commit_company stamped
moved_example = refl

delete_refused_example :
    (delete_company first_company two_groups).0 ≡ err (value_error (cannot_delete "Holding" 1))
unfolding create_company get_parent insert_company delete_company
delete_refused_example = refl

create_company-IsValid_example : IsValid (create_company below_subsidiary two_groups).1
create_company-IsValid_example =
    create_company-IsValid two_groups two_groups-IsValid below_subsidiary

update_company-IsValid_example : IsValidAfter (update_company third_company move_other two_groups)
unfolding create_company get_parent insert_company
update_company-IsValid_example =
    update_company-IsValid two_groups two_groups-IsValid third_company refl move_other

delete_company-IsValid_example : IsValidAfter (delete_company third_company two_groups)
delete_company-IsValid_example = delete_company-IsValid two_groups two_groups-IsValid third_company
