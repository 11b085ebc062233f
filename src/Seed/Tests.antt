-- ===== src/Seed/Tests.antt =====
-- The theorem about the seeding applied to an empty database.
use balance_sheet_analysis.Prelude.{◌≡◌, All}
use balance_sheet_analysis.Exec.{ok}
use balance_sheet_analysis.Examples.{empty_database}
use balance_sheet_analysis.Seed.{base_policies, seed_base_policies}
use balance_sheet_analysis.Seed.Laws.{Stored, seed_base_policies-twice}

seed_base_policies-twice_example :
    ((seed_base_policies empty_database).0 ≡ ok tt)
    × All (Stored (seed_base_policies empty_database).1) base_policies
    × (seed_base_policies (seed_base_policies empty_database).1
        ≡ (ok tt, (seed_base_policies empty_database).1))
seed_base_policies-twice_example = seed_base_policies-twice empty_database
