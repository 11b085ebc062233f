-- ===== src/Seed.antt =====
-- backend/app/seed/seed_base_policies.py, without what it prints.
pub mod Laws
mod Tests
use balance_sheet_analysis.Prelude.{ℕ, String, Bool, Option, none, some, List, [], ◌∷◌}
use balance_sheet_analysis.Json.{end}
use balance_sheet_analysis.Exec.{Exec, pure, ◌>>=◌, ◌>>◌}
use balance_sheet_analysis.Tables.{Database, Policy}
use balance_sheet_analysis.Access.Permissions.{
  company_read, company_create, company_update, company_delete, balance_sheet_read,
  balance_sheet_import, balance_sheet_delete, llm_chat,
}
use balance_sheet_analysis.Policies.Store.Mutations.{PolicyCreate, create_unowned, get_by_name}

-- An entry of BASE_POLICIES.
pub record BasePolicy : Type 0 where
  pub name : String
  pub description : String
  pub actions : List String

abbrev pub base_policies : List BasePolicy
base_policies =
    record {
      name = "role_company_viewer";
      description =
          "Read-only access to every company: view companies, view balance sheets, chat with the LLM.";
      actions = company_read ∷ balance_sheet_read ∷ llm_chat ∷ [];
    }
    ∷ record {
      name = "role_company_manager";
      description =
          "Full access to every company: everything role_company_viewer has, plus create/edit/delete companies and import/delete balance sheet data.";
      actions =
          company_read ∷ company_create ∷ company_update ∷ company_delete ∷ balance_sheet_read
          ∷ balance_sheet_import ∷ balance_sheet_delete ∷ llm_chat ∷ [];
    }
    ∷ []

abbrev pub payload_of : BasePolicy → PolicyCreate
payload_of base = record {
  name = base.name;
  description = some base.description;
  actions = base.actions;
  resource_type = "*";
  conditions = some end;
}

-- One turn of the loop, once the lookup has answered.
unfoldable pub seed_missing : BasePolicy → Option Policy → Exec Database (Unit {0})
seed_missing base (some policy) = pure tt
seed_missing base none = create_unowned (payload_of base) "system_seed" >> pure tt

unfoldable pub seed_policies : List BasePolicy → Exec Database (Unit {0})
unfolding seed_missing
seed_policies [] = pure tt
seed_policies (base ∷ bases) = do
  existing ← get_by_name base.name
  seed_missing base existing
  seed_policies bases

unfoldable pub seed_base_policies : Exec Database (Unit {0})
unfolding seed_policies
seed_base_policies = seed_policies base_policies
