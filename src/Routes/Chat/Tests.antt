-- ===== src/Routes/Chat/Tests.antt =====
-- The theorems about the chat applied to a small database.
use balance_sheet_analysis.Prelude.{ℕ, ◌≡◌, refl, none, some, [], ◌∷◌}
use balance_sheet_analysis.Prelude.Int.{pos}
use balance_sheet_analysis.Json.{str, arr, obj, item, nil, field, end}
use balance_sheet_analysis.Tables.{Database, Company, BalanceSheet, finite}
use balance_sheet_analysis.Access.Tests.{no_library}
use balance_sheet_analysis.Llm.{Format, Groq, response}
use balance_sheet_analysis.Policies.Managed.Example.{seeded}
use balance_sheet_analysis.Routes.Chat.{ChatRequest, chat}
use balance_sheet_analysis.Routes.Chat.Laws.{chat-own_sheets}

abbrev plain : Format
plain = record {
  decimal = λ n. "2024";
  grouped = λ x. "7";
  spaced = λ s. s;
  strip = λ s. s;
  first_character = λ s. s;
}

-- An API that says one thing.
abbrev agreeing : Groq
agreeing = record {
  api_key = "key";
  api_url = "url";
  model = "model";
  post = λ url headers body. response (record {
    status_code = 200;
    text = "yes";
    body = some (
        obj (
          field "choices"
            (arr (item (obj (field "message" (obj (field "content" (str "yes") end)) end)) nil))
            end));
  });
}

abbrev company_of : ℕ → Company
company_of id = record {
  id = id;
  name = "Holding";
  ticker = "HLD";
  parent_company_id = none;
  group_root_id = id;
  created_at = 100;
  updated_at = 100;
}

abbrev sheet_of : ℕ → ℕ → BalanceSheet
sheet_of id company_id = record {
  id = id;
  company_id = company_id;
  year = 2024;
  created_at = 100;
  columns = ("total_assets", finite (pos 7) (pos 0)) ∷ [];
}

abbrev with_sheet : Database
with_sheet = record seeded {
  companies = company_of 1 ∷ company_of 2 ∷ [];
  balance_sheets = sheet_of 1 1 ∷ [];
}

abbrev question : ChatRequest
question = record { company_id = 1; years = none; question = "Any debt?" }

chat-own_sheets_example :
    (chat plain agreeing no_library "root" question
      (record with_sheet { balance_sheets = sheet_of 2 2 ∷ sheet_of 1 1 ∷ [] })).0
    ≡ (chat plain agreeing no_library "root" question with_sheet).0
chat-own_sheets_example =
    chat-own_sheets plain agreeing no_library "root" question with_sheet
      (sheet_of 2 2 ∷ sheet_of 1 1 ∷ []) refl
