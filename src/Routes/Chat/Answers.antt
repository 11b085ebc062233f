-- ===== src/Routes/Chat/Answers.antt =====
-- What the chat answers with, and what it writes.
use balance_sheet_analysis.Prelude.{◌&&◌, select, ◌≡◌, String, some}
use balance_sheet_analysis.Prelude.Equality.{◌==◌, nat_eq, string_eq}
use balance_sheet_analysis.Tables.{Database, Company}
use balance_sheet_analysis.Policies.Conditions.Library.{Environment}
use balance_sheet_analysis.Policies.Managed.{Managed}
use balance_sheet_analysis.Companies.Rows.{find_company}
use balance_sheet_analysis.BalanceSheets.Crud.{order_by_year, year_wanted}
use balance_sheet_analysis.Llm.{build_grounding_context, Format, Groq, send}
use balance_sheet_analysis.Routes.Chat.{ChatRequest}
use balance_sheet_analysis.Routes.Chat.Replies.{Answers}

module _ (format : Format) (groq : Groq) (env : Environment) (email : String)
    (payload : ChatRequest) where
  -- The text that the API answers to the question, sent with the figures of the company's rows.
  abbrev pub Grounded : Database → String → Type 0
  Grounded db answer =
      (company : Company) × (find_company payload.company_id db.companies ≡ some company)
      × Answers format
          (send format groq payload.question (
            build_grounding_context format company.name company.ticker (
              order_by_year (
                select (λ b. b.company_id == company.id && year_wanted payload.years b.year)
                  db.balance_sheets))))
          answer
