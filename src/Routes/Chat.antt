-- ===== src/Routes/Chat.antt =====
-- backend/app/api/llm_routes/llm_routes.py. The limit on the rate of questions is not modelled.
pub mod Laws
pub mod Replies
pub mod Answers
mod Tests
use balance_sheet_analysis.Prelude.{ℕ, String, Option, List}
use balance_sheet_analysis.Exec.{
  Result, ok, err, Exec, lift, ◌>>=◌, fetch_error, lookup_error, runtime_error, http_exception,
  text,
}
use balance_sheet_analysis.Tables.{Database, Company, BalanceSheet}
use balance_sheet_analysis.Access.Permissions.{resource_llm, llm_chat}
use balance_sheet_analysis.Policies.Conditions.Library.{Environment}
use balance_sheet_analysis.BalanceSheets.Crud.{list_balance_sheets_for_company_years}
use balance_sheet_analysis.Llm.{Format, Groq, build_grounding_context, ask_groq}
use balance_sheet_analysis.Routes.Guard.{checked_company}

-- The text of `question` has 1 to 2000 characters where the schema lets it through.
pub record ChatRequest : Type 0 where
  pub company_id : ℕ
  pub years : Option (List ℕ)
  pub question : String

-- `except RuntimeError as exc: raise HTTPException(502, ...)`, with the classes under RuntimeError
abbrev pub or_bad_gateway : {A : Type 0} → Result A → Result A
or_bad_gateway (err (runtime_error t)) = err (http_exception 502 (text t))
or_bad_gateway (err (fetch_error t)) = err (http_exception 502 (text t))
or_bad_gateway (err (lookup_error t)) = err (http_exception 502 (text t))
or_bad_gateway r = r

module _ (format : Format) (groq : Groq) where
  abbrev pub answer_about : Company → String → List BalanceSheet → Result String
  answer_about company question balance_sheets = or_bad_gateway (
      ask_groq format groq question
        (build_grounding_context format company.name company.ticker balance_sheets))

  -- What `chat` does once the check has passed.
  abbrev pub discuss : ChatRequest → Company → Exec Database String
  discuss payload company =
      list_balance_sheets_for_company_years company.id payload.years >>= λ balance_sheets.
      lift (answer_about company payload.question balance_sheets)

  unfoldable pub chat : Environment → String → ChatRequest → Exec Database String
  chat env email payload =
      checked_company env email llm_chat resource_llm payload.company_id >>= discuss payload
