-- ===== src/Llm.antt =====
-- backend/app/llm/llm_service.py and the settings of llm_config.py: the text that grounds a question,
-- and the call of the chat API. The API, httpx and Python's formatting are parameters.
use balance_sheet_analysis.Prelude.{
  ℕ, String, Option, none, some, List, [], ◌∷◌, ◌++◌, ◌<>◌, leb, if◌then◌else◌,
}
use balance_sheet_analysis.Prelude.Equality.{◌==◌, string_eq, nat_eq}
use balance_sheet_analysis.Json.{Json, str, arr, obj, nil, item, Fields, end, field, lookup}
use balance_sheet_analysis.Exec.{
  Result, ok, err, key_error, index_error, type_error, attribute_error, uncaught, runtime_error,
}
use balance_sheet_analysis.Exec.Pure.{◌>>=◌}
use balance_sheet_analysis.Tables.{BalanceSheet, Float}

-- What Python makes of values: `str(n)`, `f"{x:,.0f}"`, `s.replace('_', ' ')`, `s.strip()` and `s[0]`
-- of a text that is not empty.
pub record Format : Type 0 where
  pub decimal : ℕ → String
  pub grouped : Float → String
  pub spaced : String → String
  pub strip : String → String
  pub first_character : String → String

-- A response, whose body is `none` where it is no JSON.
pub record Response : Type 0 where
  pub status_code : ℕ
  pub text : String
  pub body : Option Json

-- What `client.post` ends in: an httpx.HTTPError that says a text, another exception, or a response.
pub data Reply : Type 0 where
  http_error other_error : String → Reply
  response : Response → Reply

-- The settings, and the API as a function of the url, the headers and the body of a request.
pub record Groq : Type 0 where
  pub api_key : String
  pub api_url : String
  pub model : String
  pub post : String → Fields → Json → Reply

abbrev pub key_metrics : List String
key_metrics =
    "total_assets" ∷ "total_liabilities_net_minority_interest" ∷ "stockholders_equity"
    ∷ "total_debt" ∷ "net_debt" ∷ "current_assets" ∷ "current_liabilities" ∷ "working_capital"
    ∷ "cash_and_cash_equivalents" ∷ "retained_earnings" ∷ "inventory" ∷ "accounts_receivable" ∷ []

-- `getattr(sheet, field, None)` of a nullable column
unfoldable pub column_value : String → List (String × Float) → Option Float
column_value name [] = none
column_value name ((column, x) ∷ columns) =
    if column == name then some x else column_value name columns

-- `sorted(balance_sheets, key=lambda s: s.year)`, which is stable
unfoldable pub insert_by_key : BalanceSheet → List BalanceSheet → List BalanceSheet
insert_by_key b [] = b ∷ []
insert_by_key b (c ∷ cs) = if leb b.year c.year then b ∷ c ∷ cs else c ∷ insert_by_key b cs

unfoldable pub sorted_by_year : List BalanceSheet → List BalanceSheet
unfolding insert_by_key
sorted_by_year [] = []
sorted_by_year (b ∷ bs) = insert_by_key b (sorted_by_year bs)

unfoldable pub join_lines : List String → String
join_lines [] = ""
join_lines (line ∷ []) = line
join_lines (line ∷ next ∷ lines) = line <> "\n" <> join_lines (next ∷ lines)

module _ (format : Format) where
  unfoldable pub metric_lines : List String → BalanceSheet → List String
  unfolding column_value
  metric_lines [] sheet = []
  metric_lines (name ∷ names) sheet = elim (column_value name sheet.columns) [
    | none ↦ metric_lines names sheet
    | some value ↦
        ("  - " <> format.spaced name <> ": " <> format.grouped value) ∷ metric_lines names sheet
  ]

  unfoldable pub sheet_lines : List BalanceSheet → List String
  unfolding metric_lines
  sheet_lines [] = []
  sheet_lines (sheet ∷ sheets) =
      ("\nFiscal year " <> format.decimal sheet.year <> ":")
      ∷ (metric_lines key_metrics sheet ++ sheet_lines sheets)

  unfoldable pub build_grounding_context : String → String → List BalanceSheet → String
  unfolding sorted_by_year sheet_lines join_lines
  build_grounding_context company_name ticker [] =
      "No balance sheet data is currently on file for " <> company_name <> " (" <> ticker <> ")."
  build_grounding_context company_name ticker (sheet ∷ sheets) = join_lines (
      ("Balance sheet figures for " <> company_name <> " (" <> ticker
        <> "), in reporting currency:")
      ∷ sheet_lines (sorted_by_year (sheet ∷ sheets)))

  abbrev pub system_prompt : String → String
  system_prompt grounding_context =
      "You are a balance-sheet analysis assistant for company analysts and top-management. Answer the user's question using ONLY the balance sheet data provided below. Do not invent figures. If the data doesn't cover what's being asked, say so explicitly instead of guessing.\n\n"
      <> grounding_context

  abbrev pub message : String → String → Json
  message role content = obj (field "role" (str role) (field "content" (str content) end))

  abbrev pub request_body : String → String → String → Json
  request_body model question grounding_context = obj (
      field "model" (str model) (
        field "messages"
          (arr (
            item (message "system" (system_prompt grounding_context))
              (item (message "user" question) nil)))
          end))

  -- `value[key]` and `value[0]` of a JSON value
  unfoldable pub subscript : String → Json → Result Json
  subscript key (obj fs) = elim (lookup key fs) [ none ↦ err key_error | some v ↦ ok v ]
  subscript key _ = err type_error

  unfoldable pub first_item : Json → Result Json
  first_item (arr nil) = err index_error
  first_item (arr (item x xs)) = ok x
  first_item (obj fs) = err key_error
  first_item (str s) = if s == "" then err index_error else ok (str (format.first_character s))
  first_item _ = err type_error

  abbrev pub stripped : Json → Result String
  stripped (str s) = ok (format.strip s)
  stripped _ = err attribute_error

  -- `["choices"][0]["message"]["content"].strip()`
  unfoldable pub answer_in : Json → Result String
  unfolding subscript first_item
  answer_in body = do
    choices ← subscript "choices" body
    choice ← first_item choices
    message ← subscript "message" choice
    content ← subscript "content" message
    stripped content

  -- The `except` clause around it.
  abbrev pub or_unexpected : String → Result String → Result String
  or_unexpected text (ok answer) = ok answer
  or_unexpected text (err key_error) =
      err (runtime_error ("Unexpected Groq API response shape: " <> text))
  or_unexpected text (err index_error) =
      err (runtime_error ("Unexpected Groq API response shape: " <> text))
  or_unexpected text (err e) = err e

  -- What is made of the API's reply.
  unfoldable pub answer_of : Reply → Result String
  unfolding answer_in
  answer_of (http_error said) = err (runtime_error ("Failed to reach Groq API: " <> said))
  answer_of (other_error said) = err (uncaught said)
  answer_of (response r) =
      if r.status_code == 200
      then elim r.body [
        | none ↦ err (runtime_error ("Unexpected Groq API response shape: " <> r.text))
        | some body ↦ or_unexpected r.text (answer_in body)
      ]
      else err
          (runtime_error ("Groq API error (" <> format.decimal r.status_code <> "): " <> r.text))

  abbrev pub send : Groq → String → String → Reply
  send groq question grounding_context =
      groq.post groq.api_url
        (field "Authorization" (str ("Bearer " <> groq.api_key))
          (field "Content-Type" (str "application/json") end))
        (request_body groq.model question grounding_context)

  unfoldable pub ask_groq : Groq → String → String → Result String
  unfolding answer_of
  ask_groq groq question grounding_context =
      if groq.api_key == ""
      then err (runtime_error "GROQ_API_KEY is not configured")
      else answer_of (send groq question grounding_context)
