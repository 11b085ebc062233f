-- ===== src/Routes/Tickers.antt =====
-- backend/app/api/company_routes/company_routes.py: the name of a ticker and the search for tickers,
-- without the limits on their rates.
use balance_sheet_analysis.Prelude.{String, Option, none, some, List, [], ◌∷◌}
use balance_sheet_analysis.Json.{Json, null, str, Fields}
use balance_sheet_analysis.Exec.{
  Result, ok, err, Exec, lift, ◌>>◌, validation_error, lookup_error, http_exception, text,
}
use balance_sheet_analysis.Tables.{Database}
use balance_sheet_analysis.Access.Permissions.{resource_company, company_create}
use balance_sheet_analysis.Policies.Conditions.Library.{Environment}
use balance_sheet_analysis.Policies.Service.{require}
use balance_sheet_analysis.Companies.Tickers.{
  Yahoo, Match, lookup_company_name_by_ticker, search_company_tickers,
}

pub record TickerLookupResponse : Type 0 where
  pub ticker : String
  pub name : Option String

pub record TickerSearchResult : Type 0 where
  pub ticker : String
  pub name : String
  pub exchange : String

pub record TickerSearchResponse : Type 0 where
  pub query : String
  pub results : List TickerSearchResult

-- `except TickerLookupError as exc: raise HTTPException(502, ...)`
abbrev pub or_unavailable : {A : Type 0} → Result A → Result A
or_unavailable (err (lookup_error t)) = err (http_exception 502 (text t))
or_unavailable r = r

-- What the fields of the responses take.
abbrev pub text_field : Json → Result String
text_field (str s) = ok s
text_field _ = err validation_error

abbrev pub optional_text_field : Json → Result (Option String)
optional_text_field null = ok none
optional_text_field (str s) = ok (some s)
optional_text_field _ = err validation_error

abbrev pub then_do : {A B : Type 0} → Result A → (A → Result B) → Result B
then_do (err e) next = err e
then_do (ok a) next = next a

abbrev pub search_result : Match → Result TickerSearchResult
search_result found = then_do (text_field found.ticker) λ ticker.
    then_do (text_field found.name) λ name.
      then_do (text_field found.exchange)
        λ exchange. ok (record { ticker = ticker; name = name; exchange = exchange })

unfoldable pub search_results : List Match → Result (List TickerSearchResult)
search_results [] = ok []
search_results (found ∷ rest) =
    let others = search_results rest in
    then_do (search_result found) λ result. then_do others λ results. ok (result ∷ results)

module _ (env : Environment) (yahoo : Yahoo) (email : String) (context : Fields) where
  unfoldable pub lookup_company_ticker : String → Exec Database TickerLookupResponse
  lookup_company_ticker ticker = do
    require env email company_create resource_company none (some context)
    lift (
        then_do (or_unavailable (lookup_company_name_by_ticker yahoo ticker)) λ found.
          then_do (optional_text_field found) λ name. ok (record { ticker = ticker; name = name }))

  unfoldable pub search_tickers : String → Exec Database TickerSearchResponse
  unfolding search_results
  search_tickers query = do
    require env email company_create resource_company none (some context)
    lift (
        then_do (or_unavailable (search_company_tickers yahoo query)) λ found.
          then_do (search_results found)
            λ results. ok (record { query = query; results = results }))
