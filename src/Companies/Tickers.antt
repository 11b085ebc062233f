-- ===== src/Companies/Tickers.antt =====
-- backend/app/companies/company_crud.py: the name of a ticker and the search for tickers. yfinance is
-- a parameter: `Ticker(t).info` and `Search(q).quotes`, or the text of the exception that they raise.
use balance_sheet_analysis.Prelude.{
  ℕ, String, not, ◌||◌, ◌<>◌, ◌⊎◌, inl, inr, List, [], ◌∷◌, if◌then◌else◌,
}
use balance_sheet_analysis.Json.{Json, str, Fields, get, truthy}
use balance_sheet_analysis.Exec.{Result, ok, err, lookup_error}

abbrev pub ticker_search_max_results : ℕ
ticker_search_max_results = 8

-- What yfinance answers, the search with the number of results that it is asked for.
pub record Yahoo : Type 0 where
  pub info : String → String ⊎ Fields
  pub quotes : String → ℕ → String ⊎ List Fields

-- `a or b`
abbrev pub or_else : Json → Json → Json
or_else a b = if truthy a then a else b

-- The value is None, or whatever yfinance has under the key.
unfoldable pub lookup_company_name_by_ticker : Yahoo → String → Result Json
lookup_company_name_by_ticker yahoo ticker = elim (yahoo.info ticker) [
  | inl said ↦
      err (lookup_error ("Failed to look up ticker '" <> ticker <> "' from yfinance: " <> said))
  | inr info ↦ ok (or_else (get "longName" info) (get "shortName" info))
]

-- A result of the search.
pub record Match : Type 0 where
  pub ticker : Json
  pub name : Json
  pub exchange : Json

abbrev pub symbol_of : Fields → Json
symbol_of quote = get "symbol" quote

abbrev pub name_of : Fields → Json
name_of quote = or_else (get "longname" quote) (get "shortname" quote)

abbrev pub match_of : Fields → Match
match_of quote = record {
  ticker = symbol_of quote;
  name = name_of quote;
  exchange = or_else (or_else (get "exchDisp" quote) (get "exchange" quote)) (str "");
}

-- The loop over the quotes.
unfoldable pub matches : List Fields → List Match
matches [] = []
matches (quote ∷ quotes) =
    let rest = matches quotes in
    if not (truthy (symbol_of quote)) || not (truthy (name_of quote))
    then rest
    else match_of quote ∷ rest

unfoldable pub search_company_tickers : Yahoo → String → Result (List Match)
unfolding matches
search_company_tickers yahoo query = elim (yahoo.quotes query ticker_search_max_results) [
  | inl said ↦
      err (lookup_error ("Failed to search tickers for '" <> query <> "' from yfinance: " <> said))
  | inr quotes ↦ ok (matches quotes)
]
