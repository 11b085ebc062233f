-- ===== src/Exec/Errors.antt =====
-- The exceptions that the program raises, with what their messages name.
use balance_sheet_analysis.Prelude.{ℕ, String, Option, List}

-- What a `ValueError` says.
pub data Reason : Type 0 where
  parent_does_not_exist : ℕ → Reason
  -- "A company with ticker '...' already exists"; the text is Python's `None` where no ticker is sent
  ticker_taken : Option String → Reason
  own_parent : Reason
  cannot_reparent cannot_delete : String → ℕ → Reason
  balance_sheet_exists : ℕ → ℕ → Reason
  no_balance_sheet_data : String → ℕ → Reason

-- `detail` of an `HTTPException`: a fixed text, or `str(exc)` of what was caught.
pub data Detail : Type 0 where
  text : String → Detail
  reason : Reason → Detail
  -- a list of messages
  messages : List String → Detail

pub data Exception : Type 0 where
  value_error : Reason → Exception
  type_error attribute_error key_error index_error : Exception
  -- sqlalchemy.exc.IntegrityError, at a flush
  integrity_error : Exception
  -- pydantic.ValidationError of a response
  validation_error : Exception
  -- YFinanceFetchError, TickerLookupError, and RuntimeError of the LLM client
  fetch_error lookup_error runtime_error : String → Exception
  -- an exception of a class that no clause of the program names
  uncaught : String → Exception
  http_exception : ℕ → Detail → Exception
