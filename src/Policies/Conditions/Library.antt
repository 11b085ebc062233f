-- ===== src/Policies/Conditions/Library.antt =====
-- What the condition handlers, the validator and the routes take from Python's library and from the
-- clock, as parameters.
use balance_sheet_analysis.Prelude.{ℕ, String, Bool, Option, none, some}
use balance_sheet_analysis.Json.{Json, Fields, end}

-- A value that the library refuses by an exception is `none`. Instants, times of day,
-- dates and addresses are numbers
-- that keep the
-- library's order.
pub record Environment : Type 0 where
  pub now : ℕ
  -- datetime.fromisoformat, where a time with no offset is UTC
  pub parse_datetime : String → Option ℕ
  -- time.fromisoformat, date.fromisoformat
  pub parse_time : String → Option ℕ
  -- whether a time that is parsed has an offset
  pub has_offset : String → Bool
  pub parse_date : String → Option ℕ
  -- ZoneInfo(name), and an instant's time of day and date in that zone
  pub zone_exists : String → Bool
  -- `name in available_timezones()`
  pub available_timezone : String → Bool
  pub time_in_zone : String → ℕ → ℕ
  pub date_in_zone : String → ℕ → ℕ
  -- ipaddress.ip_address; membership in ip_network(entry, strict=False)
  pub parse_address : Json → Option ℕ
  pub in_network : ℕ → String → Option Bool
  -- ip_network(entry, strict=False) raises nothing
  pub is_network : String → Bool
  -- repr(v), s.strip() and s.lower()
  pub repr : Json → String
  pub strip : String → String
  pub lower : String → String

-- `context or {}`
abbrev pub or_empty : Option Fields → Fields
or_empty none = end
or_empty (some fs) = fs
