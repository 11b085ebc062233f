-- ===== src/Policies/Conditions/Bounded.antt =====
-- The condition handlers that deny on any exception: time, date_range and network.
use text.Mathlib.Text.{find?}
use balance_sheet_analysis.Prelude.{
  ℕ, String, Bool, true, false, not, ◌&&◌, ◌||◌, Option, none, some, is_some, ltb, leb, nat_beq,
  if◌then◌else◌,
}
use balance_sheet_analysis.Json.{
  Json, null, str, arr, obj, Items, nil, item, Fields, end, field, get, truthy,
}
use balance_sheet_analysis.Policies.Conditions.Library.{Environment, or_empty}

-- A chain of steps any of which may raise, and the handlers' `except Exception: return False`.
infixl 5 ◌>>=◌
abbrev pub ◌>>=◌ : {A B : Type 0} → Option A → (A → Option B) → Option B
none >>= f = none
some a >>= f = f a

abbrev pub or_deny : Option Bool → Bool
or_deny none = false
or_deny (some b) = b

-- `fromisoformat(v)`: what is no text raises.
abbrev pub parse_text : (String → Option ℕ) → Json → Option ℕ
parse_text parse (str s) = parse s
parse_text parse _ = none

-- `v.get(k)` of a condition's value, which should be a dict.
abbrev pub get_of : String → Json → Option Json
get_of k (obj fs) = some (get k fs)
get_of k _ = none

abbrev pub is_null : Json → Bool
is_null null = true
is_null _ = false

unfoldable pub within : ℕ → ℕ → ℕ → Bool
within start finish current =
    if leb start finish
    then leb start current && leb current finish
    else leb start current || leb current finish

-- `bound and outside(current, date.fromisoformat(bound))`
unfoldable pub bound_broken : (String → Option ℕ) → (ℕ → ℕ → Bool) → Json → ℕ → Option Bool
bound_broken parse outside bound current =
    if truthy bound then (do d ← parse_text parse bound; some (outside current d)) else some false

-- The keys of a dict, over which a loop goes.
abbrev pub keys_of : Fields → Items
keys_of end = nil
keys_of (field k _ fs) = item (str k) (keys_of fs)

-- What `for entry in allowed_ips` goes over. A text would give its characters, none of which is
-- an address, so the first raises; a number or a Boolean raises.
unfoldable pub entries : Json → Option Items
entries (arr xs) = some xs
entries (obj fs) = some (keys_of fs)
entries _ = none

module _ (env : Environment) where
  -- clock.py: the override in the context, or the clock
  unfoldable pub resolve_current_datetime : Option Fields → Option ℕ
  resolve_current_datetime context =
      let override = get "current_time" (or_empty context) in
      if truthy override then parse_text env.parse_datetime override else some env.now

  -- `ZoneInfo(value or "UTC")`
  unfoldable pub zone_of : Json → Option String
  zone_of (str s) =
      if truthy (str s) then (if env.zone_exists s then some s else none) else some "UTC"
  zone_of v = if truthy v then none else some "UTC"

  -- `time.fromisoformat` of a bound. The current time has no offset, and a comparison of it with a
  -- bound that has one raises TypeError.
  unfoldable pub parse_bound : Json → Option ℕ
  parse_bound (str s) = if env.has_offset s then none else env.parse_time s
  parse_bound _ = none

  unfoldable pub in_daily_window : Json → Json → Json → Option Fields → Option Bool
  unfolding zone_of resolve_current_datetime within parse_bound
  in_daily_window start_str end_str timezone context = do
    tz ← zone_of timezone
    start ← parse_bound start_str
    finish ← parse_bound end_str
    now ← resolve_current_datetime context
    some (within start finish (env.time_in_zone tz now))

  unfoldable pub time_condition : Json → Option Fields → Bool
  unfolding in_daily_window
  time_condition value context = or_deny do
    start_str ← get_of "start" value
    end_str ← get_of "end" value
    timezone ← get_of "timezone" value
    if truthy start_str && truthy end_str
        then in_daily_window start_str end_str timezone context
        else some false

  unfoldable pub in_date_range : Json → Json → Option Fields → Option Bool
  unfolding bound_broken resolve_current_datetime
  in_date_range start_str end_str context = do
    now ← resolve_current_datetime context
    let current_date = env.date_in_zone "UTC" now
    early ← bound_broken env.parse_date ltb start_str current_date
    let late = bound_broken env.parse_date (λ c d. ltb d c) end_str current_date
    if early then some false else do is_late ← late; some (not is_late)

  unfoldable pub date_range_condition : Json → Option Fields → Bool
  unfolding in_date_range
  date_range_condition value context = or_deny do
    start_str ← get_of "start" value
    end_str ← get_of "end" value
    if is_null start_str && is_null end_str
        then some false
        else in_date_range start_str end_str context

  -- An entry that is no text raises at `"/" in entry`.
  unfoldable pub entry_matches : ℕ → Json → Option Bool
  entry_matches caller (str s) =
      if is_some (find? s "/")
      then env.in_network caller s
      else do a ← env.parse_address (str s); some (nat_beq caller a)
  entry_matches caller _ = none

  unfoldable pub any_entry : ℕ → Items → Option Bool
  unfolding entry_matches
  any_entry caller nil = some false
  any_entry caller (item x xs) =
      let rest = any_entry caller xs in
      do found ← entry_matches caller x; if found then some true else rest

  unfoldable pub caller_listed : Json → Json → Option Bool
  unfolding any_entry entries
  caller_listed allowed_ips caller_ip = do
    caller ← env.parse_address caller_ip
    listed ← entries allowed_ips
    any_entry caller listed

  unfoldable pub network_condition : Json → Option Fields → Bool
  unfolding caller_listed
  network_condition value context = or_deny do
    allowed_ips ← get_of "allowed_ips" value
    let caller_ip = get "ip_address" (or_empty context)
    if truthy allowed_ips && truthy caller_ip
        then caller_listed allowed_ips caller_ip
        else some false
