-- ===== src/Policies/Cache.antt =====
-- backend/mystic_auth/authorization/caching/authorization_cache_service.py, and the query of
-- policy_repository.py that goes through it. The Redis server and JSON's texts are parameters.
pub mod Laws
pub mod Decides
pub mod Invalidation
pub mod Precision
pub mod Memory
mod Tests
use balance_sheet_analysis.Prelude.{
  ℕ, zero, suc, String, Bool, true, Option, none, some, List, [], ◌∷◌, ◌<>◌, map,
}
use balance_sheet_analysis.Prelude.Equality.{contains, string_eq}
use balance_sheet_analysis.Json.{Json, null, bool, str, arr, obj, Items, nil, item, Fields, lookup}
use balance_sheet_analysis.Exec.{Result, ok, err}
use balance_sheet_analysis.Tables.{Database, Policy, PolicyDefinition}
use balance_sheet_analysis.Policies.Repository.{active_policies}
use balance_sheet_analysis.Policies.Store.Rows.{definition_snapshot, definition_dict}

-- The client of a Redis server, whose calls may raise and leave the server as they will, and `json`.
-- What the server will answer, its failures included, is in its state. The values under the keys are
-- JSON's texts, which nothing but `loads` looks into.
pub record Redis (Server Payload : Type 0) : Type 0 where
  pub get : String → Server → Result (Option Payload) × Server
  -- with the seconds that the entry lives
  pub set : String → Payload → ℕ → Server → Result (Unit {0}) × Server
  pub delete : String → Server → Result (Unit {0}) × Server
  -- An iteration over the keys that match a pattern is a number of SCAN calls, which the server ends.
  -- The cursor of a call is numbered by the calls after it.
  pub scan_calls : String → Server → ℕ
  pub scan : String → ℕ → Server → Result (List String) × Server
  pub dumps : Json → Payload
  pub loads : Payload → Result Json

abbrev pub key_prefix : String
key_prefix = "authz:user_policies:"

abbrev pub key_pattern : String
key_pattern = key_prefix <> "*"

abbrev pub user_policies_ttl : ℕ
user_policies_ttl = 60

unfoldable pub user_policies_key : String → String
user_policies_key user_email = key_prefix <> user_email

-- `_serialize_policy`: the same dict as a definition's.
unfoldable pub serialize_policy : Policy → Json
serialize_policy policy = obj (definition_dict (definition_snapshot policy))

unfoldable pub serialize_policies : List Policy → Items
serialize_policies [] = nil
serialize_policies (p ∷ ps) = item (serialize_policy p) (serialize_policies ps)

-- What a payload's values must be. A payload that the module has not written itself may hold other
-- values, which are taken to be refused.
unfoldable pub texts_of : Items → Option (List String)
texts_of nil = some []
texts_of (item (str s) xs) = elim (texts_of xs) [ none ↦ none | some texts ↦ some (s ∷ texts) ]
texts_of (item _ xs) = none

abbrev pub text_of : Option Json → Option String
text_of (some (str s)) = some s
text_of _ = none

-- `data.get("description")`
abbrev pub optional_text : Option Json → Option (Option String)
optional_text none = some none
optional_text (some null) = some none
optional_text (some (str s)) = some (some s)
optional_text (some _) = none

-- `data.get("actions") or []`
unfoldable pub actions_of : Option Json → Option (List String)
unfolding texts_of
actions_of none = some []
actions_of (some null) = some []
actions_of (some (arr xs)) = texts_of xs
actions_of (some _) = none

abbrev pub conditions_of : Option Json → Option (Option Fields)
conditions_of none = some none
conditions_of (some null) = some none
conditions_of (some (obj fs)) = some (some fs)
conditions_of (some _) = none

-- `data.get("is_active", True)`
abbrev pub flag_of : Option Json → Option Bool
flag_of none = some true
flag_of (some (bool b)) = some b
flag_of (some _) = none

infixl 5 ◌>>=◌
abbrev pub ◌>>=◌ : {A B : Type 0} → Option A → (A → Option B) → Option B
none >>= f = none
some a >>= f = f a

-- A policy with no row: 0 stands for the id that it lacks, which no reader asks for.
abbrev pub detached : PolicyDefinition → Policy
detached d = record {
  id = 0;
  name = d.name;
  description = d.description;
  actions = some d.actions;
  resource_type = d.resource_type;
  conditions = d.conditions;
  is_active = d.is_active;
  created_by = none;
}

unfoldable pub deserialize_policy : Json → Option Policy
unfolding actions_of
deserialize_policy (obj fs) = do
  name ← text_of (lookup "name" fs)
  description ← optional_text (lookup "description" fs)
  actions ← actions_of (lookup "actions" fs)
  resource_type ← text_of (lookup "resource_type" fs)
  conditions ← conditions_of (lookup "conditions" fs)
  is_active ← flag_of (lookup "is_active" fs)
  some (
      detached (record {
        name = name;
        description = description;
        actions = actions;
        resource_type = resource_type;
        conditions = conditions;
        is_active = is_active;
      }))
deserialize_policy _ = none

unfoldable pub deserialize_items : Items → Option (List Policy)
unfolding deserialize_policy
deserialize_items nil = some []
deserialize_items (item x xs) =
    let rest = deserialize_items xs in
    do policy ← deserialize_policy x; policies ← rest; some (policy ∷ policies)

unfoldable pub deserialize_policies : Json → Option (List Policy)
unfolding deserialize_items
deserialize_policies (arr xs) = deserialize_items xs
deserialize_policies _ = none

module _ {Server Payload : Type 0} (redis : Redis Server Payload) where
  -- What is made of the answer to GET: None for a miss, for an exception of the client and for a
  -- corrupt payload.
  unfoldable pub policies_in : Result (Option Payload) → Option (List Policy)
  unfolding deserialize_policies
  policies_in (err e) = none
  policies_in (ok none) = none
  policies_in (ok (some raw)) = elim (redis.loads raw) [
    | err e ↦ none
    | ok v ↦ deserialize_policies v
  ]

  unfoldable pub get_user_policies : String → Server → Option (List Policy) × Server
  unfolding user_policies_key policies_in
  get_user_policies user_email server =
      let (raw, after) = redis.get (user_policies_key user_email) server in (policies_in raw, after)

  -- A failure is logged and passed over.
  unfoldable pub set_user_policies : String → List Policy → Server → Server
  unfolding user_policies_key serialize_policies serialize_policy
  set_user_policies user_email policies server =
      (redis.set (user_policies_key user_email) (redis.dumps (arr (serialize_policies policies)))
        user_policies_ttl server).1

  unfoldable pub invalidate_user_policies : String → Server → Result (Unit {0}) × Server
  unfolding user_policies_key
  invalidate_user_policies user_email server = redis.delete (user_policies_key user_email) server

  -- The loop over the keys, which ends at the first exception.
  unfoldable pub delete_keys : List String → Server → Result (Unit {0}) × Server
  delete_keys [] server = (ok tt, server)
  delete_keys (key ∷ keys) server =
      let (r, after) = redis.delete key server in
      elim r [ err e ↦ (err e, after) | ok _ ↦ delete_keys keys after ]

  -- The loop of `invalidate_all_user_policies`, with the calls of SCAN that are left: the keys of
  -- one answer are deleted before the next call. An exception ends it.
  unfoldable pub flush : ℕ → Server → Result (Unit {0}) × Server
  unfolding delete_keys
  flush zero server = (ok tt, server)
  flush (suc calls) server =
      let (found, scanned) = redis.scan key_pattern calls server in
      elim found [
        | err e ↦ (err e, scanned)
        | ok keys ↦
            let (r, after) = delete_keys keys scanned in
            elim r [ err e ↦ (err e, after) | ok _ ↦ flush calls after ]
      ]

  -- What the `try` ended with is beside the server; the caller never sees it.
  unfoldable pub invalidate_all_user_policies : Server → Result (Unit {0}) × Server
  unfolding flush
  invalidate_all_user_policies server = flush (redis.scan_calls key_pattern server) server

  -- `get_active_policies_for_user`, with the cache in front of the query.
  unfoldable pub cached_active_policies : String → Database → Server → List Policy × Server
  unfolding get_user_policies set_user_policies
  cached_active_policies user_email db server =
      let (found, after) = get_user_policies user_email server in
      elim found [
        | some cached ↦ (cached, after)
        | none ↦
            let policies = active_policies db user_email in
            (policies, set_user_policies user_email policies after)
      ]
