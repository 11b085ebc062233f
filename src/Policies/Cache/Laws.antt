-- ===== src/Policies/Cache/Laws.antt =====
-- Decisions made through the cache are the decisions made from the database, as long as no change
-- of the policies stays unannounced.
use text.Mathlib.Text.{find?}
use text.Mathlib.TextLemmas.{append_cancel_left}
use balance_sheet_analysis.Prelude.{
  ℕ, zero, suc, String, Bool, true, not, is_some, ◌&&◌, ◌≡◌, ◌≢◌, ◌⊎◌, refl, sym, ap, ◌∙◌, inl, inr,
  Option, none, some, List, [], ◌∷◌, ◌<>◌, map, arith,
}
use balance_sheet_analysis.Prelude.Equality.{contains, string_eq}
use balance_sheet_analysis.Json.{Json, arr, obj, Fields, lookup}
use balance_sheet_analysis.Exec.{Result, ok, err}
use balance_sheet_analysis.Tables.{Database, Policy, PolicyDefinition}
use balance_sheet_analysis.Policies.Repository.{active_policies}
use balance_sheet_analysis.Policies.Store.Rows.{
  definition_snapshot, definition_dict, items_value, actions_list,
}
use balance_sheet_analysis.Policies.Cache.{
  Redis, key_prefix, user_policies_ttl, user_policies_key, serialize_policy, serialize_policies,
  texts_of, actions_of, detached, ◌>>=◌, deserialize_policy, deserialize_items,
  deserialize_policies, policies_in, get_user_policies, set_user_policies,
}

-- No character of the text is special in a pattern of MATCH.
unfoldable pub is_literal : String → Bool
is_literal s =
    not (is_some (find? s "*"))
    && (not (is_some (find? s "?"))
        && (not (is_some (find? s "[")) && not (is_some (find? s "\\"))))

-- What the documentation of Redis and of `json` promises of a server that no other client writes to
-- meanwhile, and that has applied a command, if it does at all, when its call ends. `held` is the
-- value that the server has under a key, which an entry loses when it expires; a call may fail
-- without touching it. `owed` says of a pattern, of the SCAN calls that are left and of a key, that
-- the key matches, has had a value since the iteration began, and was in no answer of it.
pub record RedisLaws {Server Payload : Type 0} (redis : Redis Server Payload) : Type 1 where
  pub held : String → Server → Option Payload
  pub owed : String → ℕ → String → Server → Type 0
  -- GET answers with the value that is there, and changes none.
  pub get-held :
      (k : String) (w : Payload) (s : Server) → (redis.get k s).0 ≡ ok (some w) → held k s ≡ some w
  pub held-get :
      (j k : String) (w : Payload) (s : Server)
      → held j (redis.get k s).1 ≡ some w
      → held j s ≡ some w
  -- A SET writes its value under its key, or fails without.
  pub held-set :
      (j k : String) (v w : Payload) (ttl : ℕ) (s : Server)
      → held j (redis.set k v ttl s).1 ≡ some w
      → ((j ≡ k) × (w ≡ v)) ⊎ (held j s ≡ some w)
  -- A DEL gives no key a value, and takes its own key's where it comes through.
  pub held-delete :
      (j k : String) (w : Payload) (s : Server)
      → held j (redis.delete k s).1 ≡ some w
      → held j s ≡ some w
  pub delete-gone :
      (k : String) (w : Payload) (s : Server)
      → (redis.delete k s).0 ≡ ok tt
      → held k (redis.delete k s).1 ≢ some w
  -- A SCAN gives no key a value. A full iteration answers with every key that matches and has a
  -- value from its start to its end, whatever keys are deleted meanwhile.
  pub held-scan :
      (k pattern : String) (calls : ℕ) (w : Payload) (s : Server)
      → held k (redis.scan pattern calls s).1 ≡ some w
      → held k s ≡ some w
  pub owed-start :
      (prefix rest : String) (w : Payload) (s : Server)
      → is_literal prefix ≡ true
      → held (prefix <> rest) s ≡ some w
      → owed (prefix <> "*") (redis.scan_calls (prefix <> "*") s) (prefix <> rest) s
  pub owed-scan :
      (pattern k : String) (calls : ℕ) (keys : List String) (w : Payload) (s : Server)
      → owed pattern (suc calls) k s
      → (redis.scan pattern calls s).0 ≡ ok keys
      → held k (redis.scan pattern calls s).1 ≡ some w
      → (contains k keys ≡ true) ⊎ owed pattern calls k (redis.scan pattern calls s).1
  pub owed-delete :
      (pattern k j : String) (calls : ℕ) (w : Payload) (s : Server)
      → owed pattern calls k s
      → held k (redis.delete j s).1 ≡ some w
      → owed pattern calls k (redis.delete j s).1
  pub owed-end :
      (pattern k : String) (w : Payload) (s : Server) → owed pattern zero k s → held k s ≢ some w
  pub loads-dumps : (v : Json) → redis.loads (redis.dumps v) ≡ ok v

-- A policy as it comes back from the cache.
abbrev pub normal : Policy → Policy
normal p = detached (definition_snapshot p)

texts_of-items_value : (texts : List String) → texts_of (items_value texts) ≡ some texts
unfolding texts_of
texts_of-items_value [] = refl
texts_of-items_value (s ∷ texts) = ground (arith, texts_of-items_value texts)

module _ (name : String) (actions : List String) (resource_type : String) (is_active : Bool) where
  abbrev definition : Option String → Option Fields → PolicyDefinition
  definition description conditions = record {
    name = name;
    description = description;
    actions = actions;
    resource_type = resource_type;
    conditions = conditions;
    is_active = is_active;
  }

  abbrev finished : Option String → Option Fields → Option (List String) → Option Policy
  finished description conditions found = found >>= λ actions. some (
      detached (record {
        name = name;
        description = description;
        actions = actions;
        resource_type = resource_type;
        conditions = conditions;
        is_active = is_active;
      }))

  read_back :
      (description : Option String) (conditions : Option Fields)
      → deserialize_policy (obj (definition_dict (definition description conditions)))
        ≡ some (detached (definition description conditions))
  unfolding deserialize_policy definition_dict actions_of lookup
  read_back none none = ap (finished none none) (texts_of-items_value actions)
  read_back none (some c) = ap (finished none (some c)) (texts_of-items_value actions)
  read_back (some d) none = ap (finished (some d) none) (texts_of-items_value actions)
  read_back (some d) (some c) = ap (finished (some d) (some c)) (texts_of-items_value actions)

deserialize-serialize : (p : Policy) → deserialize_policy (serialize_policy p) ≡ some (normal p)
unfolding serialize_policy definition_snapshot
deserialize-serialize p =
    read_back p.name (actions_list p.actions) p.resource_type p.is_active p.description p.conditions

deserialize-all :
    (ps : List Policy) → deserialize_items (serialize_policies ps) ≡ some (map normal ps)
unfolding deserialize_items serialize_policies
deserialize-all [] = refl
deserialize-all (p ∷ ps) =
    let one = deserialize-serialize p in
    let rest = deserialize-all ps in
    ap
      (λ (o : Option Policy). o >>= λ policy.
        deserialize_items (serialize_policies ps) >>= λ policies. some (policy ∷ policies))
      one
    ∙ ap (λ (o : Option (List Policy)). o >>= λ policies. some (normal p ∷ policies)) rest

same_prefix : (e f : String) → user_policies_key e ≡ user_policies_key f → e ≡ f
unfolding user_policies_key
same_prefix e f h = append_cancel_left key_prefix e f h

module _ {Server Payload : Type 0} (redis : Redis Server Payload) (laws : RedisLaws redis) where
  -- Whatever value a user's key has is the serialized list of their policies in the database.
  abbrev pub Coherent : Database → Server → Type 0
  Coherent db server =
      (email : String) (w : Payload)
      → laws.held (user_policies_key email) server ≡ some w
      → w ≡ redis.dumps (arr (serialize_policies (active_policies db email)))

  pub get-Coherent :
      (db : Database) (server : Server) (k : String)
      → Coherent db server
      → Coherent db (redis.get k server).1
  get-Coherent db server k c email w h =
      c email w (laws.held-get (user_policies_key email) k w server h)

  pub set-Coherent :
      (db : Database) (server : Server) (email : String)
      → Coherent db server
      → Coherent db (set_user_policies redis email (active_policies db email) server)
  unfolding set_user_policies
  set-Coherent db server email c other w h =
      elim (laws.held-set (user_policies_key other) (user_policies_key email) _ w user_policies_ttl
        server h) [
          | inl (k, e) ↦
              e
              ∙ ap (λ f. redis.dumps (arr (serialize_policies (active_policies db f))))
                  (sym (same_prefix other email k))
          | inr old ↦ c other w old
        ]

  -- What the cache answers with.
  pub get-normal :
      (db : Database) (server : Server) (email : String)
      → Coherent db server
      → ((get_user_policies redis email server).0 ≡ none)
        ⊎ ((get_user_policies redis email server).0 ≡ some (map normal (active_policies db email)))
  unfolding get_user_policies policies_in deserialize_policies
  get-normal db server email c = by_answer (redis.get (user_policies_key email) server).0 refl
    where
      by_answer :
          (r : Result (Option Payload))
          → (redis.get (user_policies_key email) server).0 ≡ r
          → (policies_in redis r ≡ none)
            ⊎ (policies_in redis r ≡ some (map normal (active_policies db email)))
      by_answer (err e) h = inl refl
      by_answer (ok none) h = inl refl
      by_answer (ok (some raw)) h = inr (
          ap (λ (l : Result Json). elim l [ err e ↦ none | ok v ↦ deserialize_policies v ])
            (ap redis.loads (c email raw (laws.get-held (user_policies_key email) raw server h))
              ∙ laws.loads-dumps (arr (serialize_policies (active_policies db email))))
          ∙ deserialize-all (active_policies db email))
