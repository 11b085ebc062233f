-- ===== src/Policies/Cache/Invalidation.antt =====
-- The changes of the policies and the cache: a flush that comes through leaves nothing stale.
use balance_sheet_analysis.Prelude.{
  ℕ, zero, suc, sym, String, Bool, true, false, ◌&&◌, ◌||◌, ◌≡◌, refl, ap, ◌∙◌, inl, inr,
  Bool-cases, some, List, [], ◌∷◌, ◌++◌, Elem, any, select, select-append, append-nil, arith,
}
use mathlib.Core.Path.{subst}
use balance_sheet_analysis.Prelude.Equality.{◌==◌, contains, string_eq, nat_eq}
use balance_sheet_analysis.Exec.{Result, ok, err}
use balance_sheet_analysis.Tables.{Database, Policy, UserPolicy}
use balance_sheet_analysis.Policies.Cache.{
  Redis, key_prefix, key_pattern, user_policies_key, delete_keys, flush,
  invalidate_all_user_policies,
}
use balance_sheet_analysis.Policies.Repository.{active_policies, is_assigned}
use balance_sheet_analysis.Policies.Store.Mutations.{PolicyCreate, create}
use balance_sheet_analysis.Policies.Store.Mutations.Laws.{added, create-free, create-taken}
use balance_sheet_analysis.Policies.Store.Rows.{name_free}
use balance_sheet_analysis.Policies.Managed.{Managed}
use balance_sheet_analysis.Policies.Cache.Laws.{RedisLaws, is_literal, Coherent}

literal_prefix : is_literal key_prefix ≡ true
unfolding is_literal
literal_prefix = refl

module _ {Server Payload : Type 0} (redis : Redis Server Payload) (laws : RedisLaws redis)
    (k : String) (w : Payload) where
  -- A deletion of keys that comes through leaves none of them a value and gives none, and what an
  -- iteration owes it still owes.
  delete_keys-held :
      (keys : List String) (server : Server)
      → (delete_keys redis keys server).0 ≡ ok tt
      → laws.held k (delete_keys redis keys server).1 ≡ some w
      → (laws.held k server ≡ some w)
        × (contains k keys ≡ false)
        × ((calls : ℕ)
            → laws.owed key_pattern calls k server
            → laws.owed key_pattern calls k (delete_keys redis keys server).1)
  unfolding delete_keys
  delete_keys-held [] server h g = (g, refl, λ calls o. o)
  delete_keys-held (key ∷ keys) server h g =
      by_result (redis.delete key server).0 refl (delete_keys-held keys (redis.delete key server).1)
        h g
    where
      after : Server
      after = (redis.delete key server).1

      rest : Result (Unit {0}) → Result (Unit {0}) × Server
      rest r = elim r [ err e ↦ (err e, after) | ok _ ↦ delete_keys redis keys after ]

      by_result :
          (r : Result (Unit {0}))
          → (redis.delete key server).0 ≡ r
          → ((delete_keys redis keys after).0 ≡ ok tt
              → laws.held k (delete_keys redis keys after).1 ≡ some w
              → (laws.held k after ≡ some w)
                × (contains k keys ≡ false)
                × ((calls : ℕ)
                    → laws.owed key_pattern calls k after
                    → laws.owed key_pattern calls k (delete_keys redis keys after).1))
          → (rest r).0 ≡ ok tt
          → laws.held k (rest r).1 ≡ some w
          → (laws.held k server ≡ some w)
            × ((k == key || contains k keys) ≡ false)
            × ((calls : ℕ)
                → laws.owed key_pattern calls k server
                → laws.owed key_pattern calls k (rest r).1)
      by_result (err e) came ih h g = absurd (cc)
      by_result (ok tt) came ih h g =
          let (old, absent, owes) = ih h g in
          elim (Bool-cases (k == key)) [
            | inl t ↦ absurd (
                laws.delete-gone key w server came
                  (subst (λ j. laws.held j after ≡ some w) ((string_eq.same_iff k key).0 t) old))
            | inr f ↦ (
              laws.held-delete k key w server old,
              ground arith,
              λ calls o. owes calls (laws.owed-delete key_pattern k key calls w server o old),
            )
          ]

  -- A flush that comes through gives the key no value, and leaves none that is owed.
  flush-held :
      (calls : ℕ) (server : Server)
      → (flush redis calls server).0 ≡ ok tt
      → laws.held k (flush redis calls server).1 ≡ some w
      → (laws.held k server ≡ some w) × ¬ (laws.owed key_pattern calls k server)
  unfolding flush
  flush-held zero server h g = (g, λ o. laws.owed-end key_pattern k w server o g)
  flush-held (suc calls) server h g =
      by_scan (redis.scan key_pattern calls server).0 refl (λ s. flush-held calls s) h g
    where
      scanned : Server
      scanned = (redis.scan key_pattern calls server).1

      next : Result (Unit {0}) × Server → Result (Unit {0}) × Server
      next d = elim d.0 [ err e ↦ (err e, d.1) | ok _ ↦ flush redis calls d.1 ]

      rest : Result (List String) → Result (Unit {0}) × Server
      rest r = elim r [ err e ↦ (err e, scanned) | ok keys ↦ next (delete_keys redis keys scanned) ]

      came_through :
          (d : Result (Unit {0}) × Server)
          → (next d).0 ≡ ok tt
          → (d.0 ≡ ok tt) × (next d ≡ flush redis calls d.1)
      came_through (err e, s) h = absurd (cc)
      came_through (ok tt, s) h = (refl, refl)

      by_scan :
          (r : Result (List String))
          → (redis.scan key_pattern calls server).0 ≡ r
          → ((s : Server)
              → (flush redis calls s).0 ≡ ok tt
              → laws.held k (flush redis calls s).1 ≡ some w
              → (laws.held k s ≡ some w) × ¬ (laws.owed key_pattern calls k s))
          → (rest r).0 ≡ ok tt
          → laws.held k (rest r).1 ≡ some w
          → (laws.held k server ≡ some w) × ¬ (laws.owed key_pattern (suc calls) k server)
      by_scan (err e) found ih h g = absurd (cc)
      by_scan (ok keys) found ih h g =
          let (deleted, onwards) = came_through (delete_keys redis keys scanned) h in
          let (later, unowed) =
            ih (delete_keys redis keys scanned).1 (ap (λ r. r.0) (sym onwards) ∙ h)
              (subst (λ (r : Result (Unit {0}) × Server). laws.held k r.1 ≡ some w) onwards g) in
          let (old, absent, owes) = delete_keys-held keys scanned deleted later in
          (
            laws.held-scan k key_pattern calls w server old,
            λ o. elim (laws.owed-scan key_pattern k calls keys w server o found old) [
              | inl there ↦ cc (there, absent)
              | inr still ↦ unowed (owes calls still)
            ],
          )

module _ {Server Payload : Type 0} (redis : Redis Server Payload) (laws : RedisLaws redis) where
  -- After a flush that comes through, its deletions between the SCAN calls, the cache is coherent with
  -- any state of the database.
  pub invalidate_all-Coherent :
      (db : Database) (server : Server)
      → (invalidate_all_user_policies redis server).0 ≡ ok tt
      → Coherent redis laws db (invalidate_all_user_policies redis server).1
  unfolding invalidate_all_user_policies user_policies_key
  invalidate_all-Coherent db server h email w g =
      let (old, unowed) =
        flush-held redis laws (user_policies_key email) w (redis.scan_calls key_pattern server)
          server h g in
      absurd (unowed (laws.owed-start key_prefix email w server literal_prefix old))

-- A policy that nobody holds.
unheld :
    (links : List UserPolicy) (id : ℕ) (held : UserPolicy → Bool)
    → ((l : UserPolicy) → Elem l links → (l.policy_id == id) ≡ false)
    → any (λ (l : UserPolicy). l.policy_id == id && held l) links ≡ false
unheld [] id held h = refl
unheld (l ∷ links) id held h =
    let apart = h l (inl refl) in
    let rest = unheld links id held (λ k e. h k (inr e)) in ground arith

select-one : {A : Type 0} (p : A → Bool) (a : A) → p a ≡ false → select p (a ∷ []) ≡ []
select-one p a h = ground arith

-- In a managed state, creating a policy changes nobody's policies in force, whether it succeeds or
-- not: the new id is in no assignment.
pub create-active_policies :
    (payload : PolicyCreate) (caller email : String) (db : Database)
    → Managed db
    → active_policies (create payload caller db).1 email ≡ active_policies db email
unfolding active_policies is_assigned
create-active_policies payload caller email db m =
    elim (Bool-cases (name_free db.policy_seq payload.name db.policies)) [
      | inl free ↦
          ap (λ (r : Result Policy × Database). active_policies r.1 email)
            (create-free payload caller db free)
          ∙ select-append in_force db.policies (new ∷ [])
          ∙ ap (λ rest. select in_force db.policies ++ rest) (select-one in_force new fresh)
          ∙ append-nil (select in_force db.policies)
      | inr taken ↦
          ap (λ (r : Result Policy × Database). active_policies r.1 email)
            (create-taken payload caller db taken)
    ]
  where
    new : Policy
    new = added payload caller db

    in_force : Policy → Bool
    in_force p = is_assigned db email p && p.is_active

    apart : (l : UserPolicy) → Elem l db.user_policies → (l.policy_id == db.policy_seq) ≡ false
    apart l e = let (p, there, i) = m.linked l e in let b = m.below p there in ground arith

    fresh : in_force new ≡ false
    fresh = ap (λ b. b && true) (unheld db.user_policies db.policy_seq _ apart)
