-- ===== src/Policies/Cache/Decides.antt =====
-- Decisions from policies that come back from the cache.
use balance_sheet_analysis.Prelude.{
  String, false, ◌&&◌, ◌||◌, ◌≡◌, refl, sym, ap, ◌∙◌, inl, inr, Option, none, some, List, [], ◌∷◌,
  map, if◌then◌else◌,
}
use mathlib.Core.Path.{subst}
use balance_sheet_analysis.Prelude.Equality.{◌==◌, contains, string_eq}
use balance_sheet_analysis.Json.{Fields}
use balance_sheet_analysis.Exec.{Result, ok, err}
use balance_sheet_analysis.Exec.Pure.{◌>>=◌}
use balance_sheet_analysis.Tables.{Database, Policy}
use balance_sheet_analysis.Policies.Conditions.{evaluate_conditions}
use balance_sheet_analysis.Policies.Conditions.Library.{Environment}
use balance_sheet_analysis.Policies.Engine.{
  Tally, concerns, add_result, add_policy, tally_policies, decision_of, evaluate_detailed,
}
use balance_sheet_analysis.Policies.Repository.{active_policies}
use balance_sheet_analysis.Policies.Store.Rows.{definition_snapshot, actions_list}
use balance_sheet_analysis.Policies.Cache.{
  Redis, user_policies_key, get_user_policies, set_user_policies, cached_active_policies,
}
use balance_sheet_analysis.Policies.Cache.Laws.{
  RedisLaws, normal, Coherent, get-normal, get-Coherent, set-Coherent,
}

listed :
    (action : String) (o : Option (List String))
    → contains action (actions_list o)
      ≡ elim o [ none ↦ false | some actions ↦ contains action actions ]
listed action none = refl
listed action (some actions) = refl

bind-cong :
    {A B : Type 0} (r : Result A) (f g : A → Result B)
    → ((a : A) → f a ≡ g a)
    → (r >>= f) ≡ (r >>= g)
bind-cong (ok a) f g h = h a
bind-cong (err e) f g h = refl

names-normal :
    (ps : List Policy)
    → map (λ (p : Policy). p.name) (map normal ps) ≡ map (λ (p : Policy). p.name) ps
unfolding definition_snapshot
names-normal [] = refl
names-normal (p ∷ ps) = ap (λ names. p.name ∷ names) (names-normal ps)

module _ (env : Environment) (action resource_type user_email : String)
    (resource context : Option Fields) where
  concerns-normal :
      (p : Policy) → concerns action resource_type (normal p) ≡ concerns action resource_type p
  unfolding concerns definition_snapshot
  concerns-normal p =
      ap (λ b. (p.resource_type == resource_type || p.resource_type == "*") && b)
        (listed action p.actions)

  add_policy-normal :
      (p : Policy) (t : Tally)
      → add_policy env action resource_type user_email resource context (normal p) t
        ≡ add_policy env action resource_type user_email resource context p t
  unfolding add_policy definition_snapshot
  add_policy-normal p t =
      ap
        (λ b.
          if b
          then (evaluate_conditions env user_email resource context p.conditions >>= λ failed.
              ok (add_result p.name failed t))
          else ok t)
        (concerns-normal p)

  tally-normal :
      (ps : List Policy) (t : Tally)
      → tally_policies env action resource_type user_email resource context (map normal ps) t
        ≡ tally_policies env action resource_type user_email resource context ps t
  unfolding tally_policies
  tally-normal [] t = refl
  tally-normal (p ∷ ps) t =
      ap
        (λ r.
          r >>= tally_policies env action resource_type user_email resource context (map normal ps))
        (add_policy-normal p t)
      ∙ bind-cong (add_policy env action resource_type user_email resource context p t) _ _
          (tally-normal ps)

  evaluate-normal :
      (ps : List Policy)
      → evaluate_detailed env action resource_type user_email resource context (map normal ps)
        ≡ evaluate_detailed env action resource_type user_email resource context ps
  unfolding evaluate_detailed decision_of
  evaluate-normal ps =
      ap
        (λ r. r >>= λ t.
          ok (decision_of env action resource_type user_email resource context (map normal ps) t))
        (tally-normal ps _)
      ∙ bind-cong (tally_policies env action resource_type user_email resource context ps _) _ _
          (λ t. let e = names-normal ps in cc)

  -- From a coherent cache, whether the calls of the server come through or raise, the decision made
  -- from the policies that the cached query returns is the one made from the policies in the
  -- database, and the cache is coherent afterwards.
  pub evaluate_detailed-cached_active_policies :
      {Server Payload : Type 0} (redis : Redis Server Payload) (laws : RedisLaws redis)
      (db : Database) (server : Server)
      → Coherent redis laws db server
      → (evaluate_detailed env action resource_type user_email resource context
            (cached_active_policies redis user_email db server).0
          ≡ evaluate_detailed env action resource_type user_email resource context
              (active_policies db user_email))
        × Coherent redis laws db (cached_active_policies redis user_email db server).1
  unfolding cached_active_policies get_user_policies
  evaluate_detailed-cached_active_policies {Server = Server} redis laws db server c =
      elim (get-normal redis laws db server user_email c) [
        | inl miss ↦
            subst Agrees (sym miss) (refl, set-Coherent redis laws db after user_email kept)
        | inr hit ↦ subst Agrees (sym hit) (evaluate-normal (active_policies db user_email), kept)
      ]
    where
      after : Server
      after = (redis.get (user_policies_key user_email) server).1

      kept : Coherent redis laws db after
      kept = get-Coherent redis laws db server (user_policies_key user_email) c

      answer : Option (List Policy) → List Policy × Server
      answer found = elim found [
        | some cached ↦ (cached, after)
        | none ↦ (
          active_policies db user_email,
          set_user_policies redis user_email (active_policies db user_email) after,
        )
      ]

      Agrees : Option (List Policy) → Type 0
      Agrees found =
          (evaluate_detailed env action resource_type user_email resource context (answer found).0
            ≡ evaluate_detailed env action resource_type user_email resource context
                (active_policies db user_email))
          × Coherent redis laws db (answer found).1
