-- ===== src/Policies/Engine/Total.antt =====
-- A decision is always made where the conditions of the policies were accepted by the validator.
use balance_sheet_analysis.Prelude.{
  String, ◌≡◌, refl, ◌∙◌, ap, inl, inr, Bool-cases, Option, List, [], ◌∷◌, All, arith,
}
use balance_sheet_analysis.Json.{Fields, get}
use balance_sheet_analysis.Exec.{ok}
use balance_sheet_analysis.Exec.Pure.{◌>>=◌}
use balance_sheet_analysis.Tables.{Policy}
use balance_sheet_analysis.Policies.Conditions.Library.{Environment, or_empty}
use balance_sheet_analysis.Policies.Conditions.Validator.{validate_conditions, conditions_value}
use balance_sheet_analysis.Policies.Conditions.Validator.Laws.{
  AreSignals, Returns, evaluate_conditions-total,
}
use balance_sheet_analysis.Policies.Engine.{
  AuthorizationDecision, Tally, concerns, add_policy, add_result, tally_policies, decision_of,
  evaluate_detailed,
}

-- The validator found no problem in the conditions, with the library of its time.
abbrev pub IsAccepted : Option Fields → Type 0
IsAccepted conditions =
    (checked : Environment) × (validate_conditions checked (conditions_value conditions) ≡ [])

abbrev pub AllAccepted : List Policy → Type 0
AllAccepted policies = All (λ p. IsAccepted p.conditions) policies

module _ (env : Environment) (action resource_type user_email : String)
    (resource context : Option Fields)
    (signals : AreSignals (get "security_context" (or_empty context))) where
  add_policy-Returns :
      (p : Policy) (t : Tally)
      → IsAccepted p.conditions
      → Returns (add_policy env action resource_type user_email resource context p t)
  unfolding add_policy
  add_policy-Returns p t (checked, h) =
      let (failed, e) =
        evaluate_conditions-total checked env user_email resource context signals p.conditions h in
      elim (Bool-cases (concerns action resource_type p)) [
        | inl k ↦ (add_result p.name failed t, ground arith)
        | inr k ↦ (t, ground arith)
      ]

  tally_policies-Returns :
      (ps : List Policy) (t : Tally)
      → AllAccepted ps
      → Returns (tally_policies env action resource_type user_email resource context ps t)
  unfolding tally_policies
  tally_policies-Returns [] t h = (t, refl)
  tally_policies-Returns (p ∷ ps) t (a, h) =
      let (u, e) = add_policy-Returns p t a in
      let (v, f) = tally_policies-Returns ps u h in
      (
        v,
        ap (λ r. r >>= tally_policies env action resource_type user_email resource context ps) e
            ∙ f,
      )

  -- Whatever is asked for whom, an engine that is given policies with accepted conditions comes to a
  -- decision and raises nothing.
  pub evaluate_detailed-total :
      (ps : List Policy)
      → AllAccepted ps
      → (d : AuthorizationDecision) × (evaluate_detailed env action resource_type user_email
            resource context ps
          ≡ ok d)
  unfolding evaluate_detailed
  evaluate_detailed-total ps h =
      let (t, e) = tally_policies-Returns ps _ h in
      (
        _,
        ap
            (λ r.
              r >>= λ t. ok (decision_of env action resource_type user_email resource context ps t))
            e,
      )
