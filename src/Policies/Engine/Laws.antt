-- ===== src/Policies/Engine/Laws.antt =====
-- What a decision says of the policies that it was made from.
use balance_sheet_analysis.Prelude.{
  String, Bool, true, false, not, ◌&&◌, ◌≡◌, refl, ap, ◌∙◌, inl, inr, Bool-cases, Option, none,
  some, List, [], ◌∷◌, ◌++◌, map, any, select, arith, is_nil, append-nil, append_assoc,
  if◌then◌else◌,
}
use balance_sheet_analysis.Json.{Fields}
use balance_sheet_analysis.Exec.{Result, ok, err}
use balance_sheet_analysis.Exec.Pure.{>>=-eq-ok, Result-cases}
use balance_sheet_analysis.Tables.{Policy}
use balance_sheet_analysis.Policies.Conditions.{evaluate_conditions}
use balance_sheet_analysis.Policies.Conditions.Library.{Environment}
use balance_sheet_analysis.Policies.Engine.{
  AuthorizationDecision, Tally, concerns, add_result, denial_reason, add_policy, tally_policies,
  decision_of, evaluate_detailed,
}

abbrev pub satisfied : Result (List String) → Bool
satisfied (ok failed) = is_nil failed
satisfied (err e) = false

reason_of_rejected :
    (n : String) (ns rejected : List String) {b : Bool}
    → not (is_nil rejected) ≡ b
    → denial_reason (n ∷ ns) rejected ≡ (if b then "condition_failed" else "no_matching_policy")
unfolding denial_reason
reason_of_rejected n ns [] h = ground arith
reason_of_rejected n ns (r ∷ rs) h = ground arith

module _ (env : Environment) (action resource_type user_email : String)
    (resource context : Option Fields) where
  -- The policy is for this action on this type of resource, and no condition of it fails.
  unfoldable pub grants : Policy → Bool
  unfolding concerns
  grants p =
      concerns action resource_type p
      && satisfied (evaluate_conditions env user_email resource context p.conditions)

  -- The policy is for this action on this type of resource, and some condition of it fails.
  unfoldable pub refuses : Policy → Bool
  unfolding concerns
  refuses p =
      concerns action resource_type p
      && not (satisfied (evaluate_conditions env user_email resource context p.conditions))

  abbrev names : List Policy → List String
  names = map (λ (p : Policy). p.name)

  matched-add_policy :
      (p : Policy) (t u : Tally)
      → add_policy env action resource_type user_email resource context p t ≡ ok u
      → (u.matched ≡ (if grants p then t.matched ++ p.name ∷ [] else t.matched))
        × (u.rejected ≡ (if refuses p then t.rejected ++ p.name ∷ [] else t.rejected))
  unfolding add_policy add_result grants refuses
  matched-add_policy p t u h = elim (Bool-cases (concerns action resource_type p)) [
    | inl k ↦
        elim (Result-cases (evaluate_conditions env user_email resource context p.conditions)) [
          | inl ([], e) ↦ ground arith
          | inl (f ∷ fs, e) ↦ ground arith
          | inr (x, e) ↦ ground arith
        ]
    | inr k ↦ ground arith
  ]

  append_names :
      (b : Bool) (xs : List String) (p : Policy) (ps : List Policy) (ys zs : List String)
      → ys ≡ (if b then xs ++ p.name ∷ [] else xs)
      → zs ≡ ys ++ names ps
      → zs ≡ xs ++ names (if b then p ∷ ps else ps)
  append_names true xs p ps ys zs e f =
      f ∙ ap (λ l. l ++ names ps) e ∙ append_assoc xs (p.name ∷ []) (names ps)
  append_names false xs p ps ys zs e f = f ∙ ap (λ l. l ++ names ps) e

  matched-tally_policies :
      (ps : List Policy) (t u : Tally)
      → tally_policies env action resource_type user_email resource context ps t ≡ ok u
      → (u.matched ≡ t.matched ++ names (select grants ps))
        × (u.rejected ≡ t.rejected ++ names (select refuses ps))
  unfolding tally_policies
  matched-tally_policies [] t u h = ground (arith, append-nil t.matched, append-nil t.rejected)
  matched-tally_policies (p ∷ ps) t u h =
      let (v, e, rest) =
        >>=-eq-ok (add_policy env action resource_type user_email resource context p t) _ h in
      let (m, r) = matched-add_policy p t v e in
      let (ms, rs) = matched-tally_policies ps v u rest in
      (
        append_names (grants p) t.matched p (select grants ps) v.matched u.matched m ms,
        append_names (refuses p) t.rejected p (select refuses ps) v.rejected u.rejected r rs,
      )

  some_name : (p : Policy → Bool) (ps : List Policy) → not (is_nil (names (select p ps))) ≡ any p ps
  some_name p [] = refl
  some_name p (q ∷ ps) = ground (arith, some_name p ps)

  reason_lem :
      (ps : List Policy)
      → denial_reason (names ps) (names (select refuses ps)) ≡ (
          if is_nil ps
          then "no_assigned_policies"
          else if any refuses ps
          then "condition_failed"
          else "no_matching_policy")
  unfolding denial_reason
  reason_lem [] = refl
  reason_lem (p ∷ ps) =
      reason_of_rejected p.name (names ps) (names (select refuses (p ∷ ps)))
        (some_name refuses (p ∷ ps))

  -- Where the decision is made, its two lists of policies are, in their order, those that grant and
  -- those that refuse, and it allows exactly where some policy grants: nothing is allowed by
  -- default, and a refusal takes no grant away. Its reason tells which of the three cases of a
  -- denial it is.
  pub evaluate_detailed_lem :
      (ps : List Policy) (d : AuthorizationDecision)
      → evaluate_detailed env action resource_type user_email resource context ps ≡ ok d
      → (d.matched_policies ≡ names (select grants ps))
        × (d.rejected_policies ≡ names (select refuses ps))
        × (d.allowed ≡ any grants ps)
        × (d.denial_reason ≡ (
            if any grants ps
            then none
            else if is_nil ps
            then some "no_assigned_policies"
            else if any refuses ps
            then some "condition_failed"
            else some "no_matching_policy"))
  unfolding evaluate_detailed decision_of denial_reason
  evaluate_detailed_lem ps d h =
      let (t, e, f) =
        >>=-eq-ok (tally_policies env action resource_type user_email resource context ps _) _ h in
      let (m, r) = matched-tally_policies ps _ t e in
      ground (arith, some_name grants ps, some_name refuses ps, reason_lem ps)
