-- ===== src/Access/Plain.antt =====
-- access/scope.py beside evaluators/authorization_evaluator.py, for policies that are written for
-- every company, for one company or for one group.
use balance_sheet_analysis.Prelude.{
  nat_beq, ℕ, String, Bool, true, ◌&&◌, ◌≡◌, refl, sym, ap, ◌∙◌, inl, inr, Option, none, some, List,
  [], ◌∷◌, ◌++◌, any, All, arith, Bool-cases, if◌then◌else◌,
}
use mathlib.Core.Path.{subst}
use balance_sheet_analysis.Prelude.Int.{pos}
use balance_sheet_analysis.Json.{
  Json, int, obj, Fields, end, field, lookup, get, truthy, json_eq, hashable, attribute, items_of,
}
use balance_sheet_analysis.Exec.{Result, ok}
use balance_sheet_analysis.Exec.Pure.{◌>>=◌}
use balance_sheet_analysis.Tables.{Policy}
use balance_sheet_analysis.Access.Scope.{
  CompanyScope, in_scope, add_value, add_attributes, add_found, add_policy as add_scope_policy,
  add_policies, applies, resource_attributes, scope_of_policies, resource_scope_dict, nothing,
}
use balance_sheet_analysis.Access.Scope.Laws.{
  resource_attributes_lem, reached_by, attributes_of, reaches, in_scope-scope_of_policies,
}
use balance_sheet_analysis.Policies.Conditions.{
  registry, evaluate_handler, condition_holds, failed_keys, evaluate_conditions,
}
use balance_sheet_analysis.Policies.Conditions.Attributes.{all_equal, attributes_match}
use balance_sheet_analysis.Policies.Conditions.Library.{Environment}
use balance_sheet_analysis.Policies.Engine.{
  concerns, evaluate, evaluate_detailed, AuthorizationDecision, Tally, tally_policies, decision_of,
  add_result, add_policy,
}
use balance_sheet_analysis.Policies.Engine.Laws.{grants, evaluate_detailed_lem}

-- A policy as the application's own are written: for every company, for one company or for one
-- group.
pub data Reach : Type 0 where
  everywhere : Reach
  company : ℕ → Reach
  group : ℕ → Reach

abbrev pub conditions_for : Reach → Option Fields
conditions_for everywhere = none
conditions_for (company n) =
    some (field "resource_attributes" (obj (field "company_id" (int (pos n)) end)) end)
conditions_for (group n) =
    some (field "resource_attributes" (obj (field "group_root_id" (int (pos n)) end)) end)

abbrev pub is_reached : Reach → ℕ → ℕ → Bool
is_reached everywhere c g = true
is_reached (company n) c g = nat_beq n c
is_reached (group n) c g = nat_beq n g

-- Every policy of the list is written for some reach.
abbrev pub AllPlain : List Policy → Type 0
AllPlain = All (λ p. (r : Reach) × (p.conditions ≡ conditions_for r))

module _ (env : Environment) (action resource_type user_email : String)
    (context : Option Fields) where
  plain_conditions :
      (r : Reach) (c g : ℕ)
      → evaluate_conditions env user_email
          (some (resource_scope_dict c g))
          context
          (conditions_for r)
        ≡ ok (if is_reached r c g then [] else "resource_attributes" ∷ [])
  unfolding evaluate_conditions failed_keys condition_holds registry evaluate_handler
      attributes_match all_equal items_of truthy resource_scope_dict get lookup json_eq
  plain_conditions everywhere c g = refl
  plain_conditions (company n) c g = ground arith
  plain_conditions (group n) c g = ground arith

  value_added :
      (n : ℕ) (ids : List Json)
      → (ids' : List Json) × (add_value (some (int (pos n))) ids ≡ ok ids')
  unfolding add_value hashable
  value_added n ids = elim (Bool-cases (any (json_eq (int (pos n))) ids)) [
    | inl t ↦ (ids, ground arith)
    | inr t ↦ (ids ++ int (pos n) ∷ [], ground arith)
  ]

  plain_found :
      (r : Reach) (s : CompanyScope)
      → (t : CompanyScope) × (add_found (attributes_of (conditions_for r)) s ≡ ok t)
  unfolding add_found add_attributes add_value truthy attribute lookup hashable
  plain_found everywhere s = (_, refl)
  plain_found (company n) s =
      let (ids, e) = value_added n s.company_ids in
      (_, ap (λ (r : Result (List Json)). r >>= λ ids. ok (record s { company_ids = ids })) e)
  plain_found (group n) s =
      let (ids, e) = value_added n s.group_root_ids in
      (_, ap (λ (r : Result (List Json)). r >>= λ ids. ok (record s { group_root_ids = ids })) e)

  plain_scope :
      (ps : List Policy) (s : CompanyScope)
      → AllPlain ps
      → (t : CompanyScope) × (add_policies action resource_type ps s ≡ ok t)
  unfolding add_policies add_scope_policy resource_attributes
  plain_scope [] s h = (s, refl)
  plain_scope (p ∷ ps) s ((r, e), h) = elim (Bool-cases (applies action resource_type p)) [
    | inl t ↦
        let (u, f) = plain_found r s in
        let (v, g) = plain_scope ps u h in (v, ground (arith, resource_attributes_lem p))
    | inr t ↦ let (v, g) = plain_scope ps s h in (v, ground arith)
  ]

  module _ (c g : ℕ) where
    plain_reached :
        (r : Reach) → reached_by (attributes_of (conditions_for r)) c g ≡ is_reached r c g
    unfolding truthy lookup json_eq
    plain_reached everywhere = refl
    plain_reached (company n) = ground arith
    plain_reached (group n) = ground arith

    one_grants :
        (p : Policy) (r : Reach)
        → p.conditions ≡ conditions_for r
        → grants env action resource_type user_email (some (resource_scope_dict c g)) context p
          ≡ (applies action resource_type p && reaches p c g)
    unfolding grants applies concerns
    one_grants p r e =
        let evaluated =
          subst
            (λ o.
              evaluate_conditions env user_email (some (resource_scope_dict c g)) context o
              ≡ ok (if is_reached r c g then [] else "resource_attributes" ∷ []))
            (sym e) (plain_conditions r c g) in
        let reached =
          subst (λ o. reached_by (attributes_of o) c g ≡ is_reached r c g) (sym e)
            (plain_reached r) in
        ground arith

    plain_grants :
        (ps : List Policy)
        → AllPlain ps
        → any
            (grants env action resource_type user_email (some (resource_scope_dict c g)) context)
            ps
          ≡ any (λ p. applies action resource_type p && reaches p c g) ps
    plain_grants [] h = refl
    plain_grants (p ∷ ps) ((r, e), h) = rw (one_grants p r e, plain_grants ps h) refl

    plain_policy :
        (p : Policy) (r : Reach) (t : Tally)
        → p.conditions ≡ conditions_for r
        → (u : Tally) × (add_policy env action resource_type user_email
              (some (resource_scope_dict c g))
              context
              p
              t
            ≡ ok u)
    unfolding add_policy
    plain_policy p r t e =
        let evaluated =
          subst
            (λ o.
              evaluate_conditions env user_email (some (resource_scope_dict c g)) context o
              ≡ ok (if is_reached r c g then [] else "resource_attributes" ∷ []))
            (sym e) (plain_conditions r c g) in
        elim (Bool-cases (concerns action resource_type p)) [
          | inl k ↦ (
            add_result p.name (if is_reached r c g then [] else "resource_attributes" ∷ []) t,
            ground arith,
          )
          | inr k ↦ (t, ground arith)
        ]

    plain_tally :
        (ps : List Policy) (t : Tally)
        → AllPlain ps
        → (u : Tally) × (tally_policies env action resource_type user_email
              (some (resource_scope_dict c g))
              context
              ps
              t
            ≡ ok u)
    unfolding tally_policies
    plain_tally [] t h = (t, refl)
    plain_tally (p ∷ ps) t ((r, e), h) =
        let (u, f) = plain_policy p r t e in
        let (v, k) = plain_tally ps u h in
        (
          v,
          ap
                (λ (x : Result Tally).
                  x
                  >>= tally_policies env action resource_type user_email
                      (some (resource_scope_dict c g)) context ps)
                f
              ∙ k,
        )

    plain_evaluate :
        (ps : List Policy) (scope : CompanyScope)
        → AllPlain ps
        → scope_of_policies ps action resource_type ≡ ok scope
        → evaluate env action resource_type user_email (some (resource_scope_dict c g)) context ps
          ≡ ok (in_scope scope c g)
    unfolding evaluate evaluate_detailed
    plain_evaluate ps scope h e =
        let (t, f) = plain_tally ps (record { matched = []; rejected = []; failed = [] }) h in
        let made =
          ap
            (λ (x : Result Tally). x >>= λ t. ok (
              decision_of env action resource_type user_email (some (resource_scope_dict c g))
                context ps t))
            f in
        let (_, _, granted, _) =
          evaluate_detailed_lem env action resource_type user_email (some (resource_scope_dict c g))
            context ps
            (decision_of env action resource_type user_email (some (resource_scope_dict c g))
              context ps t)
            made in
        ap (λ (x : Result AuthorizationDecision). x >>= λ d. ok d.allowed) made
        ∙ ap (λ b. ok b)
            (granted
              ∙ plain_grants ps h
              ∙ sym (in_scope-scope_of_policies c g ps action resource_type scope e))

  -- Where every policy is for every company, for one company or for one group, the scope is made,
  -- the check of any company comes to a decision, and the two agree: the list shows exactly the
  -- companies that the check allows.
  pub scope_agrees :
      (ps : List Policy)
      → AllPlain ps
      → (scope : CompanyScope) × (scope_of_policies ps action resource_type ≡ ok scope)
        × ((c g : ℕ)
            → evaluate env action resource_type user_email
                (some (resource_scope_dict c g))
                context
                ps
              ≡ ok (in_scope scope c g))
  unfolding scope_of_policies
  scope_agrees ps h =
      let (scope, e) = plain_scope ps nothing h in
      (scope, e, λ c g. plain_evaluate c g ps scope h e)
