-- ===== src/Access/Agreement.antt =====
-- access/scope.py beside evaluators/authorization_evaluator.py: the list filter and the check of a
-- single company are two readings of the same policies.
use balance_sheet_analysis.Prelude.{
  ℕ, String, Bool, true, false, not, ◌&&◌, ◌||◌, ◌≡◌, refl, sym, ap, ◌∙◌, inl, inr, Option, none,
  some, is_some, List, [], ◌∷◌, any, all, arith, Option-cases, Bool-cases, if◌then◌else◌, eq_iff,
}
use mathlib.Core.Path.{subst}
use text.Mathlib.Text.{◌==◌ as str_eq}
use balance_sheet_analysis.Prelude.Int.{ℤ, pos, negsuc, int_beq}
use balance_sheet_analysis.Json.{
  Json, null, bool, int, str, arr, obj, Fields, end, field, lookup, get, truthy, json_eq, of_bool,
  items_of,
}
use balance_sheet_analysis.Exec.{Result, ok, err}
use balance_sheet_analysis.Exec.Pure.{>>=-eq-ok}
use balance_sheet_analysis.Tables.{Policy}
use balance_sheet_analysis.Access.Scope.{
  CompanyScope, in_scope, applies, scope_of_policies, resource_scope_dict,
}
use balance_sheet_analysis.Access.Scope.Laws.{
  reached_by, attributes_of, value_of, equals, reaches, in_scope-scope_of_policies,
}
use balance_sheet_analysis.Policies.Conditions.{condition_holds, failed_keys, evaluate_conditions}
use balance_sheet_analysis.Policies.Conditions.Attributes.{all_equal, attributes_match}
use balance_sheet_analysis.Policies.Conditions.Library.{Environment}
use balance_sheet_analysis.Policies.Engine.{concerns, evaluate_detailed, AuthorizationDecision}
use balance_sheet_analysis.Policies.Engine.Laws.{grants, satisfied, evaluate_detailed_lem}

int_beq_comm : (y z : ℤ) → int_beq y z ≡ int_beq z y
int_beq_comm (pos a) (pos b) = ground arith
int_beq_comm (negsuc a) (negsuc b) = ground arith
int_beq_comm (pos a) (negsuc b) = refl
int_beq_comm (negsuc a) (pos b) = refl

json_eq-int_comm : (v : Json) (z : ℤ) → json_eq (int z) v ≡ json_eq v (int z)
unfolding json_eq
json_eq-int_comm null z = refl
json_eq-int_comm (bool b) z = int_beq_comm z (of_bool b)
json_eq-int_comm (int y) z = int_beq_comm z y
json_eq-int_comm (str s) z = refl
json_eq-int_comm (arr xs) z = refl
json_eq-int_comm (obj fs) z = refl

-- The attribute that every key asked for compares equal to the resource's.
all_equal-lookup :
    (k : String) (fs source : Fields) (v : Json)
    → all_equal fs source ≡ true
    → lookup k fs ≡ some v
    → json_eq (get k source) v ≡ true
unfolding all_equal lookup
all_equal-lookup k end source v h e = cc
all_equal-lookup k (field j w fs) source v h e = elim (Bool-cases (str_eq j k)) [
  | inl same ↦
      let (eq, _) = eq_iff j k in
      let p = eq same in
      let vw : w ≡ v = ground arith in
      subst (λ i. json_eq (get i source) v ≡ true) p
        (subst (λ u. json_eq (get j source) u ≡ true) vw (ground arith))
  | inr other ↦ ground (arith, all_equal-lookup k fs source v)
]

no_failure :
    (b : Bool) (ks : List String) (j : String)
    → ◌≡◌ {A = Result (List String)} (ok (if b then ks else j ∷ ks)) (ok [])
    → (b ≡ true) × (ks ≡ [])
no_failure true ks j h = ground arith
no_failure false ks j h = cc

failed_keys-lookup :
    (env : Environment) (user_email : String) (resource context : Option Fields) (k : String)
    (fs : Fields) (v : Json)
    → failed_keys env user_email resource context fs ≡ ok []
    → lookup k fs ≡ some v
    → condition_holds env user_email resource context k v ≡ ok true
unfolding failed_keys lookup
failed_keys-lookup env user_email resource context k end v h e = cc
failed_keys-lookup env user_email resource context k (field j w fs) v h e =
    let (b, f, h₁) = >>=-eq-ok (condition_holds env user_email resource context j w) _ h in
    let (ks, g, h₂) = >>=-eq-ok (failed_keys env user_email resource context fs) _ h₁ in
    let (t, n) = no_failure b ks j h₂ in
    elim (Bool-cases (str_eq j k)) [
      | inl same ↦
          let (eq, _) = eq_iff j k in
          let vw : w ≡ v = ground arith in
          subst (λ i. condition_holds env user_email resource context i v ≡ ok true) (eq same)
            (subst (λ u. condition_holds env user_email resource context j u ≡ ok true) vw
              (f ∙ ap (λ l. ok l) t))
      | inr other ↦
          failed_keys-lookup env user_email resource context k fs v (g ∙ ap (λ l. ok l) n)
            (ground arith)
    ]

-- Where a policy has resource attributes at all, they name a company or a group.
abbrev pub names_scope : Option Json → Bool
names_scope none = true
names_scope (some attrs) =
    not (truthy attrs)
    || is_some (value_of "company_id" attrs)
    || is_some (value_of "group_root_id" attrs)

module _ (c g : ℕ) where
  equals-all_equal :
      (k : String) (n : ℕ) (fs : Fields)
      → get k (resource_scope_dict c g) ≡ int (pos n)
      → all_equal fs (resource_scope_dict c g) ≡ true
      → is_some (lookup k fs) ≡ true
      → equals n (lookup k fs) ≡ true
  equals-all_equal k n fs r h e = elim (Option-cases (lookup k fs)) [
    | inl f ↦ ground arith
    | inr (v, f) ↦
        let same = all_equal-lookup k fs (resource_scope_dict c g) v h f in
        let int_same = subst (λ u. json_eq u v ≡ true) r same in
        ground (arith, json_eq-int_comm v (pos n))
  ]

  reached_of_fields :
      (fs : Fields)
      → all_equal fs (resource_scope_dict c g) ≡ true
      → (is_some (lookup "company_id" fs) || is_some (lookup "group_root_id" fs)) ≡ true
      → (equals c (lookup "company_id" fs) || equals g (lookup "group_root_id" fs)) ≡ true
  unfolding get lookup resource_scope_dict
  reached_of_fields fs h e = elim (Bool-cases (is_some (lookup "company_id" fs))) [
    | inl t ↦ let match = equals-all_equal "company_id" c fs refl h t in ground arith
    | inr f ↦
        let match = equals-all_equal "group_root_id" g fs refl h (ground arith) in ground arith
  ]

  reached_of_match :
      (attrs : Json)
      → attributes_match attrs (some (resource_scope_dict c g)) ≡ ok true
      → names_scope (some attrs) ≡ true
      → reached_by (some attrs) c g ≡ true
  unfolding attributes_match items_of truthy
  reached_of_match (obj (field k v fs)) h e = reached_of_fields (field k v fs) (ground arith) e
  reached_of_match (obj end) h e = refl
  reached_of_match null h e = refl
  reached_of_match (bool true) h e = cc
  reached_of_match (bool false) h e = refl
  reached_of_match (int z) h e = elim (Bool-cases (int_beq z (pos 0))) [
    | inl t ↦ rw t refl
    | inr t ↦ ground arith
  ]
  reached_of_match (str s) h e = ground arith
  reached_of_match (arr xs) h e = ground arith

satisfied_lem : (r : Result (List String)) → satisfied r ≡ true → r ≡ ok []
satisfied_lem (ok []) h = refl
satisfied_lem (ok (k ∷ ks)) h = cc
satisfied_lem (err e) h = cc

any_mono :
    {A : Type 0} (q a b : A → Bool) (xs : List A)
    → ((x : A) → q x ≡ true → a x ≡ true → b x ≡ true)
    → all q xs ≡ true
    → any a xs ≡ true
    → any b xs ≡ true
any_mono q a b [] f h k = k
any_mono q a b (x ∷ xs) f h k = ground (arith, f x, any_mono q a b xs f)

module _ (env : Environment) (action resource_type user_email : String) (context : Option Fields)
    (c g : ℕ) where
  reached_of_conditions :
      (conditions : Option Fields)
      → satisfied
          (evaluate_conditions env user_email (some (resource_scope_dict c g)) context conditions)
        ≡ true
      → names_scope (attributes_of conditions) ≡ true
      → reached_by (attributes_of conditions) c g ≡ true
  unfolding evaluate_conditions
  reached_of_conditions none h e = refl
  reached_of_conditions (some fs) h e = elim (Option-cases (lookup "resource_attributes" fs)) [
    | inl f ↦ subst (λ o. reached_by o c g ≡ true) (sym f) refl
    | inr (attrs, f) ↦
        let none_failed =
          satisfied_lem (failed_keys env user_email (some (resource_scope_dict c g)) context fs)
            h in
        let matched =
          failed_keys-lookup env user_email (some (resource_scope_dict c g)) context
            "resource_attributes" fs attrs none_failed f in
        subst (λ o. reached_by o c g ≡ true) (sym f)
          (reached_of_match c g attrs matched (subst (λ o. names_scope o ≡ true) f e))
  ]

  reaches_of_grants :
      (p : Policy)
      → names_scope (attributes_of p.conditions) ≡ true
      → grants env action resource_type user_email (some (resource_scope_dict c g)) context p ≡ true
      → (applies action resource_type p && reaches p c g) ≡ true
  unfolding grants applies concerns
  reaches_of_grants p e h =
      let reached = reached_of_conditions p.conditions in ground (arith, reached)

  -- What a check of one company allows is in the list, where every policy whose resource
  -- attributes are not empty names a company or a group among them.
  pub in_scope_of_allowed :
      (ps : List Policy) (scope : CompanyScope) (d : AuthorizationDecision)
      → all (λ p. names_scope (attributes_of p.conditions)) ps ≡ true
      → scope_of_policies ps action resource_type ≡ ok scope
      → evaluate_detailed env action resource_type user_email
          (some (resource_scope_dict c g))
          context
          ps
        ≡ ok d
      → d.allowed ≡ true
      → in_scope scope c g ≡ true
  in_scope_of_allowed ps scope d n e f allowed =
      let (_, _, granted, _) =
        evaluate_detailed_lem env action resource_type user_email (some (resource_scope_dict c g))
          context ps d f in
      in_scope-scope_of_policies c g ps action resource_type scope e
      ∙ any_mono _ _ _ ps reaches_of_grants n (sym granted ∙ allowed)
