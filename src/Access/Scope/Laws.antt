-- ===== src/Access/Scope/Laws.antt =====
-- Which companies a scope lets through, in terms of the policies that it was made from.
use balance_sheet_analysis.Prelude.{
  ℕ, String, Bool, true, false, ◌&&◌, ◌||◌, ◌≡◌, Option, none, some, List, [], ◌∷◌, ◌++◌, any,
  arith, if◌then◌else◌,
}
use balance_sheet_analysis.Prelude.Equality.{nat_eq}
use balance_sheet_analysis.Prelude.Int.{ℤ, pos, negsuc, int_beq}
use balance_sheet_analysis.Json.{
  Json, null, bool, int, str, arr, obj, Fields, lookup, truthy, json_eq, of_bool, attribute,
}
use balance_sheet_analysis.Exec.{ok, type_error}
use balance_sheet_analysis.Exec.Pure.{>>=-eq-ok}
use balance_sheet_analysis.Tables.{Policy}
use balance_sheet_analysis.Access.Scope.{
  CompanyScope, in_scope, add_value, add_attributes, add_found, add_policy, add_policies, applies,
  resource_attributes, scope_of_policies, nothing,
}

int_beq_iff : (y z : ℤ) → int_beq y z ≡ true → y ≡ z
int_beq_iff (pos a) (pos b) h = ground arith
int_beq_iff (negsuc a) (negsuc b) h = ground arith
int_beq_iff (pos a) (negsuc b) h = cc
int_beq_iff (negsuc a) (pos b) h = cc

-- Two values that equal a third are equal, where one is a number.
json_eq_euclid :
    (v w : Json) (z : ℤ) → json_eq v w ≡ true → json_eq v (int z) ≡ true → json_eq w (int z) ≡ true
unfolding json_eq
json_eq_euclid (bool a) (bool b) z h k = rw (← int_beq_iff (of_bool a) (of_bool b) h) k
json_eq_euclid (bool a) (int y) z h k = rw (← int_beq_iff (of_bool a) y h) k
json_eq_euclid (int x) (bool b) z h k = rw (← int_beq_iff x (of_bool b) h) k
json_eq_euclid (int x) (int y) z h k = rw (← int_beq_iff x y h) k
json_eq_euclid null w z h k = cc
json_eq_euclid (str s) w z h k = cc
json_eq_euclid (arr xs) w z h k = cc
json_eq_euclid (obj fs) w z h k = cc
json_eq_euclid (bool a) w z h k = cc
json_eq_euclid (int x) w z h k = cc

abbrev holds : ℕ → List Json → Bool
holds n ids = any (λ v. json_eq v (int (pos n))) ids

holds_of_eq :
    (v : Json) (n : ℕ) (ids : List Json)
    → any (json_eq v) ids ≡ true
    → json_eq v (int (pos n)) ≡ true
    → holds n ids ≡ true
holds_of_eq v n [] h k = cc
holds_of_eq v n (w ∷ ids) h k = ground (arith, holds_of_eq v n ids, json_eq_euclid v w (pos n))

holds-append :
    (n : ℕ) (ids : List Json) (v : Json)
    → holds n (ids ++ v ∷ []) ≡ (holds n ids || json_eq v (int (pos n)))
holds-append n [] v = ground arith
holds-append n (w ∷ ids) v = ground (arith, holds-append n ids v)

abbrev pub equals : ℕ → Option Json → Bool
equals n none = false
equals n (some v) = json_eq v (int (pos n))

holds-add_value :
    (n : ℕ) (o : Option Json) (ids ids' : List Json)
    → add_value o ids ≡ ok ids'
    → holds n ids' ≡ (holds n ids || equals n o)
unfolding add_value
holds-add_value n none ids ids' h = ground arith
holds-add_value n (some v) ids ids' h = ground (arith, holds-append n ids v, holds_of_eq v n ids)

-- The rows that one policy reaches by its `resource_attributes`: all of them where it has none.
abbrev pub value_of : String → Json → Option Json
value_of k (obj fs) = lookup k fs
value_of k _ = none

abbrev pub reached_by : Option Json → ℕ → ℕ → Bool
reached_by none company_id group_root_id = true
reached_by (some attrs) company_id group_root_id =
    if truthy attrs
    then equals company_id (value_of "company_id" attrs)
      || equals group_root_id (value_of "group_root_id" attrs)
    else true

abbrev pub attributes_of : Option Fields → Option Json
attributes_of none = none
attributes_of (some conditions) = lookup "resource_attributes" conditions

abbrev pub reaches : Policy → ℕ → ℕ → Bool
reaches p = reached_by (attributes_of p.conditions)

pub resource_attributes_lem : (p : Policy) → resource_attributes p ≡ attributes_of p.conditions
unfolding resource_attributes
resource_attributes_lem p = ground arith

value-attribute :
    (k : String) (attrs : Json) (o : Option Json)
    → attribute type_error k attrs ≡ ok o
    → o ≡ value_of k attrs
unfolding attribute
value-attribute k (obj fs) o h = ground arith
value-attribute k (arr xs) o h = ground arith
value-attribute k (str s) o h = ground arith
value-attribute k null o h = cc
value-attribute k (bool b) o h = cc
value-attribute k (int z) o h = cc

module _ (company_id group_root_id : ℕ) where
  in_scope-add_attributes :
      (attrs : Json) (s t : CompanyScope)
      → add_attributes attrs s ≡ ok t
      → in_scope t company_id group_root_id ≡ (
          in_scope s company_id group_root_id
          || (equals company_id (value_of "company_id" attrs)
              || equals group_root_id (value_of "group_root_id" attrs)))
  unfolding add_attributes in_scope
  in_scope-add_attributes attrs s t h =
      let (o, e, h₁) = >>=-eq-ok (attribute type_error "company_id" attrs) _ h in
      let (cs, f, h₂) = >>=-eq-ok (add_value o s.company_ids) _ h₁ in
      let (q, g, h₃) = >>=-eq-ok (attribute type_error "group_root_id" attrs) _ h₂ in
      let (gs, k, h₄) = >>=-eq-ok (add_value q s.group_root_ids) _ h₃ in
      ground (
        arith,
        holds-add_value company_id o s.company_ids cs f,
        holds-add_value group_root_id q s.group_root_ids gs k,
        value-attribute "company_id" attrs o e,
        value-attribute "group_root_id" attrs q g,
      )

  in_scope-add_found :
      (o : Option Json) (s t : CompanyScope)
      → add_found o s ≡ ok t
      → in_scope t company_id group_root_id
        ≡ (in_scope s company_id group_root_id || reached_by o company_id group_root_id)
  unfolding add_found in_scope
  in_scope-add_found none s t h = ground arith
  in_scope-add_found (some attrs) s t h = ground (arith, in_scope-add_attributes attrs s t)

  -- A scope that is made reaches a company exactly where one of the policies that apply does.
  in_scope-add_policies :
      (action resource_type : String) (ps : List Policy) (s t : CompanyScope)
      → add_policies action resource_type ps s ≡ ok t
      → in_scope t company_id group_root_id ≡ (
          in_scope s company_id group_root_id
          || any (λ p. applies action resource_type p && reaches p company_id group_root_id) ps)
  unfolding add_policies add_policy
  in_scope-add_policies action resource_type [] s t h = ground arith
  in_scope-add_policies action resource_type (p ∷ ps) s t h =
      let (u, e, rest) =
        >>=-eq-ok (if applies action resource_type p then add_policy p s else ok s) _ h in
      ground (
        arith,
        in_scope-add_policies action resource_type ps u t rest,
        in_scope-add_found (resource_attributes p) s u,
        resource_attributes_lem p,
      )

  pub in_scope-scope_of_policies :
      (ps : List Policy) (action resource_type : String) (scope : CompanyScope)
      → scope_of_policies ps action resource_type ≡ ok scope
      → in_scope scope company_id group_root_id
        ≡ any (λ p. applies action resource_type p && reaches p company_id group_root_id) ps
  unfolding scope_of_policies in_scope
  in_scope-scope_of_policies ps action resource_type scope h =
      in_scope-add_policies action resource_type ps nothing scope h
