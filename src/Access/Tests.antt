-- ===== src/Access/Tests.antt =====
-- The theorems about scopes and checks applied to a few policies.
use balance_sheet_analysis.Prelude.{
  ℕ, Bool, true, false, ◌&&◌, ◌≡◌, refl, none, some, List, [], ◌∷◌, any, map, select, is_nil,
  if◌then◌else◌,
}
use balance_sheet_analysis.Prelude.Int.{pos}
use balance_sheet_analysis.Json.{int, lookup, get, truthy, hashable, items_of, json_eq}
use balance_sheet_analysis.Exec.{ok}
use balance_sheet_analysis.Tables.{Policy}
use balance_sheet_analysis.Access.Scope.{
  CompanyScope, applies, add_value, add_attributes, add_found, add_policy as add_scope_policy,
  resource_attributes, add_policies, scope_of_policies, in_scope, resource_scope_dict,
}
use balance_sheet_analysis.Access.Scope.Laws.{reaches, in_scope-scope_of_policies}
use balance_sheet_analysis.Access.Agreement.{in_scope_of_allowed}
use balance_sheet_analysis.Access.Plain.{company, group, conditions_for, AllPlain, scope_agrees}
use balance_sheet_analysis.Policies.Conditions.{
  registry, evaluate_handler, condition_holds, failed_keys, evaluate_conditions,
}
use balance_sheet_analysis.Policies.Conditions.Attributes.{all_equal, attributes_match}
use balance_sheet_analysis.Policies.Conditions.Library.{Environment}
use balance_sheet_analysis.Policies.Engine.{
  AuthorizationDecision, evaluate, evaluate_detailed, tally_policies, add_policy, concerns,
  add_result, decision_of,
}
use balance_sheet_analysis.Policies.Engine.Laws.{grants, refuses, evaluate_detailed_lem}

-- A library that refuses every text, with the clock at 0.
abbrev pub no_library : Environment
no_library = record {
  now = 0;
  parse_datetime = λ s. none;
  parse_time = λ s. none;
  has_offset = λ s. false;
  parse_date = λ s. none;
  zone_exists = λ s. false;
  available_timezone = λ s. false;
  time_in_zone = λ z n. 0;
  date_in_zone = λ z n. 0;
  parse_address = λ v. none;
  in_network = λ n s. none;
  is_network = λ s. false;
  repr = λ v. "";
  strip = λ s. s;
  lower = λ s. s;
}

abbrev pub group_policy : Policy
group_policy = record {
  id = 1;
  name = "group_reader";
  description = none;
  actions = some ("company:read" ∷ []);
  resource_type = "company";
  conditions = conditions_for (group 1);
  is_active = true;
  created_by = none;
}

abbrev pub company_policy : Policy
company_policy = record {
  id = 2;
  name = "one_reader";
  description = none;
  actions = some ("company:read" ∷ []);
  resource_type = "company";
  conditions = conditions_for (company 7);
  is_active = true;
  created_by = none;
}

abbrev pub two_policies : List Policy
two_policies = group_policy ∷ company_policy ∷ []

plain_example : AllPlain two_policies
plain_example = ((group 1, refl), ((company 7, refl), tt))

abbrev two_scope : CompanyScope
two_scope = record {
  unrestricted = false;
  company_ids = int (pos 7) ∷ [];
  group_root_ids = int (pos 1) ∷ [];
}

two_scope_example : scope_of_policies two_policies "company:read" "company" ≡ ok two_scope
unfolding scope_of_policies add_policies applies add_scope_policy resource_attributes add_found
    add_attributes add_value lookup truthy hashable
two_scope_example = refl

abbrev pub second_granted : AuthorizationDecision
second_granted = record {
  allowed = true;
  action = "company:read";
  resource_type = "company";
  user = "a@b.c";
  evaluated_policies = "group_reader" ∷ "one_reader" ∷ [];
  matched_policies = "group_reader" ∷ [];
  rejected_policies = "one_reader" ∷ [];
  failed_conditions = ("one_reader", "resource_attributes" ∷ []) ∷ [];
  denial_reason = none;
}

second_granted_example :
    evaluate_detailed no_library "company:read" "company" "a@b.c"
      (some (resource_scope_dict 2 1))
      none
      two_policies
    ≡ ok second_granted
unfolding evaluate_detailed tally_policies add_policy concerns add_result decision_of
    evaluate_conditions failed_keys condition_holds registry evaluate_handler attributes_match
    all_equal resource_scope_dict truthy items_of json_eq get lookup
second_granted_example = refl

in_scope-scope_of_policies_example :
    in_scope two_scope 2 1
    ≡ any (λ p. applies "company:read" "company" p && reaches p 2 1) two_policies
in_scope-scope_of_policies_example =
    in_scope-scope_of_policies 2 1 two_policies "company:read" "company" two_scope two_scope_example

in_scope_of_allowed_example : in_scope two_scope 2 1 ≡ true
unfolding lookup truthy
in_scope_of_allowed_example =
    in_scope_of_allowed no_library "company:read" "company" "a@b.c" none 2 1 two_policies two_scope
      second_granted refl two_scope_example second_granted_example refl

scope_agrees_example :
    (scope : CompanyScope) × (scope_of_policies two_policies "company:read" "company" ≡ ok scope)
    × ((c g : ℕ)
        → evaluate no_library "company:read" "company" "a@b.c"
            (some (resource_scope_dict c g))
            none
            two_policies
          ≡ ok (in_scope scope c g))
scope_agrees_example =
    scope_agrees no_library "company:read" "company" "a@b.c" none two_policies plain_example

-- `grants` and `refuses` for one call.
abbrev granting : Policy → Bool
granting = grants no_library "company:read" "company" "a@b.c" (some (resource_scope_dict 2 1)) none

abbrev refusing : Policy → Bool
refusing = refuses no_library "company:read" "company" "a@b.c" (some (resource_scope_dict 2 1)) none

evaluate_detailed_lem_example :
    (second_granted.matched_policies ≡ map (λ (p : Policy). p.name) (select granting two_policies))
    × (second_granted.rejected_policies
        ≡ map (λ (p : Policy). p.name) (select refusing two_policies))
    × (second_granted.allowed ≡ any granting two_policies)
    × (second_granted.denial_reason ≡ (
        if any granting two_policies
        then none
        else if is_nil two_policies
        then some "no_assigned_policies"
        else if any refusing two_policies
        then some "condition_failed"
        else some "no_matching_policy"))
evaluate_detailed_lem_example =
    evaluate_detailed_lem no_library "company:read" "company" "a@b.c"
      (some (resource_scope_dict 2 1)) none two_policies second_granted second_granted_example
