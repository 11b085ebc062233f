-- ===== src/Policies/Managed/Example.antt =====
-- A database with the baseline policies, one of them assigned.
use balance_sheet_analysis.Prelude.{
  ℕ, String, Bool, true, false, not, ◌&&◌, ◌||◌, ◌≡◌, refl, sym, ap, ◌∙◌, inl, inr, Option, none,
  some, List, [], ◌∷◌, map, Elem, arith, or_iff, and_iff, length-select-le,
}
use balance_sheet_analysis.Prelude.Equality.{Eq, ◌==◌, contains, string_eq, nat_eq}
use balance_sheet_analysis.Json.{bool, Fields, end, field}
use balance_sheet_analysis.Tables.{Database, Policy, UserPolicy}
use balance_sheet_analysis.Examples.{empty_database}
use balance_sheet_analysis.Access.Tests.{no_library}
use balance_sheet_analysis.Policies.Store.Assignments.{links}
use mathlib.Core.Path.{subst}
use balance_sheet_analysis.Policies.Conditions.Validator.{
  validate_conditions, validate_fields, validate_condition, validator, validate_self_only,
}
use balance_sheet_analysis.Policies.Engine.Total.{IsAccepted}
use balance_sheet_analysis.Policies.Names.{is_protected}
use balance_sheet_analysis.Policies.Store.Mutations.{PolicyCreate}
use balance_sheet_analysis.Policies.Managed.{Managed}

abbrev pub self_conditions : Option Fields
self_conditions = some (field "self_only" (bool true) end)

abbrev baseline_policy : ℕ → String → List String → String → Option Fields → Policy
baseline_policy id name actions resource_type conditions = record {
  id = id;
  name = name;
  description = none;
  actions = some actions;
  resource_type = resource_type;
  conditions = conditions;
  is_active = true;
  created_by = some "system";
}

abbrev superuser_actions : List String
superuser_actions =
    "policies:read" ∷ "policies:create" ∷ "policies:update" ∷ "policies:assign" ∷ "llm:chat" ∷ []

abbrev self_policy : Policy
self_policy = baseline_policy 1 "self_service" ("users:read_own" ∷ []) "users" self_conditions

abbrev pub administration_policy : Policy
administration_policy = baseline_policy 2 "user_administration" ("users:list_all" ∷ []) "users" none

abbrev pub superuser_policy : Policy
superuser_policy = baseline_policy 3 "system_superuser" superuser_actions "*" none

-- The first user holds system_superuser.
abbrev pub seeded : Database
seeded = record empty_database {
  users = record { id = 1; email = "root" } ∷ record { id = 2; email = "guest" } ∷ [];
  policies = self_policy ∷ administration_policy ∷ superuser_policy ∷ [];
  policy_seq = 4;
  user_policies = record { user_id = 1; policy_id = 3; assigned_by = none } ∷ [];
}

-- No key comes twice.
abbrev distinct : {K : Type 0} ⦃equality : Eq K⦄ → (Policy → K) → List Policy → Bool
distinct key [] = true
distinct key (p ∷ ps) = not (contains (key p) (map key ps)) && distinct key ps

or_left : (a b : Bool) → (a || b) ≡ false → a ≡ false
or_left a b h = ground arith

or_right : (a b : Bool) → (a || b) ≡ false → b ≡ false
or_right a b h = ground arith

not-true : (b : Bool) → not b ≡ true → b ≡ false
not-true b h = ground arith

module _ {K : Type 0} ⦃equality : Eq K⦄ (key : Policy → K) where
  absent :
      (k : K) (ps : List Policy) (p : Policy)
      → contains k (map key ps) ≡ false
      → Elem p ps
      → (k == key p) ≡ false
  absent k [] p h m = absurd m
  absent k (q ∷ ps) p h m = elim m [
    | inl e ↦ ap (λ (r : Policy). k == key r) e ∙ or_left (k == key q) (contains k (map key ps)) h
    | inr m ↦ absent k ps p (or_right (k == key q) (contains k (map key ps)) h) m
  ]

  unique :
      (ps : List Policy)
      → distinct key ps ≡ true
      → (p q : Policy) → Elem p ps
      → Elem q ps
      → key p ≡ key q
      → p ≡ q
  unique [] h p q m n e = absurd m
  unique (r ∷ ps) h p q m n e =
      let (fresh, rest) = (and_iff (not (contains (key r) (map key ps))) (distinct key ps)).0 h in
      let apart = not-true (contains (key r) (map key ps)) fresh in
      elim m [
        | inl i ↦ elim n [
          | inl j ↦ i ∙ sym j
          | inr n ↦ absurd (
              cc (
                absent (key r) ps q apart n,
                (equality.same_iff (key r) (key q)).1 (ap key (sym i) ∙ e),
              ))
        ]
        | inr m ↦ elim n [
          | inl j ↦ absurd (
              cc (
                absent (key r) ps p apart m,
                (equality.same_iff (key r) (key p)).1 (ap key (sym j) ∙ sym e),
              ))
          | inr n ↦ unique ps rest p q m n e
        ]
      ]

pub seeded-Managed : Managed seeded
unfolding is_protected validate_conditions validate_fields validate_condition validator
    validate_self_only
seeded-Managed = record {
  accepted = λ p m. elim m [
    | inl e ↦ subst (λ (q : Policy). IsAccepted q.conditions) (sym e) (no_library, refl)
    | inr (inl e) ↦ subst (λ (q : Policy). IsAccepted q.conditions) (sym e) (no_library, refl)
    | inr (inr (inl e)) ↦ subst (λ (q : Policy). IsAccepted q.conditions) (sym e) (no_library, refl)
    | inr (inr (inr x)) ↦ absurd x
  ];
  names = unique (λ p. p.name) seeded.policies refl;
  ids = unique (λ p. p.id) seeded.policies refl;
  below = λ p m. elim m [
    | inl e ↦ let i = ap (λ (q : Policy). q.id) e in omega (arith, i)
    | inr (inl e) ↦ let i = ap (λ (q : Policy). q.id) e in omega (arith, i)
    | inr (inr (inl e)) ↦ let i = ap (λ (q : Policy). q.id) e in omega (arith, i)
    | inr (inr (inr x)) ↦ absurd x
  ];
  baseline = λ name h. elim ((or_iff (name == "self_service") _).0 h) [
    | inl e ↦ (self_policy, inl refl, sym ((string_eq.same_iff name "self_service").0 e), refl)
    | inr h ↦ elim ((or_iff (name == "user_administration") _).0 h) [
      | inl e ↦ (
        administration_policy,
        inr (inl refl),
        sym ((string_eq.same_iff name "user_administration").0 e),
        refl,
      )
      | inr h ↦ elim ((or_iff (name == "system_superuser") _).0 h) [
        | inl e ↦ (
          superuser_policy,
          inr (inr (inl refl)),
          sym ((string_eq.same_iff name "system_superuser").0 e),
          refl,
        )
        | inr x ↦ absurd (cc x)
      ]
    ]
  ];
  linked = λ l m. elim m [
    | inl e ↦ (superuser_policy, inr (inr (inl refl)), sym (ap (λ (k : UserPolicy). k.policy_id) e))
    | inr x ↦ absurd x
  ];
  single = λ u k. length-select-le (links u k) seeded.user_policies;
  superuser = (superuser_policy, inr (inr (inl refl)), refl, omega arith);
  named = λ h m. absurd m;
}

abbrev pub reader : PolicyCreate
reader = record {
  name = "reader";
  description = none;
  actions = "policies:read" ∷ "company:read" ∷ [];
  resource_type = "*";
  conditions = none;
}
