-- ===== src/Policies/Conditions/Validator/Laws.antt =====
-- Conditions that pass the validator can be evaluated.
use balance_sheet_analysis.Prelude.{
  String, Bool, true, false, ◌≡◌, refl, ◌⊎◌, inl, inr, Bool-cases, Option, none, some, Option-cases,
  List, [], ◌∷◌, ◌++◌, if◌then◌else◌, ◌<>◌, arith,
}
use balance_sheet_analysis.Prelude.Equality.{◌==◌, string_eq}
use balance_sheet_analysis.Json.{
  Json, null, bool, int, str, arr, obj, Fields, end, field, get, truthy, json_eq, lookup, attribute,
  items_of,
}
use balance_sheet_analysis.Exec.{Result, ok}
use balance_sheet_analysis.Policies.Conditions.{
  Handler, self_only_handler, resource_attributes_handler, context_attributes_handler, time_handler,
  date_range_handler, network_handler, security_context_handler, registry, evaluate_handler,
  condition_holds, failed_keys, evaluate_conditions,
}
use balance_sheet_analysis.Policies.Conditions.Attributes.{
  attributes_match, signals_match, security_context,
}
use balance_sheet_analysis.Policies.Conditions.Library.{Environment, or_empty}
use balance_sheet_analysis.Policies.Conditions.Validator.{
  validate_self_only, validate_resource_attributes, validate_context_attributes,
  validate_security_context, validate_time, validate_date_range, validate_network, validator,
  validate_condition, validate_fields, validate_conditions, conditions_value, non_empty_object,
}

-- The signals of a context are absent, or a dict: build_authorization_context makes a dict.
abbrev pub AreSignals : Json → Type 0
AreSignals signals = (truthy signals ≡ false) ⊎ ((fs : Fields) × (signals ≡ obj fs))

-- A check with no context.
pub no_signals : AreSignals (get "security_context" (or_empty none))
unfolding get lookup truthy
no_signals = inl refl

pub append_nil_left : {A : Type 0} (xs ys : List A) → xs ++ ys ≡ [] → xs ≡ []
append_nil_left [] ys h = refl
append_nil_left (x ∷ xs) ys h = absurd (cc)

pub append_nil_right : {A : Type 0} (xs ys : List A) → xs ++ ys ≡ [] → ys ≡ []
append_nil_right [] ys h = h
append_nil_right (x ∷ xs) ys h = absurd (cc)

-- A call that returns.
abbrev pub Returns : {A : Type 0} → Result A → Type 0
Returns {A = A} r = (a : A) × (r ≡ ok a)

signals_match-Returns : (fs gs : Fields) → Returns (signals_match fs (obj gs))
unfolding signals_match attribute
signals_match-Returns end gs = (true, refl)
signals_match-Returns (field k v fs) gs = elim (Option-cases (lookup k gs)) [
  | inl e ↦ (false, ground arith)
  | inr (w, e) ↦ elim (Bool-cases (json_eq w v)) [
    | inl t ↦ let (b, r) = signals_match-Returns fs gs in (b, ground arith)
    | inr f ↦ (false, ground arith)
  ]
]

module _ (checked env : Environment) (user_email : String) (resource context : Option Fields)
    (signals : AreSignals (get "security_context" (or_empty context))) where
  attributes_match-Returns :
      (k : String) (v : Json) (fs : Fields) (source : Option Fields)
      → Returns (attributes_match (obj (field k v fs)) source)
  unfolding attributes_match items_of truthy
  attributes_match-Returns k v fs none = (false, refl)
  attributes_match-Returns k v fs (some s) = (_, refl)

  security_context-Returns :
      (k : String) (v : Json) (fs : Fields)
      → Returns (security_context (obj (field k v fs)) context)
  unfolding security_context items_of truthy
  security_context-Returns k v fs =
      elim (Bool-cases (truthy (get "security_context" (or_empty context)))) [
        | inr f ↦ (false, ground arith)
        | inl t ↦ elim signals [
          | inl f ↦ absurd (cc)
          | inr (gs, e) ↦ let (b, r) = signals_match-Returns (field k v fs) gs in (b, ground arith)
        ]
      ]

  -- A value that passes: the handlers that look at its type are called with a dict.
  attributes-Returns :
      (message : String) (value : Json) (source : Option Fields)
      → non_empty_object message value ≡ []
      → Returns (attributes_match value source)
  attributes-Returns message (obj (field k v fs)) source h = attributes_match-Returns k v fs source
  attributes-Returns message (obj end) source h = absurd (cc)
  attributes-Returns message null source h = absurd (cc)
  attributes-Returns message (bool b) source h = absurd (cc)
  attributes-Returns message (int z) source h = absurd (cc)
  attributes-Returns message (str s) source h = absurd (cc)
  attributes-Returns message (arr xs) source h = absurd (cc)

  signals-Returns :
      (value : Json)
      → validate_security_context value ≡ []
      → Returns (security_context value context)
  unfolding validate_security_context
  signals-Returns (obj (field k v fs)) h = security_context-Returns k v fs
  signals-Returns (obj end) h = absurd (cc)
  signals-Returns null h = absurd (cc)
  signals-Returns (bool b) h = absurd (cc)
  signals-Returns (int z) h = absurd (cc)
  signals-Returns (str s) h = absurd (cc)
  signals-Returns (arr xs) h = absurd (cc)

  -- What a check and a handler that some test picks make of a value.
  abbrev problems : Option (Json → List String) → Json → String → List String
  problems found value key = elim found [
    | none ↦ "Unknown condition key '" <> key <> "'" ∷ []
    | some check ↦ check value
  ]

  abbrev handled : Option Handler → Json → Result Bool
  handled found value = elim found [
    | none ↦ ok false
    | some handler ↦ evaluate_handler env user_email resource context handler value
  ]

  -- The tests that the validator and the registry make of a key, in the registry's order. The
  -- validator asks for "security_context" before the last three.
  by_tests :
      (key : String) (value : Json) (own attributes contexts time dates network signalled : Bool)
      → problems
          (if own
            then some validate_self_only
            else if attributes
            then some validate_resource_attributes
            else if contexts
            then some validate_context_attributes
            else if signalled
            then some validate_security_context
            else if time
            then some (validate_time checked)
            else if dates
            then some (validate_date_range checked)
            else if network
            then some (validate_network checked)
            else none)
          value
          key
        ≡ []
      → Returns (
          handled
            (if own
              then some self_only_handler
              else if attributes
              then some resource_attributes_handler
              else if contexts
              then some context_attributes_handler
              else if time
              then some time_handler
              else if dates
              then some date_range_handler
              else if network
              then some network_handler
              else if signalled
              then some security_context_handler
              else none)
            value)
  unfolding evaluate_handler validate_resource_attributes validate_context_attributes
  by_tests key value true _ _ _ _ _ _ h = (_, refl)
  by_tests key value false true _ _ _ _ _ h = attributes-Returns _ value resource h
  by_tests key value false false true _ _ _ _ h = attributes-Returns _ value context h
  by_tests key value false false false true _ _ _ h = (_, refl)
  by_tests key value false false false false true _ _ h = (_, refl)
  by_tests key value false false false false false true _ h = (_, refl)
  by_tests key value false false false false false false true h = signals-Returns value h
  by_tests key value false false false false false false false h = absurd (cc)

  condition_holds-Returns :
      (key : String) (value : Json)
      → validate_condition checked key value ≡ []
      → Returns (condition_holds env user_email resource context key value)
  unfolding validate_condition validator condition_holds registry
  condition_holds-Returns key value h =
      by_tests key value (key == "self_only") (key == "resource_attributes")
        (key == "context_attributes") (key == "time") (key == "date_range") (key == "network")
        (key == "security_context") h

  failed_keys-Returns :
      (fs : Fields)
      → validate_fields checked fs ≡ []
      → Returns (failed_keys env user_email resource context fs)
  unfolding validate_fields failed_keys
  failed_keys-Returns end h = ([], refl)
  failed_keys-Returns (field key value fs) h =
      let (b, e) =
        condition_holds-Returns key value
          (append_nil_left (validate_condition checked key value) (validate_fields checked fs) h) in
      let (failed, f) =
        failed_keys-Returns fs (
          append_nil_right (validate_condition checked key value) (validate_fields checked fs) h) in
      (if b then failed else key ∷ failed, ground arith)

  -- Conditions that the validator found no problem in are evaluated to the end, on whatever resource
  -- and context there is and whatever the library is by then: no handler raises. The context must
  -- hold no security signals, or a dict of them.
  pub evaluate_conditions-total :
      (conditions : Option Fields)
      → validate_conditions checked (conditions_value conditions) ≡ []
      → (failed : List String) × (evaluate_conditions env user_email resource context conditions
          ≡ ok failed)
  unfolding validate_conditions evaluate_conditions failed_keys
  evaluate_conditions-total none h = ([], refl)
  evaluate_conditions-total (some fs) h = failed_keys-Returns fs h
