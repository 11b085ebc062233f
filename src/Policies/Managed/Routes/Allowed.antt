-- ===== src/Policies/Managed/Routes/Allowed.antt =====
-- The changes of a policy that the guards of its handlers leave open.
use balance_sheet_analysis.Prelude.{
  String, Bool, true, false, not, ◌&&◌, ◌≡◌, refl, ap, Option, none, some, List, [], ◌∷◌, ◌++◌,
  Elem, All, some-inj, arith, inl, inr, Bool-cases,
}
use mathlib.Core.Path.{subst}
use balance_sheet_analysis.Prelude.Equality.{◌==◌, string_eq}
use balance_sheet_analysis.Json.{Fields}
use balance_sheet_analysis.Tables.{Database, Policy}
use balance_sheet_analysis.Companies.Schema.{Sent, unset, sent}
use balance_sheet_analysis.Policies.Engine.Total.{IsAccepted}
use balance_sheet_analysis.Policies.Names.{is_protected}
use balance_sheet_analysis.Policies.Store.Rows.{
  Change, set_name, set_description, set_actions, set_resource_type, set_conditions, set_is_active,
  set_field,
}
use balance_sheet_analysis.Policies.Admin.Crud.{
  PolicyUpdate, fields_of, if_sent, if_given, renames, deactivates,
}
use balance_sheet_analysis.Policies.Managed.{Managed}
use balance_sheet_analysis.Policies.Managed.Kept.{IsKept}

All-append : {A : Type 0} (P : A → Type 0) (xs ys : List A) → All P xs → All P ys → All P (xs ++ ys)
All-append P [] ys a b = b
All-append P (x ∷ xs) ys (p, a) b = (p, All-append P xs ys a b)

-- A change that a policy may undergo.
abbrev pub IsAllowed : Policy → Change → Type 0
IsAllowed policy (set_name (some n)) = is_protected policy.name ≡ true → n ≡ policy.name
IsAllowed policy (set_conditions v) = IsAccepted v
IsAllowed policy (set_is_active (some b)) = is_protected policy.name ≡ true → b ≡ true
IsAllowed policy _ = Unit

pub one_change :
    (policy : Policy) (c : Change) (p q : Policy)
    → IsAllowed policy c
    → IsKept policy p
    → set_field c p ≡ some q
    → IsKept policy q
unfolding set_field
one_change policy (set_name none) p q a k e = absurd (cc)
one_change policy (set_name (some n)) p q a (i, g, b) e =
    subst (IsKept policy) (some-inj _ q e) (i, g, λ t. (a t, (b t).1))
one_change policy (set_description v) p q a k e = subst (IsKept policy) (some-inj _ q e) k
one_change policy (set_actions none) p q a k e = absurd (cc)
one_change policy (set_actions (some v)) p q a k e = subst (IsKept policy) (some-inj _ q e) k
one_change policy (set_resource_type v) p q a k e = subst (IsKept policy) (some-inj _ q e) k
one_change policy (set_conditions v) p q a (i, g, b) e =
    subst (IsKept policy) (some-inj _ q e) (i, a, b)
one_change policy (set_is_active none) p q a k e = absurd (cc)
one_change policy (set_is_active (some b)) p q a (i, g, c) e =
    subst (IsKept policy) (some-inj _ q e) (i, g, λ t. ((c t).0, a t))

pub sent-inj : {A : Type 0} (v w : Option A) → ◌≡◌ {A = Sent A} (sent v) (sent w) → v ≡ w
sent-inj v w e = cc

pub not-false : (b : Bool) → not b ≡ false → b ≡ true
not-false true h = refl
not-false false h = absurd (cc)

-- What the two guards of a baseline policy leave open.
pub implied : (a b : Bool) → (a && b) ≡ false → a ≡ true → b ≡ false
implied a b h t = ground arith

not_renamed :
    (name : Sent String) (policy : Policy) (n : String)
    → renames name policy ≡ false
    → name ≡ sent (some n)
    → n ≡ policy.name
unfolding renames
not_renamed unset policy n h e = absurd (cc)
not_renamed (sent none) policy n h e = absurd (cc)
not_renamed (sent (some m)) policy n h e = elim (Bool-cases (m == policy.name)) [
  | inl t ↦ let i = (string_eq.same_iff m policy.name).0 t in cc
  | inr f ↦ absurd (ground arith)
]

pub pieces :
    (policy : Policy) (u : PolicyUpdate)
    → ((v : Option Fields) → u.conditions ≡ sent v → IsAccepted v)
    → (is_protected policy.name && renames u.name policy) ≡ false
    → (is_protected policy.name && deactivates u.is_active) ≡ false
    → All (IsAllowed policy) (fields_of u)
unfolding fields_of
pieces policy u good name active =
    join _ (if_sent set_is_active u.is_active)
      (join _ (if_sent set_conditions u.conditions)
        (join _ (if_given u.resource_type)
          (join _ (if_sent set_actions u.actions)
            (join (if_sent set_name u.name) (if_sent set_description u.description)
              (names u.name refl) (descriptions u.description))
            (actions u.actions))
          (resource_types u.resource_type))
        (conditions u.conditions refl))
      (flags u.is_active refl)
  where
    join :
        (xs ys : List Change)
        → All (IsAllowed policy) xs
        → All (IsAllowed policy) ys
        → All (IsAllowed policy) (xs ++ ys)
    join = All-append (IsAllowed policy)

    names : (s : Sent String) → u.name ≡ s → All (IsAllowed policy) (if_sent set_name s)
    names unset e = tt
    names (sent none) e = (tt, tt)
    names (sent (some n)) e = (
      λ t.
          not_renamed u.name policy n
            (implied (is_protected policy.name) (renames u.name policy) name t) e,
      tt,
    )

    descriptions : (s : Sent String) → All (IsAllowed policy) (if_sent set_description s)
    descriptions unset = tt
    descriptions (sent v) = (tt, tt)

    actions : (s : Sent (List String)) → All (IsAllowed policy) (if_sent set_actions s)
    actions unset = tt
    actions (sent v) = (tt, tt)

    resource_types : (s : Option String) → All (IsAllowed policy) (if_given s)
    resource_types none = tt
    resource_types (some v) = (tt, tt)

    conditions :
        (s : Sent Fields) → u.conditions ≡ s → All (IsAllowed policy) (if_sent set_conditions s)
    conditions unset e = tt
    conditions (sent v) e = (good v e, tt)

    live : (b : Bool) → u.is_active ≡ sent (some b) → is_protected policy.name ≡ true → b ≡ true
    live true e t = refl
    live false e t = absurd (
        cc
          (implied (is_protected policy.name) (deactivates u.is_active) active t, ap deactivates e))

    flags : (s : Sent Bool) → u.is_active ≡ s → All (IsAllowed policy) (if_sent set_is_active s)
    flags unset e = tt
    flags (sent none) e = (tt, tt)
    flags (sent (some b)) e = (live b e, tt)

-- A baseline policy is active.
pub unchanged :
    (db : Database)
    → Managed db
    → (policy : Policy) → Elem policy db.policies
    → IsKept policy policy
unchanged db m policy there = (
  refl,
  m.accepted policy there,
  λ t.
      let (p, e, k, active) = m.baseline policy.name t in
      (refl, subst (λ (q : Policy). q.is_active ≡ true) (m.names p policy e there k) active),
)
