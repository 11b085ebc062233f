-- ===== src/Seed/Laws.antt =====
-- Seeding creates what is missing, and nothing the second time.
use balance_sheet_analysis.Prelude.{
  ℕ, suc, String, Bool, true, ◌≡◌, refl, sym, ap, ◌∙◌, inl, inr, Bool-cases, Option, none, some,
  is_some, List, [], ◌∷◌, ◌++◌, All, arith, if◌then◌else◌,
}
use mathlib.Core.Path.{subst}
use balance_sheet_analysis.Prelude.Equality.{◌==◌, string_eq}
use balance_sheet_analysis.Exec.{Result, ok, err, pure, continue, ◌>>◌, integrity_error}
use balance_sheet_analysis.Tables.{Database, Policy}
use balance_sheet_analysis.Policies.Store.Rows.{find_policy, name_free}
use balance_sheet_analysis.Policies.Store.History.{add_entry}
use balance_sheet_analysis.Policies.Store.Mutations.{
  create_unowned, get_by_name, new_policy, created_entry,
}
use balance_sheet_analysis.Seed.{
  BasePolicy, base_policies, payload_of, seed_missing, seed_policies, seed_base_policies,
}

abbrev pub Stored : Database → BasePolicy → Type 0
Stored db base = is_some (find_policy base.name db.policies) ≡ true

find_policy-append :
    (name : String) (ps : List Policy) (new : Policy)
    → is_some (find_policy name ps) ≡ true
    → is_some (find_policy name (ps ++ new ∷ [])) ≡ true
find_policy-append name [] new h = absurd (cc)
find_policy-append name (p ∷ ps) new h = ground (arith, find_policy-append name ps new)

find_policy-new :
    (ps : List Policy) (new : Policy) → is_some (find_policy new.name (ps ++ new ∷ [])) ≡ true
find_policy-new [] new = let same = (string_eq.same_iff new.name new.name).1 refl in ground arith
find_policy-new (p ∷ ps) new = ground (arith, find_policy-new ps new)

-- A name that is not found is free.
missing-name_free :
    (id : ℕ) (name : String) (ps : List Policy)
    → find_policy name ps ≡ none
    → name_free id name ps ≡ true
missing-name_free id name [] h = refl
missing-name_free id name (p ∷ ps) h = elim (Bool-cases (p.name == name)) [
  | inl t ↦ absurd (ground arith)
  | inr f ↦ let rest = missing-name_free id name ps (ground arith) in ground arith
]

-- Where every policy of the list is stored, seeding it does nothing.
Stored-seed_policies :
    (bases : List BasePolicy) (db : Database)
    → All (Stored db) bases
    → seed_policies bases db ≡ (ok tt, db)
unfolding seed_policies seed_missing get_by_name
Stored-seed_policies [] db h = refl
Stored-seed_policies (base ∷ bases) db (here, rest) =
    by_lookup (find_policy base.name db.policies) here (Stored-seed_policies bases db rest)
  where
    by_lookup :
        (found : Option Policy)
        → is_some found ≡ true
        → seed_policies bases db ≡ (ok tt, db)
        → continue (seed_missing base found db) (λ _. seed_policies bases) ≡ (ok tt, db)
    by_lookup none t h = absurd (cc)
    by_lookup (some p) t h = h

abbrev Grows : Database → Database → Type 0
Grows before later =
    (name : String)
    → is_some (find_policy name before.policies) ≡ true
    → is_some (find_policy name later.policies) ≡ true

-- One turn of the loop does not fail, and leaves its policy stored beside those that were.
seed_missing-stores :
    (base : BasePolicy) (db : Database)
    → (later : Database) × (seed_missing base (find_policy base.name db.policies) db
        ≡ (ok tt, later))
      × Stored later base
      × Grows db later
unfolding seed_missing create_unowned add_entry
seed_missing-stores base db = by_lookup (find_policy base.name db.policies) refl
  where
    new : Policy
    new = record (new_policy (payload_of base) "system_seed" db.policy_seq) { created_by = none }

    taken : Database
    taken = record db { policy_seq = suc db.policy_seq }

    stored : Database
    stored =
        (add_entry (created_entry new "system_seed")
          (record taken { policies = db.policies ++ new ∷ [] })).1

    after_test : Bool → Result (Unit {0}) × Database
    after_test free =
        continue
          (if free
            then ((add_entry (created_entry new "system_seed") >> pure new)
                (record taken { policies = db.policies ++ new ∷ [] }))
            else (err integrity_error, taken))
          (λ _. pure tt)

    by_lookup :
        (found : Option Policy)
        → find_policy base.name db.policies ≡ found
        → (later : Database) × (seed_missing base found db ≡ (ok tt, later))
          × Stored later base
          × Grows db later
    by_lookup (some p) e = (db, refl, ap (λ o. is_some o) e, λ name h. h)
    by_lookup none e = (
      stored,
      ap after_test (missing-name_free db.policy_seq base.name db.policies e),
      find_policy-new db.policies new,
      λ name h. find_policy-append name db.policies new h,
    )

seed_policies-stores :
    (bases : List BasePolicy) (db : Database)
    → (later : Database) × (seed_policies bases db ≡ (ok tt, later))
      × All (Stored later) bases
      × Grows db later
unfolding seed_policies get_by_name
seed_policies-stores [] db = (db, refl, tt, λ name h. h)
seed_policies-stores (base ∷ bases) db =
    let (middle, first, here, grown) = seed_missing-stores base db in
    let (later, others, rest, longer) = seed_policies-stores bases middle in
    (
      later,
      ap (λ (r : Result (Unit {0}) × Database). continue r (λ _. seed_policies bases)) first
          ∙ others,
      (longer base.name here, rest),
      λ name h. longer name (grown name h),
    )

-- From any state the seeding of the base policies does not fail, leaves a policy of each of their
-- names, and changes nothing when it is run again.
pub seed_base_policies-twice :
    (db : Database)
    → ((seed_base_policies db).0 ≡ ok tt)
      × All (Stored (seed_base_policies db).1) base_policies
      × (seed_base_policies (seed_base_policies db).1 ≡ (ok tt, (seed_base_policies db).1))
unfolding seed_base_policies
seed_base_policies-twice db =
    let (later, ran, stored, grown) = seed_policies-stores base_policies db in
    let ends = ap (λ (r : Result (Unit {0}) × Database). r.1) ran in
    let kept = subst (λ s. All (Stored s) base_policies) (sym ends) stored in
    (
      ap (λ (r : Result (Unit {0}) × Database). r.0) ran,
      kept,
      Stored-seed_policies base_policies (seed_policies base_policies db).1 kept,
    )
