-- ===== src/Policies/Cache/Memory.antt =====
-- A Redis server that keeps a list, and that the laws hold of.
use balance_sheet_analysis.Prelude.{
  ℕ, zero, suc, ◌-◌, select, Bool, String, true, false, ◌≡◌, ◌≢◌, ◌⊎◌, refl, sym, ap, ◌∙◌, inl, inr,
  Bool-cases, Option, none, some, List, [], ◌∷◌, arith, if◌then◌else◌, some-inj, or_iff, ◌<>◌,
}
use Prim.Native.String.{len, slice}
use text.Mathlib.Text.{starts_with}
use text.Mathlib.TextPositions.{len-append, slice-append_left, starts_with-append}
use mathlib.Core.Path.{subst}
use balance_sheet_analysis.Prelude.Equality.{◌==◌, contains, string_eq}
use balance_sheet_analysis.Json.{Json}
use balance_sheet_analysis.Tables.{Database}
use balance_sheet_analysis.Policies.Cache.Laws.{Coherent}
use balance_sheet_analysis.Exec.{err, uncaught, Result, ok}
use balance_sheet_analysis.Policies.Cache.{Redis}
use balance_sheet_analysis.Policies.Cache.Laws.{RedisLaws}

abbrev Entries : Type 0
Entries = List (String × Json)

abbrev find_value : String → Entries → Option Json
find_value k [] = none
find_value k ((j, v) ∷ s) = if j == k then some v else find_value k s

abbrev remove_key : String → Entries → Entries
remove_key k [] = []
remove_key k ((j, v) ∷ s) = let rest = remove_key k s in if j == k then rest else (j, v) ∷ rest

abbrev keys_of : Entries → List String
keys_of [] = []
keys_of ((j, v) ∷ s) = j ∷ keys_of s

-- The entries, and for each call to come whether it raises.
abbrev pub Unsteady : Type 0
Unsteady = Entries × List Bool

-- A call that raises where an outage is due, and does its work otherwise.
abbrev call : {A : Type 0} → (Entries → A × Entries) → Unsteady → Result A × Unsteady
call work (s, true ∷ outages) = (err (uncaught "ConnectionError"), (s, outages))
call work (s, false ∷ outages) = let (a, after) = work s in (ok a, (after, outages))
call work (s, []) = let (a, after) = work s in (ok a, (after, []))

-- The text before the star of a pattern.
abbrev before_star : String → String
before_star pattern = slice pattern 0 (len pattern - 1)

-- A server that keeps a list, answers a SCAN at once, and fails now and then; its entries live for
-- ever, it knows the patterns that end in a star, and a text of JSON is its value.
abbrev pub in_memory : Redis Unsteady Json
in_memory = record {
  get = λ k. call (λ s. (find_value k s, s));
  set = λ k v ttl. call (λ s. (tt, (k, v) ∷ s));
  delete = λ k. call (λ s. (tt, remove_key k s));
  scan_calls = λ pattern s. 1;
  scan = λ pattern calls.
      call (λ s. (select (λ k. starts_with k (before_star pattern)) (keys_of s), s));
  dumps = λ v. v;
  loads = λ v. ok v;
}

ok-inj : {A : Type 0} (a b : A) → ◌≡◌ {A = Result A} (ok a) (ok b) → a ≡ b
ok-inj a b h = cc

find-set :
    (j k : String) (v w : Json) (s : Entries)
    → find_value j ((k, v) ∷ s) ≡ some w
    → ((j ≡ k) × (w ≡ v)) ⊎ (find_value j s ≡ some w)
find-set j k v w s h = elim (Bool-cases (k == j)) [
  | inl t ↦ let e = (string_eq.same_iff k j).0 t in inl (sym e, sym (some-inj v w (ground arith)))
  | inr f ↦ inr (ground arith)
]

find-remove :
    (j k : String) (w : Json) (s : Entries)
    → find_value j (remove_key k s) ≡ some w
    → (find_value j s ≡ some w) × (j ≢ k)
find-remove j k w [] h = absurd (cc)
find-remove j k w ((i, v) ∷ s) h = elim (Bool-cases (i == k)) [
  | inl t ↦
      let e = (string_eq.same_iff i k).0 t in
      let (found, other) = find-remove j k w s (ground arith) in
      let apart : (i == j) ≡ false = elim (Bool-cases (i == j)) [
        | inl u ↦ absurd (other (sym ((string_eq.same_iff i j).0 u) ∙ e))
        | inr u ↦ u
      ] in
      (ground arith, other)
  | inr f ↦ elim (Bool-cases (i == j)) [
    | inl t ↦
        let e = (string_eq.same_iff i j).0 t in
        let g : find_value j ((i, v) ∷ remove_key k s) ≡ some w = ground arith in
        (ground arith, λ u. let same = (string_eq.same_iff i k).1 (e ∙ u) in cc)
    | inr t ↦ let (found, other) = find-remove j k w s (ground arith) in (ground arith, other)
  ]
]

find-keys :
    (k : String) (w : Json) (s : Entries) → find_value k s ≡ some w → contains k (keys_of s) ≡ true
find-keys k w [] h = absurd (cc)
find-keys k w ((i, v) ∷ s) h = elim (Bool-cases (i == k)) [
  | inl t ↦ let e = (string_eq.same_iff k i).1 (sym ((string_eq.same_iff i k).0 t)) in ground arith
  | inr f ↦ let rest = find-keys k w s (ground arith) in (or_iff _ _).1 (inr rest)
]

before_star-append : (prefix : String) → before_star (prefix <> "*") ≡ prefix
before_star-append prefix =
    let long = len-append prefix "*" in
    let short : len (prefix <> "*") - 1 ≡ len prefix = omega (arith, long) in
    ap (λ n. slice (prefix <> "*") 0 n) short ∙ slice-append_left prefix "*"

contains-select :
    (k : String) (p : String → Bool) (keys : List String)
    → p k ≡ true
    → contains k keys ≡ true
    → contains k (select p keys) ≡ true
contains-select k p [] t h = absurd (cc)
contains-select k p (j ∷ keys) t h = elim (Bool-cases (k == j)) [
  | inl same ↦
      let kept = subst (λ i. p i ≡ true) ((string_eq.same_iff k j).0 same) t in ground arith
  | inr apart ↦
      let rest = contains-select k p keys t (ground arith) in
      elim (Bool-cases (p j)) [ inl kept ↦ ground arith | inr dropped ↦ ground arith ]
]

module _ {A : Type 0} (work : Entries → A × Entries) where
  call-after : (P : Entries → Type 0) (s : Unsteady) → P s.0 → P (work s.0).1 → P (call work s).1.0
  call-after P (s, true ∷ outages) same done = same
  call-after P (s, false ∷ outages) same done = done
  call-after P (s, []) same done = done

  call-answer :
      (s : Unsteady) (a : A)
      → (call work s).0 ≡ ok a
      → ((work s.0).0 ≡ a) × ((call work s).1.0 ≡ (work s.0).1)
  call-answer (s, true ∷ outages) a h = absurd (cc)
  call-answer (s, false ∷ outages) a h = (ok-inj _ _ h, refl)
  call-answer (s, []) a h = (ok-inj _ _ h, refl)

-- A key that begins as the pattern does is owed by the only SCAN, and none with a value after it.
abbrev Owed : String → ℕ → String → Unsteady → Type 0
Owed pattern zero k s = find_value k s.0 ≡ none
Owed pattern (suc calls) k s = starts_with k (before_star pattern) ≡ true

held-delete :
    (j k : String) (w : Json) (s : Unsteady)
    → find_value j (in_memory.delete k s).1.0 ≡ some w
    → find_value j s.0 ≡ some w
held-delete j k w s =
    call-after (λ t. (tt, remove_key k t))
      (λ t. find_value j t ≡ some w → find_value j s.0 ≡ some w) s (λ h. h)
      (λ h. (find-remove j k w s.0 h).0)

Owed-delete :
    (pattern k j : String) (calls : ℕ) (w : Json) (s : Unsteady)
    → Owed pattern calls k s
    → find_value k (in_memory.delete j s).1.0 ≡ some w
    → Owed pattern calls k (in_memory.delete j s).1
Owed-delete pattern k j zero w s o h = let old = held-delete k j w s h in absurd (cc (o, old))
Owed-delete pattern k j (suc calls) w s o h = o

pub in_memory_laws : RedisLaws in_memory
in_memory_laws = record {
  held = λ k s. find_value k s.0;
  owed = Owed;
  get-held = λ k w s h. (call-answer (λ t. (find_value k t, t)) s (some w) h).0;
  held-get = λ j k w s h.
      call-after (λ t. (find_value k t, t))
        (λ t. find_value j t ≡ some w → find_value j s.0 ≡ some w) s (λ g. g) (λ g. g) h;
  held-set = λ j k v w ttl s h.
      call-after (λ t. (tt, (k, v) ∷ t))
        (λ t. find_value j t ≡ some w → ((j ≡ k) × (w ≡ v)) ⊎ (find_value j s.0 ≡ some w)) s
        (λ g. inr g) (λ g. find-set j k v w s.0 g) h;
  held-delete = held-delete;
  delete-gone = λ k w s h g.
      let (done, after) = call-answer (λ t. (tt, remove_key k t)) s tt h in
      (find-remove k k w s.0 (ap (λ t. find_value k t) (sym after) ∙ g)).1 refl;
  held-scan = λ k pattern calls w s h.
      call-after (λ t. (select (λ j. starts_with j (before_star pattern)) (keys_of t), t))
        (λ t. find_value k t ≡ some w → find_value k s.0 ≡ some w) s (λ g. g) (λ g. g) h;
  owed-start = λ prefix rest w s literal h.
      subst (λ p. starts_with (prefix <> rest) p ≡ true) (sym (before_star-append prefix))
        (starts_with-append prefix rest);
  owed-scan = λ pattern k calls keys w s o found h.
      let (answer, after) =
        call-answer (λ t. (select (λ j. starts_with j (before_star pattern)) (keys_of t), t)) s keys
          found in
      inl (
        subst (λ ks. contains k ks ≡ true) answer
          (contains-select k (λ j. starts_with j (before_star pattern)) (keys_of s.0) o
            (find-keys k w s.0 (ap (λ t. find_value k t) (sym after) ∙ h))));
  owed-delete = Owed-delete;
  owed-end = λ pattern k w s o h. cc (o, h);
  loads-dumps = λ v. refl;
}

-- An empty cache is coherent.
pub nothing_cached :
    (db : Database) (outages : List Bool) → Coherent in_memory in_memory_laws db ([], outages)
unfolding in_memory_laws
nothing_cached db outages email w h = absurd (cc)
