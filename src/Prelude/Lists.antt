-- ===== src/Prelude/Lists.antt =====
-- Lists over the native numbers, and predicates on lists by recursion, which the tactics read.
use Prim.Native.Nat.{ℕ, zero, suc, ◌+◌, ◌-◌, ◌≤◌}
use mathlib.Core.Path.{◌≡◌, refl, ap}
use mathlib.Core.Logic.{◌↔◌, ◌⊎◌, inl, inr}
use mathlib.Core.Bool.{Bool, true, false, ◌&&◌, ◌||◌}
use mathlib.Core.List.{List, [], ◌∷◌, ◌++◌, map}
use native.Mathlib.Omega.{arith}
use balance_sheet_analysis.Prelude.Tests.{leb, if◌then◌else◌, Bool-cases}

module _ {ℓ} {A : Type ℓ} where
  abbrev pub length : List A → ℕ
  length [] = 0
  length (x ∷ xs) = suc (length xs)

  abbrev pub take : ℕ → List A → List A
  take zero xs = []
  take (suc n) [] = []
  take (suc n) (x ∷ xs) = x ∷ take n xs

  abbrev pub drop : ℕ → List A → List A
  drop zero xs = xs
  drop (suc n) [] = []
  drop (suc n) (x ∷ xs) = drop n xs

  abbrev pub any : (A → Bool) → List A → Bool
  any p [] = false
  any p (x ∷ xs) = p x || any p xs

  abbrev pub all : (A → Bool) → List A → Bool
  all p [] = true
  all p (x ∷ xs) = p x && all p xs

  abbrev pub is_nil : List A → Bool
  is_nil [] = true
  is_nil (x ∷ xs) = false

  -- The rows that pass a test, as in `WHERE`.
  abbrev pub select : (A → Bool) → List A → List A
  select p [] = []
  select p (x ∷ xs) = let rest = select p xs in if p x then x ∷ rest else rest

  abbrev pub All {κ} : (A → Type κ) → List A → Type κ
  All P [] = Unit
  All P (x ∷ xs) = P x × All P xs

  pub append-nil : (xs : List A) → xs ++ [] ≡ xs
  append-nil [] = refl
  append-nil (x ∷ xs) = ap (λ l. x ∷ l) (append-nil xs)

  pub append_assoc : (xs ys zs : List A) → (xs ++ ys) ++ zs ≡ xs ++ (ys ++ zs)
  append_assoc [] ys zs = refl
  append_assoc (x ∷ xs) ys zs = ap (λ l. x ∷ l) (append_assoc xs ys zs)

  pub length-append : (xs ys : List A) → length (xs ++ ys) ≡ length xs + length ys
  length-append [] ys = omega arith
  length-append (x ∷ xs) ys = omega (arith, length-append xs ys)

  pub length-select-le : (p : A → Bool) (xs : List A) → length (select p xs) ≤ length xs
  length-select-le p [] = omega arith
  length-select-le p (x ∷ xs) = ground (arith, length-select-le p xs)

  pub select-append :
      (p : A → Bool) (xs ys : List A) → select p (xs ++ ys) ≡ select p xs ++ select p ys
  select-append p [] ys = refl
  select-append p (x ∷ xs) ys = ground (arith, select-append p xs ys)

  pub take-append-drop : (n : ℕ) (xs : List A) → take n xs ++ drop n xs ≡ xs
  take-append-drop zero xs = refl
  take-append-drop (suc n) [] = refl
  take-append-drop (suc n) (x ∷ xs) = ap (λ l. x ∷ l) (take-append-drop n xs)

module _ {A : Type 0} where
  -- `a` stands in the list.
  abbrev pub Elem : A → List A → Type 0
  Elem a [] = ⊥
  Elem a (x ∷ xs) = (a ≡ x) ⊎ Elem a xs

  pub Elem-append : (a : A) (xs ys : List A) → Elem a (xs ++ ys) ↔ (Elem a xs ⊎ Elem a ys)
  Elem-append a [] ys = (inr, elim [ inl h ↦ absurd h | inr h ↦ h ])
  Elem-append a (x ∷ xs) ys =
      let (to, from) = Elem-append a xs ys in
      (
        elim [ inl e ↦ inl (inl e) | inr h ↦ elim (to h) [ inl h ↦ inl (inr h) | inr h ↦ inr h ] ],
        elim [
          | inl (inl e) ↦ inl e
          | inl (inr h) ↦ inr (from (inl h))
          | inr h ↦ inr (from (inr h))
        ],
      )

  pub Elem-snoc : (a b : A) (xs : List A) → Elem a (xs ++ b ∷ []) → Elem a xs ⊎ (a ≡ b)
  Elem-snoc a b [] h = elim h [ inl e ↦ inr e | inr h ↦ absurd h ]
  Elem-snoc a b (x ∷ xs) h = elim h [
    | inl e ↦ inl (inl e)
    | inr h ↦ elim (Elem-snoc a b xs h) [ inl h ↦ inl (inr h) | inr e ↦ inr e ]
  ]

  pub Elem-snoc_of : (a b : A) (xs : List A) → Elem a xs → Elem a (xs ++ b ∷ [])
  Elem-snoc_of a b xs h = (Elem-append a xs (b ∷ [])).1 (inl h)

  pub Elem-last : (b : A) (xs : List A) → Elem b (xs ++ b ∷ [])
  Elem-last b xs = (Elem-append b xs (b ∷ [])).1 (inr (inl refl))

  pub Elem-select :
      (p : A → Bool) (a : A) (xs : List A) → Elem a (select p xs) ↔ (Elem a xs × (p a ≡ true))
  Elem-select p a [] = ground arith
  Elem-select p a (x ∷ xs) = ground (arith, Elem-select p a xs)

  pub any_of_Elem : (p : A → Bool) (a : A) (xs : List A) → Elem a xs → p a ≡ true → any p xs ≡ true
  any_of_Elem p a [] h t = absurd h
  any_of_Elem p a (x ∷ xs) h t = ground (arith, any_of_Elem p a xs)

  -- The element that passes.
  pub Elem-of_any :
      (p : A → Bool) (xs : List A) → any p xs ≡ true → (a : A) × Elem a xs × (p a ≡ true)
  Elem-of_any p [] h = absurd (cc)
  Elem-of_any p (x ∷ xs) h = elim (Bool-cases (p x)) [
    | inl t ↦ (x, inl refl, t)
    | inr f ↦ let (a, e, t) = Elem-of_any p xs (ground arith) in (a, inr e, t)
  ]

  pub all_of_Elem : (p : A → Bool) (a : A) (xs : List A) → all p xs ≡ true → Elem a xs → p a ≡ true
  all_of_Elem p a [] h e = absurd e
  all_of_Elem p a (x ∷ xs) h e = ground (arith, all_of_Elem p a xs)

module _ {A : Type 0} where
  pub length-take-drop :
      (n k : ℕ) (xs : List A)
      → length (take n (drop k xs)) ≡ (if leb n (length xs - k) then n else length xs - k)
  length-take-drop n (suc k) (x ∷ xs) = ground (arith, length-take-drop n k xs)
  length-take-drop zero (suc k) [] = ground arith
  length-take-drop (suc n) (suc k) [] = ground arith
  length-take-drop zero zero [] = ground arith
  length-take-drop (suc n) zero [] = ground arith
  length-take-drop zero zero (x ∷ xs) = ground arith
  length-take-drop (suc n) zero (x ∷ xs) = ground (arith, length-take-drop n zero xs)

  pub Elem-take : (n : ℕ) (a : A) (xs : List A) → Elem a (take n xs) → Elem a xs
  Elem-take zero a xs h = absurd h
  Elem-take (suc n) a [] h = absurd h
  Elem-take (suc n) a (x ∷ xs) h = elim h [ inl e ↦ inl e | inr t ↦ inr (Elem-take n a xs t) ]

  pub Elem-drop : (n : ℕ) (a : A) (xs : List A) → Elem a (drop n xs) → Elem a xs
  Elem-drop zero a xs h = h
  Elem-drop (suc n) a [] h = absurd h
  Elem-drop (suc n) a (x ∷ xs) h = inr (Elem-drop n a xs h)

  -- A page that is long enough is the whole list.
  pub take-all : (n : ℕ) (xs : List A) → length xs ≤ n → take n xs ≡ xs
  take-all zero [] h = refl
  take-all zero (x ∷ xs) h = absurd (omega (arith, h))
  take-all (suc n) [] h = refl
  take-all (suc n) (x ∷ xs) h = ap (λ l. x ∷ l) (take-all n xs (omega (arith, h)))

  pub Elem-map :
      {B : Type 0} (f : A → B) (b : B) (xs : List A)
      → Elem b (map f xs)
      → (a : A) × Elem a xs × (b ≡ f a)
  Elem-map f b [] h = absurd h
  Elem-map f b (x ∷ xs) h = elim h [
    | inl e ↦ (x, inl refl, e)
    | inr t ↦ let (a, m, e) = Elem-map f b xs t in (a, inr m, e)
  ]

  pub Elem-map_of :
      {B : Type 0} (f : A → B) (a : A) (xs : List A) → Elem a xs → Elem (f a) (map f xs)
  Elem-map_of f a [] h = absurd h
  Elem-map_of f a (x ∷ xs) h = elim h [ inl e ↦ inl (ap f e) | inr t ↦ inr (Elem-map_of f a xs t) ]

  pub length-map : {B : Type 0} (f : A → B) (xs : List A) → length (map f xs) ≡ length xs
  length-map f [] = refl
  length-map f (x ∷ xs) = ap (λ n. suc n) (length-map f xs)

  -- A test that splits what another selects.
  pub length-select-split :
      (p q r : A → Bool) (xs : List A)
      → ((a : A)
          → (p a ≡ true → (q a || r a) ≡ true)
            × ((q a || r a) ≡ true → p a ≡ true)
            × ((q a && r a) ≡ false))
      → length (select p xs) ≡ length (select q xs) + length (select r xs)
  length-select-split p q r [] h = refl
  length-select-split p q r (x ∷ xs) h =
      let (to, from, apart) = h x in ground (arith, length-select-split p q r xs h)
