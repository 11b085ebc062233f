-- ===== src/Policies/Store/Assignments/Laws.antt =====
-- Counting assignments.
use balance_sheet_analysis.Prelude.{
  ℕ, Bool, true, not, ◌≡◌, ◌≤◌, ◌+◌, refl, inl, inr, Bool-cases, none, List, [], ◌∷◌, length,
  select, arith,
}
use balance_sheet_analysis.Prelude.Equality.{◌==◌, nat_eq}
use balance_sheet_analysis.Tables.{UserPolicy}
use balance_sheet_analysis.Policies.Store.Assignments.{links, find_assignment}

-- Rows that a second test would have let go are no loss to a first that none of them passes.
pub select-of_select :
    {A : Type 0} (p q : A → Bool) (xs : List A)
    → ((a : A) → p a ≡ true → q a ≡ true)
    → select p (select q xs) ≡ select p xs
select-of_select p q [] h = refl
select-of_select p q (x ∷ xs) h =
    let rest = select-of_select p q xs h in
    elim (Bool-cases (p x)) [
      | inl t ↦ let k = h x t in ground arith
      | inr f ↦ elim (Bool-cases (q x)) [ inl t ↦ ground arith | inr g ↦ ground arith ]
    ]

pub length-select-select-le :
    {A : Type 0} (p q : A → Bool) (xs : List A)
    → length (select p (select q xs)) ≤ length (select p xs)
length-select-select-le p q [] = omega arith
length-select-select-le p q (x ∷ xs) =
    let rest = length-select-select-le p q xs in
    elim (Bool-cases (p x)) [
      | inl t ↦ elim (Bool-cases (q x)) [ inl k ↦ ground arith | inr k ↦ ground arith ]
      | inr f ↦ elim (Bool-cases (q x)) [ inl k ↦ ground arith | inr k ↦ ground arith ]
    ]

pub find_assignment-missing :
    (u k : ℕ) (ls : List UserPolicy)
    → find_assignment u k ls ≡ none
    → length (select (links u k) ls) ≡ 0
find_assignment-missing u k [] h = refl
find_assignment-missing u k (l ∷ ls) h = elim (Bool-cases (links u k l)) [
  | inl t ↦ absurd (ground arith)
  | inr f ↦ let rest = find_assignment-missing u k ls (ground arith) in ground arith
]

-- Taking one user's assignments of a policy away loses no other assignment of it.
pub length-select-links :
    (u k : ℕ) (ls : List UserPolicy)
    → length (select (λ (l : UserPolicy). l.policy_id == k) ls)
      ≤ length (select (λ (l : UserPolicy). l.policy_id == k) (select (λ l. not (links u k l)) ls))
        + length (select (links u k) ls)
length-select-links u k [] = omega arith
length-select-links u k (l ∷ ls) =
    let rest = length-select-links u k ls in
    elim (Bool-cases (l.policy_id == k)) [
      | inl t ↦ elim (Bool-cases (l.user_id == u)) [ inl s ↦ ground arith | inr s ↦ ground arith ]
      | inr f ↦ elim (Bool-cases (l.user_id == u)) [ inl s ↦ ground arith | inr s ↦ ground arith ]
    ]
