-- ===== src/Companies/Listing/Stable.antt =====
-- The page of a listing: it does not depend on the order in which the table is read.
use mathlib.Core.List.{Permᴰ}
use mathlib.Core.List.Permᴰ
use mathlib.Core.Path.{subst, fun_ext}
use balance_sheet_analysis.Prelude.{
  ℕ, String, Bool, true, false, ◌||◌, ◌≡◌, refl, sym, ap, ◌∙◌, inl, inr, Option, none, some, List,
  [], ◌∷◌, map, select, drop, take, Elem, Elem-map, Elem-select, Bool-cases, arith, if◌then◌else◌,
}
use balance_sheet_analysis.Prelude.Equality.{◌==◌, nat_eq}
use balance_sheet_analysis.Tables.{Database, Company}
use balance_sheet_analysis.Exec.{ok}
use balance_sheet_analysis.Access.Scope.{CompanyScope, is_empty}
use balance_sheet_analysis.Companies.Rows.{find_company}
use balance_sheet_analysis.Companies.Listing.{
  Collation, HierarchyScope, Row, with_parent, selected, matching_rows, order_rows,
  list_companies_in_scope,
}
use balance_sheet_analysis.Companies.Listing.Unique.{moved, order_rows-Perm}

-- An id is one row's.
abbrev pub UniqueIds : List Company → Type 0
UniqueIds cs = (c d : Company) → Elem c cs → Elem d cs → c.id ≡ d.id → c ≡ d

find_swapped :
    (k : ℕ) (a b : Company) (cs : List Company)
    → (a.id ≡ b.id → a ≡ b)
    → find_company k (a ∷ b ∷ cs) ≡ find_company k (b ∷ a ∷ cs)
find_swapped k a b cs unique = elim (Bool-cases (a.id == k)) [
  | inl ak ↦ elim (Bool-cases (b.id == k)) [
    | inl bk ↦
        let same = (nat_eq.same_iff a.id k).0 ak ∙ sym ((nat_eq.same_iff b.id k).0 bk) in
        subst (λ x. find_company k (a ∷ x ∷ cs) ≡ find_company k (x ∷ a ∷ cs)) (unique same) refl
    | inr nbk ↦ ground arith
  ]
  | inr nak ↦ ground arith
]

find_company-Perm :
    (k : ℕ) (cs ds : List Company)
    → Permᴰ cs ds
    → UniqueIds cs
    → find_company k cs ≡ find_company k ds
find_company-Perm k _ _ Permᴰ.nil unique = refl
find_company-Perm k (a ∷ cs) (b ∷ ds) (Permᴰ.cons e p) unique =
    ap (λ x. find_company k (x ∷ cs)) e
    ∙ ap (λ found. if b.id == k then some b else found)
        (find_company-Perm k cs ds p (λ c d m n. unique c d (inr m) (inr n)))
find_company-Perm k (a ∷ b ∷ cs) (c ∷ d ∷ ds) (Permᴰ.swap e f) unique =
    find_swapped k a b cs (unique a b (inl refl) (inr (inl refl)))
    ∙ ap (λ x. find_company k (x ∷ a ∷ cs)) f
    ∙ ap (λ x. find_company k (c ∷ x ∷ cs)) e
find_company-Perm k cs ds (Permᴰ.trans {l₂ = middle} p q) unique =
    find_company-Perm k cs middle p unique
    ∙ find_company-Perm k middle ds q
        (λ c d m n. unique c d (was cs middle p c m) (was cs middle p d n))
  where
    was : (xs ys : List Company) → Permᴰ xs ys → (r : Company) → Elem r ys → Elem r xs
    was = moved

module _ {A B : Type 0} (f : A → B) (p : A → Bool) where
  abbrev picked : List A → List B
  picked xs = map f (select p xs)

  picked-first :
      (a : A) (xs ys : List A)
      → Permᴰ (picked xs) (picked ys)
      → Permᴰ (picked (a ∷ xs)) (picked (a ∷ ys))
  picked-first a xs ys q = by_test (p a)
    where
      by_test :
          (b : Bool)
          → Permᴰ
              (map f (if b then a ∷ select p xs else select p xs))
              (map f (if b then a ∷ select p ys else select p ys))
      by_test true = Permᴰ.cons refl q
      by_test false = q

  picked-swapped : (a b : A) (xs : List A) → Permᴰ (picked (a ∷ b ∷ xs)) (picked (b ∷ a ∷ xs))
  picked-swapped a b xs = by_tests (p a) (p b)
    where
      rest : List A
      rest = select p xs

      by_tests :
          (c d : Bool)
          → Permᴰ
              (map f
                (if c then a ∷ (if d then b ∷ rest else rest) else (if d then b ∷ rest else rest)))
              (map f
                (if d then b ∷ (if c then a ∷ rest else rest) else (if c then a ∷ rest else rest)))
      by_tests true true = Permᴰ.swap refl refl
      by_tests true false = Permᴰ.refl _
      by_tests false true = Permᴰ.refl _
      by_tests false false = Permᴰ.refl _

  picked-Perm : (xs ys : List A) → Permᴰ xs ys → Permᴰ (picked xs) (picked ys)
  picked-Perm _ _ Permᴰ.nil = Permᴰ.nil
  picked-Perm (a ∷ xs) (b ∷ ys) (Permᴰ.cons e q) =
      subst (λ x. Permᴰ (picked (a ∷ xs)) (picked (x ∷ ys))) e
        (picked-first a xs ys (picked-Perm xs ys q))
  picked-Perm (a ∷ b ∷ xs) (c ∷ d ∷ ys) (Permᴰ.swap e g) =
      subst (λ x. Permᴰ (picked (a ∷ b ∷ xs)) (picked (x ∷ d ∷ xs))) g
        (subst (λ x. Permᴰ (picked (a ∷ b ∷ xs)) (picked (b ∷ x ∷ xs))) e (picked-swapped a b xs))
  picked-Perm xs ys (Permᴰ.trans {l₂ = middle} q r) =
      Permᴰ.trans (picked-Perm xs middle q) (picked-Perm middle ys r)

with_parent-Perm :
    (cs ds : List Company) → Permᴰ cs ds → UniqueIds cs → with_parent cs ≡ with_parent ds
unfolding with_parent
with_parent-Perm cs ds p unique = fun_ext λ c. by_parent c c.parent_company_id
  where
    name_of : Option Company → Option String
    name_of found = elim found [ none ↦ none | some parent ↦ some parent.name ]

    by_parent :
        (c : Company) (o : Option ℕ)
        → ◌≡◌ {A = Row}
            (c, elim o [ none ↦ none | some k ↦ name_of (find_company k cs) ])
            (c, elim o [ none ↦ none | some k ↦ name_of (find_company k ds) ])
    by_parent c none = refl
    by_parent c (some k) = ap (λ found. (c, name_of found)) (find_company-Perm k cs ds p unique)

picked_unique :
    (cs : List Company) (p : Company → Bool)
    → UniqueIds cs
    → (r s : Row) → Elem r (map (with_parent cs) (select p cs))
    → Elem s (map (with_parent cs) (select p cs))
    → r.0.id ≡ s.0.id
    → r ≡ s
unfolding with_parent
picked_unique cs p unique r s m n same =
    let (c, cm, e) = Elem-map (with_parent cs) r (select p cs) m in
    let (d, dn, f) = Elem-map (with_parent cs) s (select p cs) n in
    e
    ∙ ap (with_parent cs) (
        unique c d ((Elem-select p c cs).0 cm).0 ((Elem-select p d cs).0 dn).0
          (sym (ap (λ x. x.0.id) e) ∙ same ∙ ap (λ x. x.0.id) f))
    ∙ sym f

module _ (server : Collation) (scope : CompanyScope) (search : Option String)
    (hierarchy_scope : Option HierarchyScope) (sort_by : Option String) (sort_dir : String)
    (total : (a b : String) → (server.text_le a b || server.text_le b a) ≡ true)
    (trans : (a b c : String)
      → server.text_le a b ≡ true
      → server.text_le b c ≡ true
      → server.text_le a c ≡ true) where
  matching_rows-Perm :
      (cs ds : List Company)
      → Permᴰ cs ds
      → UniqueIds cs
      → matching_rows server scope search hierarchy_scope sort_by sort_dir cs
        ≡ matching_rows server scope search hierarchy_scope sort_by sort_dir ds
  unfolding matching_rows
  matching_rows-Perm cs ds p unique =
      order_rows-Perm server sort_by sort_dir total trans _ _
        (picked-Perm (with_parent cs) (selected server scope search hierarchy_scope) cs ds p)
        (picked_unique cs (selected server scope search hierarchy_scope) unique)
      ∙ ap
          (λ row_of.
            order_rows server sort_by sort_dir
              (map row_of (select (selected server scope search hierarchy_scope) ds)))
          (with_parent-Perm cs ds p unique)

  -- Where the collation is a total and transitive order of texts and an id is one company's, a page of
  -- the listing is the same in whatever order the table holds its rows, for any sort key, direction,
  -- limit and offset: rows that are equal in the column sorted by still have one place.
  pub list_companies_in_scope-Perm :
      (limit offset : ℕ) (db : Database) (others : List Company)
      → Permᴰ db.companies others
      → UniqueIds db.companies
      → (list_companies_in_scope server scope limit offset search hierarchy_scope sort_by sort_dir
          (record db { companies = others })).0
        ≡ (list_companies_in_scope server scope limit offset search hierarchy_scope sort_by sort_dir
            db).0
  unfolding list_companies_in_scope
  list_companies_in_scope-Perm limit offset db others p unique =
      ap (λ rows. ok (if is_empty scope then [] else take limit (drop offset rows)))
        (sym (matching_rows-Perm db.companies others p unique))
