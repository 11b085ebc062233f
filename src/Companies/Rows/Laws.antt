-- ===== src/Companies/Rows/Laws.antt =====
-- Finding a row after an insert, an UPDATE and a DELETE.
use balance_sheet_analysis.Prelude.{
  ℕ, String, true, ◌≡◌, ◌≢◌, refl, none, some, List, [], ◌∷◌, ◌++◌, arith, Elem, if◌then◌else◌,
  eq_iff, ◌⊎◌, inl, inr, Option-cases, Bool-cases,
}
use balance_sheet_analysis.Prelude.Equality.{◌==◌, nat_eq}
use balance_sheet_analysis.Tables.{Company}
use balance_sheet_analysis.Companies.Rows.{
  find_company, replace_company, remove_company_row, ticker_free, orphan, count_subsidiaries,
}

pub find_company-id :
    (k : ℕ) (cs : List Company) {c : Company} → find_company k cs ≡ some c → c.id ≡ k
find_company-id k [] h = cc
find_company-id k (d ∷ cs) {c} h = ground (arith, find_company-id k cs {c = c})

pub find_company-append :
    (k : ℕ) (cs : List Company) (d : Company)
    → find_company k (cs ++ d ∷ [])
      ≡ elim (find_company k cs) [ none ↦ if d.id == k then some d else none | some c ↦ some c ]
find_company-append k [] d = refl
find_company-append k (c ∷ cs) d = ground (arith, find_company-append k cs d)

pub find_company-replace :
    (k : ℕ) (d : Company) (cs : List Company)
    → find_company k (replace_company d cs)
      ≡ elim (find_company k cs) [ none ↦ none | some c ↦ some (if c.id == d.id then d else c) ]
find_company-replace k d [] = refl
find_company-replace k d (c ∷ cs) = ground (arith, find_company-replace k d cs)

pub find_company-remove :
    (k j : ℕ) (cs : List Company)
    → find_company k (remove_company_row j cs) ≡ (
        if k == j
        then none
        else elim (find_company k cs) [ none ↦ none | some c ↦ some (orphan j c) ])
find_company-remove k j [] = ground arith
find_company-remove k j (c ∷ cs) = ground (arith, find_company-remove k j cs)

-- A row that is found stands in the table.
pub find_company-Elem :
    (k : ℕ) (cs : List Company) {c : Company} → find_company k cs ≡ some c → Elem c cs
find_company-Elem k [] h = cc
find_company-Elem k (d ∷ cs) {c} h = ground (arith, find_company-Elem k cs {c = c})

-- A company without subsidiaries is no row's parent.
pub no_subsidiaries :
    (k : ℕ) (cs : List Company) (c : Company)
    → count_subsidiaries k cs ≡ 0
    → Elem c cs
    → c.parent_company_id ≢ some k
no_subsidiaries k [] c h e p = e
no_subsidiaries k (d ∷ cs) c h e p = ground (arith, no_subsidiaries k cs c)

module _ (k : ℕ) (cs : List Company) (d : Company) {c : Company} where
  pub find_company-append_old : find_company k cs ≡ some c → find_company k (cs ++ d ∷ []) ≡ some c
  find_company-append_old f = ground (arith, find_company-append k cs d)

  pub find_company-append_cases :
      find_company k (cs ++ d ∷ []) ≡ some c → (find_company k cs ≡ some c) ⊎ ((d.id ≡ k) × (c ≡ d))
  find_company-append_cases f = elim (Option-cases (find_company k cs)) [
    | inl e ↦ inr (ground (arith, find_company-append k cs d))
    | inr (b, e) ↦ inl (ground (arith, find_company-append k cs d))
  ]

  pub find_company-replace_cases :
      find_company k (replace_company d cs) ≡ some c
      → ((k ≢ d.id) × (find_company k cs ≡ some c))
        ⊎ ((k ≡ d.id) × (c ≡ d) × ((b : Company) × (find_company k cs ≡ some b)))
  find_company-replace_cases f = elim (Option-cases (find_company k cs)) [
    | inl e ↦ absurd (ground (arith, find_company-replace k d cs))
    | inr (b, e) ↦
        let i = find_company-id k cs e in
        elim (Bool-cases (b.id == d.id)) [
          | inl same ↦ inr (ground arith, ground (arith, find_company-replace k d cs), (b, e))
          | inr differ ↦ inl (ground arith, ground (arith, find_company-replace k d cs))
        ]
  ]

  pub find_company-replace_old :
      find_company k cs ≡ some c → k ≢ d.id → find_company k (replace_company d cs) ≡ some c
  find_company-replace_old f ne =
      ground (arith, find_company-replace k d cs, find_company-id k cs f)

  pub find_company-replace_self :
      find_company k cs ≡ some c → k ≡ d.id → find_company k (replace_company d cs) ≡ some d
  find_company-replace_self f e =
      ground (arith, find_company-replace k d cs, find_company-id k cs f)

module _ (k j : ℕ) (cs : List Company) {c : Company} where
  pub find_company-remove_cases :
      find_company k (remove_company_row j cs) ≡ some c
      → (k ≢ j) × ((b : Company) × (find_company k cs ≡ some b) × (c ≡ orphan j b))
  find_company-remove_cases f = elim (Option-cases (find_company k cs)) [
    | inl e ↦ absurd (ground (arith, find_company-remove k j cs))
    | inr (b, e) ↦ (
      ground (arith, find_company-remove k j cs),
      (b, e, ground (arith, find_company-remove k j cs)),
    )
  ]

  pub find_company-remove_old :
      find_company k cs ≡ some c
      → k ≢ j
      → find_company k (remove_company_row j cs) ≡ some (orphan j c)
  find_company-remove_old f ne = ground (arith, find_company-remove k j cs)

pub parent-orphan :
    (k : ℕ) (c : Company)
    → c.parent_company_id ≢ some k
    → (orphan k c).parent_company_id ≡ c.parent_company_id
parent-orphan k c ne = elim (Option-cases c.parent_company_id) [
  | inl e ↦ ground arith
  | inr (p, e) ↦ ground arith
]

pub find_company-append_new :
    (cs : List Company) (d : Company)
    → find_company d.id cs ≡ none
    → find_company d.id (cs ++ d ∷ []) ≡ some d
find_company-append_new cs d e = ground (arith, find_company-append d.id cs d)

-- The unique index: a row with the ticker is the row itself.
pub ticker_free-Elem :
    (k : ℕ) (t : String) (cs : List Company) (c : Company)
    → ticker_free k t cs ≡ true
    → Elem c cs
    → c.ticker ≡ t
    → c.id ≡ k
ticker_free-Elem k t [] c free e same = absurd e
ticker_free-Elem k t (d ∷ cs) c free e same =
    ground (arith, ticker_free-Elem k t cs c, eq_iff d.ticker t)

-- No two rows have one id.
abbrev pub NodupIds : List Company → Type 0
NodupIds [] = Unit
NodupIds (c ∷ cs) = (find_company c.id cs ≡ none) × NodupIds cs

pub NodupIds-append :
    (cs : List Company) (d : Company)
    → NodupIds cs
    → find_company d.id cs ≡ none
    → NodupIds (cs ++ d ∷ [])
NodupIds-append [] d u e = (refl, tt)
NodupIds-append (c ∷ cs) d u e =
    ground (arith, NodupIds-append cs d u.1, find_company-append c.id cs d)

pub NodupIds-replace :
    (d : Company) (cs : List Company) → NodupIds cs → NodupIds (replace_company d cs)
NodupIds-replace d [] u = tt
NodupIds-replace d (c ∷ cs) u = ground (
  arith,
  NodupIds-replace d cs u.1,
  find_company-replace c.id d cs,
  find_company-replace d.id d cs,
)

pub NodupIds-remove : (k : ℕ) (cs : List Company) → NodupIds cs → NodupIds (remove_company_row k cs)
NodupIds-remove k [] u = tt
NodupIds-remove k (c ∷ cs) u =
    ground (arith, NodupIds-remove k cs u.1, find_company-remove c.id k cs)

-- Where no id is there twice, a row is found under its id.
pub find_company_of_Elem :
    (cs : List Company) (c : Company) → NodupIds cs → Elem c cs → find_company c.id cs ≡ some c
find_company_of_Elem [] c u e = absurd e
find_company_of_Elem (d ∷ cs) c u (inl e) = ground arith
find_company_of_Elem (d ∷ cs) c u (inr e) = ground (arith, find_company_of_Elem cs c u.1 e)
