-- ===== src/Companies/Hierarchy.antt =====
-- The hierarchy that `parent_company_id` describes: the top-most ancestor of a company, as a
-- relation on the rows, and what an operation must keep for it to stay.
use balance_sheet_analysis.Prelude.{ℕ, ◌≡◌, refl, ap, ◌∙◌, none, some, List}
use mathlib.Core.Option.{some-injective}
use mathlib.Core.Path.{subst, subst₂}
use balance_sheet_analysis.Tables.{Company}
use balance_sheet_analysis.Companies.Rows.{find_company}

-- `r` is the id of the top-most ancestor of the company with id `k`.
pub data RootOf (cs : List Company) : ℕ → ℕ → Type 0 where
  top :
      {k r : ℕ} (c : Company)
      → find_company k cs ≡ some c
      → c.parent_company_id ≡ none
      → r ≡ k
      → RootOf cs k r
  up :
      {k r : ℕ} (c : Company) (p : ℕ)
      → find_company k cs ≡ some c
      → c.parent_company_id ≡ some p
      → RootOf cs p r
      → RootOf cs k r

pub RootOf-found :
    {cs : List Company} {k r : ℕ} → RootOf cs k r → (c : Company) × (find_company k cs ≡ some c)
RootOf-found (top c f n e) = (c, f)
RootOf-found (up c p f e t) = (c, f)

pub RootOf-cast : {cs : List Company} {j k r s : ℕ} → j ≡ k → r ≡ s → RootOf cs j r → RootOf cs k s
RootOf-cast {cs} p q t = subst₂ (λ i x. RootOf cs i x) p q t

-- The root itself has no parent, and is its own root.
pub RootOf-root : {cs : List Company} {k r : ℕ} → RootOf cs k r → RootOf cs r r
RootOf-root {cs} (top {k = j} c f n e) = top c (ap (λ i. find_company i cs) e ∙ f) n refl
RootOf-root (up c p f e t) = RootOf-root t

-- A company has one root.
pub RootOf-unique : {cs : List Company} {k r s : ℕ} → RootOf cs k r → RootOf cs k s → r ≡ s
RootOf-unique (top c f n e) (top d g m q) = cc
RootOf-unique (top c f n e) (up d p g m t) = cc
RootOf-unique (up c p f e t) (top d g m q) = cc
RootOf-unique {cs} {s = s} (up c p f e t) (up d q g m u) =
    RootOf-unique t (subst (λ i. RootOf cs i s) (some-injective q p (cc)) u)

module _ {cs ds : List Company} (P : ℕ → Type 0)
    (keep : (j : ℕ) (c : Company)
      → P j
      → find_company j cs ≡ some c
      → (d : Company) × (find_company j ds ≡ some d) × (d.parent_company_id ≡ c.parent_company_id))
    (closed : (j p : ℕ) (c : Company)
      → P j
      → find_company j cs ≡ some c
      → c.parent_company_id ≡ some p
      → P p) where
  -- Rows that keep their parents, and whose parents are among them, keep their roots.
  pub RootOf-transfer : {k r : ℕ} → P k → RootOf cs k r → RootOf ds k r
  RootOf-transfer {k} h (top c f n e) = let (d, g, same) = keep k c h f in top d g (same ∙ n) e
  RootOf-transfer {k} h (up c p f e t) =
      let (d, g, same) = keep k c h f in
      up d p g (same ∙ e) (RootOf-transfer (closed k p c h f e) t)
