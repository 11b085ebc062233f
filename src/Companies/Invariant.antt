-- ===== src/Companies/Invariant.antt =====
-- What every state of the tables satisfies, and that the operations of Companies/Crud.antt keep
-- it, whether they return or raise.
use balance_sheet_analysis.Prelude.{
  ℕ, suc, ◌<◌, ◌≡◌, ◌≢◌, refl, sym, ap, ◌∙◌, inl, inr, none, some, List, [], ◌∷◌, ◌++◌, arith,
  Option-cases,
}
use native.Mathlib.Decide.{ℕ_discrete}
use balance_sheet_analysis.Prelude.Equality.{nat_eq, string_eq}
use balance_sheet_analysis.Tables.{Company}
use balance_sheet_analysis.Companies.Rows.{
  find_company, orphan, replace_company, remove_company_row, count_subsidiaries,
}
use balance_sheet_analysis.Companies.Rows.Laws.{
  find_company-Elem, no_subsidiaries, find_company-append_old, find_company-append_cases,
  find_company-replace_cases, find_company-replace_old, find_company-replace_self,
  find_company-remove_cases, find_company-remove_old, parent-orphan,
}
use balance_sheet_analysis.Companies.Hierarchy.{
  RootOf, top, up, RootOf-found, RootOf-cast, RootOf-transfer,
}

-- Ids come from the sequence, and `group_root_id` is the id of the top-most ancestor.
pub record IsHierarchy (seq : ℕ) (cs : List Company) : Type 0 where
  pub below : (k : ℕ) (c : Company) → find_company k cs ≡ some c → k < seq
  pub roots : (k : ℕ) (c : Company) → find_company k cs ≡ some c → RootOf cs k c.group_root_id

root_is_below :
    {seq : ℕ} {cs : List Company} {j r p : ℕ} (h : IsHierarchy seq cs) (c : Company)
    → RootOf cs j r
    → find_company j cs ≡ some c
    → c.parent_company_id ≡ some p
    → p < seq
root_is_below h c (top d g n q) f e = absurd (cc)
root_is_below h c (up d q g m t) f e =
    let (a, found) = RootOf-found t in let below = h.below q a found in ground arith

module _ {seq : ℕ} {cs : List Company} (h : IsHierarchy seq cs) where
  -- No row refers to an id that the sequence has still to give.
  pub parent_is_old :
      (j : ℕ) (c : Company) → find_company j cs ≡ some c → c.parent_company_id ≢ some seq
  parent_is_old j c f e = absurd (omega (arith, root_is_below h c (h.roots j c f) f e))

  pub seq_free : find_company seq cs ≡ none
  seq_free = elim (Option-cases (find_company seq cs)) [
    | inl e ↦ e
    | inr (c, e) ↦ absurd (omega (arith, h.below seq c e))
  ]

  pub insert_keeps : (d : Company) {k r : ℕ} → RootOf cs k r → RootOf (cs ++ d ∷ []) k r
  insert_keeps d =
      RootOf-transfer (λ _. Unit {0}) (λ j c _ f. (c, find_company-append_old j cs d f, refl))
        (λ j p c _ f e. tt) tt

  -- A new row under the sequence's id, whose root is as it says.
  pub insert-IsHierarchy :
      (d : Company)
      → d.id ≡ seq
      → RootOf (cs ++ d ∷ []) seq d.group_root_id
      → IsHierarchy (suc seq) (cs ++ d ∷ [])
  insert-IsHierarchy d i r = record {
    below = λ k c f. elim (find_company-append_cases k cs d f) [
      | inl g ↦ omega (arith, h.below k c g)
      | inr (e, _) ↦ omega arith
    ];
    roots = λ k c f. elim (find_company-append_cases k cs d f) [
      | inl g ↦ insert_keeps d (h.roots k c g)
      | inr (e, same) ↦ RootOf-cast (sym i ∙ e) (sym (ap (λ (x : Company). x.group_root_id) same)) r
    ];
  }

  -- The other rows keep their roots when a company without subsidiaries gets another parent.
  pub others_keep :
      (new : Company)
      → count_subsidiaries new.id cs ≡ 0
      → {k r : ℕ} → k ≢ new.id
      → RootOf cs k r
      → RootOf (replace_company new cs) k r
  others_keep new leaf =
      RootOf-transfer (λ j. j ≢ new.id)
        (λ j c ne f. (c, find_company-replace_old j cs new f ne, refl))
        (λ j p c ne f e q.
          no_subsidiaries new.id cs c leaf (find_company-Elem j cs f) (e ∙ ap some q))

  module _ (old new : Company) (found : find_company new.id cs ≡ some old) where
    -- An UPDATE that leaves the parent and the group's root alone.
    pub rename-IsHierarchy :
        new.parent_company_id ≡ old.parent_company_id
        → new.group_root_id ≡ old.group_root_id
        → IsHierarchy seq (replace_company new cs)
    rename-IsHierarchy same_parent same_root = record {
      below = λ k c f. elim (find_company-replace_cases k cs new f) [
        | inl (ne, g) ↦ h.below k c g
        | inr (e, _, (b, g)) ↦ h.below k b g
      ];
      roots = λ k c f. elim (find_company-replace_cases k cs new f) [
        | inl (ne, g) ↦ moved (h.roots k c g)
        | inr (e, same, _) ↦
            RootOf-cast (sym e) (sym (ap (λ (x : Company). x.group_root_id) same ∙ same_root))
              (moved (h.roots new.id old found))
      ];
    }
      where
        moved : {k r : ℕ} → RootOf cs k r → RootOf (replace_company new cs) k r
        moved =
            RootOf-transfer (λ _. Unit {0})
              (λ j c _ f. elim (ℕ_discrete j new.id) [
                | yes e ↦ (new, find_company-replace_self j cs new f e, cc)
                | no ne ↦ (c, find_company-replace_old j cs new f ne, refl)
              ])
              (λ j p c _ f e. tt) tt

    -- An UPDATE that gives a company without subsidiaries another parent.
    pub reparent-IsHierarchy :
        count_subsidiaries new.id cs ≡ 0
        → RootOf (replace_company new cs) new.id new.group_root_id
        → IsHierarchy seq (replace_company new cs)
    reparent-IsHierarchy leaf root = record {
      below = λ k c f. elim (find_company-replace_cases k cs new f) [
        | inl (ne, g) ↦ h.below k c g
        | inr (e, _, (b, g)) ↦ h.below k b g
      ];
      roots = λ k c f. elim (find_company-replace_cases k cs new f) [
        | inl (ne, g) ↦ others_keep new leaf ne (h.roots k c g)
        | inr (e, same, _) ↦
            RootOf-cast (sym e) (sym (ap (λ (x : Company). x.group_root_id) same)) root
      ];
    }

  -- A DELETE of a company without subsidiaries.
  module _ (k : ℕ) (leaf : count_subsidiaries k cs ≡ 0) where
    leaf_free : (j : ℕ) (c : Company) → find_company j cs ≡ some c → c.parent_company_id ≢ some k
    leaf_free j c f = no_subsidiaries k cs c leaf (find_company-Elem j cs f)

    remove_keeps : {j r : ℕ} → j ≢ k → RootOf cs j r → RootOf (remove_company_row k cs) j r
    remove_keeps =
        RootOf-transfer (λ i. i ≢ k)
          (λ i c ne f.
            (orphan k c, find_company-remove_old i k cs f ne, parent-orphan k c (leaf_free i c f)))
          (λ i p c ne f e q. leaf_free i c f (e ∙ ap some q))

    pub remove-IsHierarchy : IsHierarchy seq (remove_company_row k cs)
    remove-IsHierarchy = record {
      below = λ j c f. let (ne, (b, g, e)) = find_company-remove_cases j k cs f in h.below j b g;
      roots = λ j c f.
          let (ne, (b, g, e)) = find_company-remove_cases j k cs f in
          RootOf-cast refl (sym (ap (λ (x : Company). x.group_root_id) e))
            (remove_keeps ne (h.roots j b g));
    }
