-- ===== src/Companies/Preserves/Update.antt =====
-- `update_company` keeps the tables valid.
use balance_sheet_analysis.Prelude.{
  ℕ, String, true, ◌≡◌, ◌≢◌, refl, sym, ap, ◌∙◌, ◌↔◌, eq_iff, inl, inr, Option, none, some, arith,
  Option-cases, Bool-cases, ltb,
}
use mathlib.Core.Path.{subst, ap₂}
use native.Mathlib.Decide.{ℕ_discrete}
use balance_sheet_analysis.Exec.{Exec, continue, Result, ◌>>=◌, pure}
use balance_sheet_analysis.Tables.{Database, Company}
use balance_sheet_analysis.Validity.{IsValid, IsValidAfter}
use balance_sheet_analysis.Companies.Schema.{CompanyUpdate, Sent, unset, sent}
use balance_sheet_analysis.Companies.Rows.{
  find_company, replace_company, count_subsidiaries, ticker_free, parent_exists,
}
use balance_sheet_analysis.Companies.Rows.Laws.{
  find_company-id, find_company-Elem, ticker_free-Elem, NodupIds-replace,
  find_company-replace_cases, find_company-replace_self, find_company-replace_old,
}
use balance_sheet_analysis.Companies.Hierarchy.{top, up, RootOf-cast}
use balance_sheet_analysis.Companies.Invariant.{
  IsHierarchy, rename-IsHierarchy, others_keep, reparent-IsHierarchy,
}
use balance_sheet_analysis.Companies.Preserves.Create.{get_parent-found, get_parent-missing}
use balance_sheet_analysis.Companies.Crud.{
  get_parent, group_root_of, stamped, same_parent, sent_value, updated, commit_company,
  resolve_parent, reparent, update_company,
}

same_parent_iff : (p q : Option ℕ) → (same_parent p q ≡ true) ↔ (p ≡ q)
same_parent_iff none none = ground arith
same_parent_iff none (some q) = ground arith
same_parent_iff (some p) none = ground arith
same_parent_iff (some p) (some q) = ground arith

-- Whether or not anything differs, the row holds the new values.
stamped_fields :
    (old new : Company) (now : ℕ)
    → new.id ≡ old.id
    → ((stamped old new now).id ≡ old.id)
      × ((stamped old new now).ticker ≡ new.ticker)
      × ((stamped old new now).parent_company_id ≡ new.parent_company_id)
      × ((stamped old new now).group_root_id ≡ new.group_root_id)
unfolding stamped
stamped_fields old new now e = ground (
  arith,
  eq_iff old.name new.name,
  eq_iff old.ticker new.ticker,
  same_parent_iff old.parent_company_id new.parent_company_id,
)

module _ (db : Database) (v : IsValid db) where
  module _ (company : Company) (there : find_company company.id db.companies ≡ some company) where
    -- An UPDATE of the row with a free ticker, once the hierarchy is known to stay.
    replace-IsValid :
        (d : Company)
        → d.id ≡ company.id
        → ticker_free d.id d.ticker db.companies ≡ true
        → IsHierarchy db.company_seq (replace_company d db.companies)
        → IsValid (record db { companies = replace_company d db.companies })
    replace-IsValid d same free stays = record {
      hierarchy = stays;
      ids = NodupIds-replace d db.companies v.ids;
      tickers = λ j k c e f g eq. elim (find_company-replace_cases j db.companies d f) [
        | inl (ne, f') ↦ elim (find_company-replace_cases k db.companies d g) [
          | inl (ne', g') ↦ v.tickers j k c e f' g' eq
          | inr (at, is, _) ↦ absurd (
              ne (
                sym (find_company-id j db.companies f')
                ∙ other_ticker j c f' (eq ∙ ap (λ (x : Company). x.ticker) is)))
        ]
        | inr (at, is, _) ↦ elim (find_company-replace_cases k db.companies d g) [
          | inl (ne', g') ↦ absurd (
              ne' (
                sym (find_company-id k db.companies g')
                ∙ other_ticker k e g' (sym eq ∙ ap (λ (x : Company). x.ticker) is)))
          | inr (at', _, _) ↦ at ∙ sym at'
        ]
      ];
      years = v.years;
      owners = λ b e.
          let (c, f) = v.owners b e in
          elim (ℕ_discrete b.company_id d.id) [
            | yes is ↦ (d, find_company-replace_self b.company_id db.companies d f is)
            | no ne ↦ (c, find_company-replace_old b.company_id db.companies d f ne)
          ];
      sheet_ids = v.sheet_ids;
    }
      where
        other_ticker :
            (j : ℕ) (c : Company)
            → find_company j db.companies ≡ some c
            → c.ticker ≡ d.ticker
            → c.id ≡ d.id
        other_ticker j c f e =
            ticker_free-Elem d.id d.ticker db.companies c free (find_company-Elem j db.companies f)
              e

    module _ (p : Option ℕ × ℕ)
        (stays : (row : Company)
          → row.id ≡ company.id
          → row.parent_company_id ≡ p.0
          → row.group_root_id ≡ p.1
          → IsHierarchy db.company_seq (replace_company row db.companies)) where
      commit_company-IsValid :
          (wanted name ticker : Option String)
          → IsValidAfter (commit_company company wanted name ticker p db)
      unfolding commit_company
      commit_company-IsValid wanted (some n) (some t) =
          let new : Company = record company {
            name = n;
            ticker = t;
            parent_company_id = p.0;
            group_root_id = p.1;
          } in
          let (i, k, q, g) = stamped_fields company new db.now refl in
          elim (Bool-cases (ticker_free company.id t db.companies)) [
            | inl free ↦ elim (Bool-cases (parent_exists p.0 db.companies)) [
              | inl exists ↦
                  rw (free, exists)
                    (replace-IsValid (stamped company new db.now) i
                      (ap₂ (λ a b. ticker_free a b db.companies) i k ∙ free)
                      (stays (stamped company new db.now) i q g))
              | inr missing ↦ rw (free, missing) v
            ]
            | inr taken ↦ rw taken v
          ]
      commit_company-IsValid wanted none ticker = v
      commit_company-IsValid wanted (some n) none = v

    -- What is known of a parent and a root before the commit.
    abbrev Stays : Option ℕ × ℕ → Type 0
    Stays p =
        (row : Company)
        → row.id ≡ company.id
        → row.parent_company_id ≡ p.0
        → row.group_root_id ≡ p.1
        → IsHierarchy db.company_seq (replace_company row db.companies)

    found_row :
        (row : Company) → row.id ≡ company.id → find_company row.id db.companies ≡ some company
    found_row row i = ap (λ k. find_company k db.companies) i ∙ there

    Stays-same : Stays (company.parent_company_id, company.group_root_id)
    Stays-same row i q g = rename-IsHierarchy v.hierarchy company row (found_row row i) q g

    module _ (leaf : count_subsidiaries company.id db.companies ≡ 0) where
      row_leaf : (row : Company) → row.id ≡ company.id → count_subsidiaries row.id db.companies ≡ 0
      row_leaf row i = ap (λ k. count_subsidiaries k db.companies) i ∙ leaf

      new_row :
          (row : Company)
          → row.id ≡ company.id
          → find_company row.id (replace_company row db.companies) ≡ some row
      new_row row i = find_company-replace_self row.id db.companies row (found_row row i) refl

      Stays-root : Stays (none, company.id)
      Stays-root row i q g =
          reparent-IsHierarchy v.hierarchy company row (found_row row i) (row_leaf row i)
            (top row (new_row row i) q (g ∙ sym i))

      Stays-child :
          (p : ℕ) (parent : Company)
          → p ≢ company.id
          → find_company p db.companies ≡ some parent
          → Stays (some p, parent.group_root_id)
      Stays-child p parent ne f row i q g =
          reparent-IsHierarchy v.hierarchy company row (found_row row i) (row_leaf row i) (
            up row p (new_row row i) q (
              RootOf-cast refl (sym g) (
                others_keep v.hierarchy row (row_leaf row i) (λ e. ne (e ∙ i))
                  (v.hierarchy.roots p parent f))))

    module _ (k : Option ℕ × ℕ → Exec Database Company)
        (commits : (p : Option ℕ × ℕ) → Stays p → IsValidAfter (k p db)) where
      -- The rest of the call, once the parent has been looked up.
      abbrev rest : Option ℕ → Result (Option Company) × Database → Result Company × Database
      rest p r = continue (continue r (λ parent. pure (p, group_root_of parent company.id))) k

      after_get_parent :
          count_subsidiaries company.id db.companies ≡ 0
          → (p : Option ℕ) → p ≢ some company.id
          → IsValidAfter (rest p (get_parent p db))
      after_get_parent leaf none ne =
          unfold get_parent in commits (none, company.id) (Stays-root leaf)
      after_get_parent leaf (some p) ne = elim (Option-cases (find_company p db.companies)) [
        | inl missing ↦
            subst (λ r. IsValidAfter (rest (some p) r)) (sym (get_parent-missing p db missing)) v
        | inr (parent, f) ↦
            subst (λ r. IsValidAfter (rest (some p) r)) (sym (get_parent-found p parent db f))
              (commits (some p, parent.group_root_id)
                (Stays-child leaf p parent (λ e. ne (ap some e)) f))
      ]

      after_reparent : (p : Option ℕ) → IsValidAfter ((reparent company p >>= k) db)
      unfolding reparent
      after_reparent p = elim (Bool-cases (same_parent p (some company.id))) [
        | inl own ↦ rw own v
        | inr other ↦ elim (Bool-cases (ltb 0 (count_subsidiaries company.id db.companies))) [
          | inl left ↦ rw (other, left) v
          | inr leaf ↦
              rw (other, leaf)
                (after_get_parent (ground arith) p
                  (λ e. cc ((same_parent_iff p (some company.id)).1 e)))
        ]
      ]

      after_resolve_parent :
          (sent_parent : Sent ℕ) → IsValidAfter ((resolve_parent company sent_parent >>= k) db)
      unfolding resolve_parent
      after_resolve_parent unset =
          commits (company.parent_company_id, company.group_root_id) Stays-same
      after_resolve_parent (sent p) = elim (Bool-cases (same_parent p company.parent_company_id)) [
        | inl same ↦ rw same (commits (company.parent_company_id, company.group_root_id) Stays-same)
        | inr differs ↦ rw differs (after_reparent p)
      ]

    -- Updating a company of a valid state leaves a valid state, whether it returns or raises:
    -- also where the company gets another parent, every company's `group_root_id` is still the id
    -- of its top-most ancestor.
    pub update_company-IsValid :
        (payload : CompanyUpdate) → IsValidAfter (update_company company payload db)
    unfolding update_company
    update_company-IsValid payload =
        after_resolve_parent
          (commit_company company (sent_value payload.ticker) (updated payload.name company.name)
            (updated payload.ticker company.ticker))
          (λ p stays.
            commit_company-IsValid p stays (sent_value payload.ticker)
              (updated payload.name company.name) (updated payload.ticker company.ticker))
          payload.parent_company_id
