-- ===== src/Companies/Preserves/Create.antt =====
-- `create_company` keeps the tables valid.
use balance_sheet_analysis.Prelude.{
  ℕ, suc, true, ◌≡◌, ◌≢◌, refl, sym, ap, ◌∙◌, inl, inr, Option, none, some, [], ◌∷◌, ◌++◌, arith,
  Option-cases, Bool-cases,
}
use mathlib.Core.Path.{subst}
use balance_sheet_analysis.Exec.{
  ok, err, ◌>>=◌, bind-ok, bind-err, value_error, parent_does_not_exist,
}
use balance_sheet_analysis.Tables.{Database, Company}
use balance_sheet_analysis.Validity.{IsValid, IsValidAfter}
use balance_sheet_analysis.Companies.Schema.{CompanyCreate}
use balance_sheet_analysis.Companies.Rows.{find_company, ticker_free, parent_exists}
use balance_sheet_analysis.Companies.Rows.Laws.{
  find_company-id, find_company-Elem, find_company-append_old, find_company-append_new,
  find_company-append_cases, ticker_free-Elem, NodupIds-append,
}
use balance_sheet_analysis.Companies.Hierarchy.{RootOf, top, up}
use balance_sheet_analysis.Companies.Invariant.{seq_free, insert_keeps, insert-IsHierarchy}
use balance_sheet_analysis.Companies.Crud.{
  get_parent, insert_company, create_company, resolved_company, group_root_of,
}

pub get_parent-found :
    (p : ℕ) (c : Company) (db : Database)
    → find_company p db.companies ≡ some c
    → get_parent (some p) db ≡ (ok (some c), db)
unfolding get_parent
get_parent-found p c db f = ground arith

pub get_parent-missing :
    (p : ℕ) (db : Database)
    → find_company p db.companies ≡ none
    → get_parent (some p) db ≡ (err (value_error (parent_does_not_exist p)), db)
unfolding get_parent
get_parent-missing p db f = ground arith

module _ (db : Database) (v : IsValid db) where
  -- A company that is inserted with a free ticker and the root that its parent says.
  module _ (d : Company) (i : d.id ≡ db.company_seq)
      (free : ticker_free d.id d.ticker db.companies ≡ true)
      (root : RootOf (db.companies ++ d ∷ []) db.company_seq d.group_root_id) where
    new_ticker : (j : ℕ) (c : Company) → find_company j db.companies ≡ some c → c.ticker ≢ d.ticker
    new_ticker j c f e =
        let same =
          ticker_free-Elem d.id d.ticker db.companies c free (find_company-Elem j db.companies f)
            e in
        absurd (omega (arith, v.hierarchy.below j c f, find_company-id j db.companies f))

    insert-IsValid :
        IsValid (record db { company_seq = suc db.company_seq; companies = db.companies ++ d ∷ [] })
    insert-IsValid = record {
      hierarchy = insert-IsHierarchy v.hierarchy d i root;
      ids =
          NodupIds-append db.companies d v.ids
            (ap (λ k. find_company k db.companies) i ∙ seq_free v.hierarchy);
      tickers = λ j k c e f g same. elim (find_company-append_cases j db.companies d f) [
        | inl f' ↦ elim (find_company-append_cases k db.companies d g) [
          | inl g' ↦ v.tickers j k c e f' g' same
          | inr (at, is) ↦ absurd (new_ticker j c f' (same ∙ ap (λ (x : Company). x.ticker) is))
        ]
        | inr (at, is) ↦ elim (find_company-append_cases k db.companies d g) [
          | inl g' ↦ absurd (new_ticker k e g' (sym same ∙ ap (λ (x : Company). x.ticker) is))
          | inr (at', is') ↦ sym at ∙ at'
        ]
      ];
      years = v.years;
      owners = λ b e.
          let (c, f) = v.owners b e in (c, find_company-append_old b.company_id db.companies d f);
      sheet_ids = v.sheet_ids;
    }

  taken-IsValid : IsValid (record db { company_seq = suc db.company_seq })
  taken-IsValid = record {
    hierarchy = record {
      below = λ k c f. omega (arith, v.hierarchy.below k c f);
      roots = v.hierarchy.roots;
    };
    ids = v.ids;
    tickers = v.tickers;
    years = v.years;
    owners = v.owners;
    sheet_ids = v.sheet_ids;
  }

  module _ (payload : CompanyCreate) where
    insert_company-IsValid :
        (parent : Option Company)
        → RootOf
            (db.companies ++ resolved_company payload parent db ∷ [])
            db.company_seq
            (group_root_of parent db.company_seq)
        → IsValid (insert_company payload parent db).1
    unfolding insert_company
    insert_company-IsValid parent root =
        let d = resolved_company payload parent db in
        elim (Bool-cases (ticker_free d.id d.ticker db.companies)) [
          | inl free ↦ elim (Bool-cases (parent_exists d.parent_company_id db.companies)) [
            | inl there ↦ rw (free, there) (insert-IsValid d refl free root)
            | inr missing ↦ rw (free, missing) taken-IsValid
          ]
          | inr taken ↦ rw taken taken-IsValid
        ]

    found_root :
        (p : ℕ) (parent : Company)
        → payload.parent_company_id ≡ some p
        → find_company p db.companies ≡ some parent
        → RootOf
            (db.companies ++ resolved_company payload (some parent) db ∷ [])
            db.company_seq
            parent.group_root_id
    found_root p parent e f =
        let d = resolved_company payload (some parent) db in
        up d p (find_company-append_new db.companies d (seq_free v.hierarchy)) e
          (insert_keeps v.hierarchy d (v.hierarchy.roots p parent f))

    after_parent :
        (o : Option ℕ)
        → payload.parent_company_id ≡ o
        → IsValid ((get_parent o >>= insert_company payload) db).1
    after_parent none e =
        unfold get_parent in
        insert_company-IsValid none (
          top (resolved_company payload none db)
            (find_company-append_new db.companies (resolved_company payload none db)
              (seq_free v.hierarchy))
            e refl)
    after_parent (some p) e = elim (Option-cases (find_company p db.companies)) [
      | inl missing ↦
          subst IsValidAfter
            (sym (
              bind-err (get_parent (some p)) db (insert_company payload)
                (get_parent-missing p db missing)))
            v
      | inr (parent, f) ↦
          subst IsValidAfter
            (sym (
              bind-ok (get_parent (some p)) db (insert_company payload)
                (get_parent-found p parent db f)))
            (insert_company-IsValid (some parent) (found_root p parent e f))
    ]

    -- From a valid state, creating a company leaves a valid state, whether it returns or raises:
    -- in particular the new company's `group_root_id` is the id of its top-most ancestor.
    pub create_company-IsValid : IsValid (create_company payload db).1
    unfolding create_company
    create_company-IsValid = after_parent payload.parent_company_id refl
