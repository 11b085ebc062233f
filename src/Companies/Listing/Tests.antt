-- ===== src/Companies/Listing/Tests.antt =====
-- A listing whose sort column has a tie, and the theorem on the order of its page applied to it.
use Prim.Native.String.{count}
use mathlib.Core.List.{Permᴰ}
use balance_sheet_analysis.Prelude.{
  ℕ, String, true, ◌||◌, inl, inr, Elem, leb, arith, ◌≡◌, refl, sym, ap, ◌∙◌, none, some, [], ◌∷◌,
}
use balance_sheet_analysis.Tables.{Database, Company}
use balance_sheet_analysis.Examples.{empty_database}
use balance_sheet_analysis.Access.Scope.{CompanyScope}
use balance_sheet_analysis.Companies.Listing.{Collation, list_companies_in_scope}
use balance_sheet_analysis.Companies.Listing.Stable.{list_companies_in_scope-Perm}

abbrev pub by_length : Collation
by_length = record { ilike = λ s pattern. true; text_le = λ s t. leb (count s) (count t) }

by_length_total : (a b : String) → (by_length.text_le a b || by_length.text_le b a) ≡ true
by_length_total a b = ground arith

by_length_trans :
    (a b c : String)
    → by_length.text_le a b ≡ true
    → by_length.text_le b c ≡ true
    → by_length.text_le a c ≡ true
by_length_trans a b c h k = ground arith

abbrev all_scope : CompanyScope
all_scope = record { unrestricted = true; company_ids = []; group_root_ids = [] }

five_one : ¬ (◌≡◌ {A = ℕ} 5 1)
five_one = omega arith

abbrev holding_row : Company
holding_row = record {
  id = 1;
  name = "Holding";
  ticker = "HLD";
  parent_company_id = none;
  group_root_id = 1;
  created_at = 100;
  updated_at = 100;
}

-- Two groups whose names are of one length, so that a listing by name has a tie.
abbrev same_length : Company
same_length = record holding_row { id = 5; name = "Harbour"; ticker = "HRB"; group_root_id = 5 }

abbrev tied : Database
tied = record empty_database { companies = same_length ∷ holding_row ∷ [] }

tied_unique : (c d : Company) → Elem c tied.companies → Elem d tied.companies → c.id ≡ d.id → c ≡ d
tied_unique c d (inl e) (inl f) same = e ∙ sym f
tied_unique c d (inl e) (inr (inl f)) same =
    absurd (five_one (sym (ap (λ x. x.id) e) ∙ same ∙ ap (λ x. x.id) f))
tied_unique c d (inr (inl e)) (inl f) same =
    absurd (five_one (sym (ap (λ x. x.id) f) ∙ sym same ∙ ap (λ x. x.id) e))
tied_unique c d (inr (inl e)) (inr (inl f)) same = e ∙ sym f
tied_unique c d (inl e) (inr (inr n)) same = absurd n
tied_unique c d (inr (inl e)) (inr (inr n)) same = absurd n
tied_unique c d (inr (inr m)) n same = absurd m

list_companies_in_scope-Perm_example :
    (list_companies_in_scope by_length all_scope 1 0 none none
      (some "name")
      "asc"
      (record tied { companies = holding_row ∷ same_length ∷ [] })).0
    ≡ (list_companies_in_scope by_length all_scope 1 0 none none (some "name") "asc" tied).0
list_companies_in_scope-Perm_example =
    list_companies_in_scope-Perm by_length all_scope none none (some "name") "asc" by_length_total
      by_length_trans 1 0 tied (holding_row ∷ same_length ∷ []) (Permᴰ.swap refl refl) tied_unique
