-- ===== src/Routes/Guard/Laws.antt =====
-- The three answers of the check with which a handler starts, for whatever the handler does next.
use balance_sheet_analysis.Prelude.{
  ℕ, String, Bool, true, false, not, ◌≡◌, refl, sym, ap, ◌∙◌, inl, inr, Option, none, some,
  Option-cases, if◌then◌else◌,
}
use mathlib.Core.Path.{subst}
use balance_sheet_analysis.Json.{Fields}
use balance_sheet_analysis.Exec.{
  Result, ok, err, Exec, pure, raise_if, or_raise, continue, ◌>>=◌, ◌>>◌, Exception, http_exception,
  text,
}
use balance_sheet_analysis.Exec.Pure.{Result-cases}
use balance_sheet_analysis.Tables.{Database, Company}
use balance_sheet_analysis.Access.Scope.{resource_scope_dict}
use balance_sheet_analysis.Policies.Conditions.Library.{Environment}
use balance_sheet_analysis.Policies.Engine.{AuthorizationDecision}
use balance_sheet_analysis.Policies.Service.Laws.{decided, logged, require-decided, require-raised}
use balance_sheet_analysis.Policies.Service.{require}
use balance_sheet_analysis.Companies.Rows.{find_company}
use balance_sheet_analysis.Companies.Crud.{get_company_by_id}
use balance_sheet_analysis.Validity.{IsValid, IsValidAfter, others-IsValid}
use balance_sheet_analysis.Routes.Guard.{checked_company, get_or_404}

raise_if-IsValid :
    (b : Bool) (x : Exception) (s : Database) → IsValid s → IsValidAfter (raise_if b x s)
raise_if-IsValid true x s v = v
raise_if-IsValid false x s v = v

either :
    {A : Type 0} (b : Bool) (p q : Result A × Database)
    → IsValidAfter p
    → IsValidAfter q
    → IsValidAfter (if b then p else q)
either true p q h k = h
either false p q h k = k

module _ (env : Environment) (email action resource_type : String) where
  module _ {A : Type 0} (company_id : ℕ) (body : Company → Exec Database A) (db : Database) where
    abbrev handler : Result A × Database
    handler = (checked_company env email action resource_type company_id >>= body) db

    abbrev after_check : Company → Result (Unit {0}) × Database → Result A × Database
    after_check company r = continue (continue r (λ _ s. (ok company, s))) body

    abbrev after_find : Option Company → Result A × Database
    after_find found =
        continue
          (continue (or_raise found (http_exception 404 (text "Company not found")) db) (λ company.
            require env email action resource_type
              (some (resource_scope_dict company.id company.group_root_id)) none
            >> pure company))
          body

    by_allowed :
        (company : Company) (b : Bool) (s : Database)
        → after_check company
            (raise_if (not b) (http_exception 403 (text "Insufficient permissions")) s)
          ≡ (if b
              then body company s
              else (err (http_exception 403 (text "Insufficient permissions")), s))
    by_allowed company true s = refl
    by_allowed company false s = refl

    -- For a company that is not there the answer is 404, nothing is checked, and nothing is
    -- written.
    pub checked_company-missing :
        find_company company_id db.companies ≡ none
        → handler ≡ (err (http_exception 404 (text "Company not found")), db)
    unfolding checked_company get_or_404 get_company_by_id
    checked_company-missing missing = ap after_find missing

    module _ (company : Company) (there : find_company company_id db.companies ≡ some company) where
      abbrev scope_of_row : Option Fields
      scope_of_row = some (resource_scope_dict company.id company.group_root_id)

      -- Where the check of the row comes to a decision, the decision is logged in one entry, and
      -- the handler's own work runs exactly where it is allowed: it starts from the database with
      -- that entry. Otherwise the answer is 403 and nothing else is written.
      pub checked_company-decided :
          (d : AuthorizationDecision)
          → decided env email action resource_type scope_of_row none db ≡ ok d
          → handler ≡ (
              if d.allowed
              then body company (logged env email action resource_type scope_of_row none d db)
              else (
                err (http_exception 403 (text "Insufficient permissions")),
                logged env email action resource_type scope_of_row none d db,
              ))
      unfolding checked_company get_or_404 get_company_by_id
      checked_company-decided d e =
          ap after_find there
          ∙ ap (after_check company)
              (require-decided env email action resource_type scope_of_row none db d e)
          ∙ by_allowed company d.allowed
              (logged env email action resource_type scope_of_row none d db)

      pub checked_company-raised :
          (x : Exception)
          → decided env email action resource_type scope_of_row none db ≡ err x
          → handler ≡ (err x, db)
      unfolding checked_company get_or_404 get_company_by_id
      checked_company-raised x e =
          ap after_find there
          ∙ ap (after_check company)
              (require-raised env email action resource_type scope_of_row none db x e)

  -- The audit log is in no table that a valid state is about.
  pub logged-IsValid :
      (resource context : Option Fields) (d : AuthorizationDecision) (db : Database)
      → IsValid db
      → IsValid (logged env email action resource_type resource context d db)
  logged-IsValid resource context d db v =
      others-IsValid db db.users db.policies db.user_policies
        (logged env email action resource_type resource context d db).audit_log db.now v

  pub require-IsValid :
      (resource context : Option Fields) (db : Database)
      → IsValid db
      → IsValidAfter (require env email action resource_type resource context db)
  require-IsValid resource context db v =
      elim (Result-cases (decided env email action resource_type resource context db)) [
        | inl (d, e) ↦
            subst IsValidAfter
              (sym (require-decided env email action resource_type resource context db d e))
              (raise_if-IsValid (not d.allowed) _ _ (logged-IsValid resource context d db v))
        | inr (x, e) ↦
            subst IsValidAfter
              (sym (require-raised env email action resource_type resource context db x e)) v
      ]

  -- A handler leaves a valid state if what it does with the row does.
  pub checked_company-IsValid :
      {A : Type 0} (company_id : ℕ) (body : Company → Exec Database A) (db : Database)
      → IsValid db
      → ((company : Company) (s : Database)
          → IsValid s
          → find_company company_id s.companies ≡ some company
          → IsValidAfter (body company s))
      → IsValidAfter ((checked_company env email action resource_type company_id >>= body) db)
  checked_company-IsValid company_id body db v keep =
      elim (Option-cases (find_company company_id db.companies)) [
        | inl missing ↦
            subst IsValidAfter (sym (checked_company-missing company_id body db missing)) v
        | inr (company, there) ↦
            let resource = some (resource_scope_dict company.id company.group_root_id) in
            elim (Result-cases (decided env email action resource_type resource none db)) [
              | inl (d, e) ↦
                  let lv = logged-IsValid resource none d db v in
                  subst IsValidAfter
                    (sym (checked_company-decided company_id body db company there d e))
                    (either d.allowed _ _
                      (keep company (logged env email action resource_type resource none d db) lv
                        there)
                      lv)
              | inr (x, e) ↦
                  subst IsValidAfter
                    (sym (checked_company-raised company_id body db company there x e)) v
            ]
      ]
