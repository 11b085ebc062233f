-- ===== src/Routes/Chat/Laws.antt =====
-- The three answers of the check for the chat, and which rows the chat looks at.
use balance_sheet_analysis.Prelude.{
  String, Bool, true, false, ◌&&◌, ◌≡◌, refl, sym, ap, ◌∙◌, inl, inr, Option, none, some,
  Option-cases, List, [], ◌∷◌, select, if◌then◌else◌, arith, Bool-cases,
}
use mathlib.Core.Path.{subst}
use balance_sheet_analysis.Prelude.Equality.{◌==◌, nat_eq, string_eq}
use balance_sheet_analysis.Json.{Fields}
use balance_sheet_analysis.Exec.{Result, ok, err, Exception, http_exception, text}
use balance_sheet_analysis.Exec.Pure.{Result-cases}
use balance_sheet_analysis.Tables.{Database, Company, BalanceSheet}
use balance_sheet_analysis.Access.Permissions.{resource_llm, llm_chat}
use balance_sheet_analysis.Access.Scope.{resource_scope_dict}
use balance_sheet_analysis.Policies.Conditions.Library.{Environment}
use balance_sheet_analysis.Policies.Service.Laws.{decided, logged, denied}
use balance_sheet_analysis.Policies.Engine.{AuthorizationDecision}
use balance_sheet_analysis.Policies.Repository.{active_policies, is_assigned}
use balance_sheet_analysis.Companies.Rows.{find_company}
use balance_sheet_analysis.Companies.Rows.Laws.{find_company-id}
use balance_sheet_analysis.BalanceSheets.Crud.{
  list_balance_sheets_for_company_years, order_by_year, year_wanted,
}
use balance_sheet_analysis.Llm.{Format, Groq}
use balance_sheet_analysis.Routes.Guard.Laws.{
  checked_company-missing, checked_company-decided, checked_company-raised,
}
use balance_sheet_analysis.Routes.Chat.{ChatRequest, answer_about, discuss, chat}

-- The rows of one company, some of them wanted.
select-both :
    {A : Type 0} (p q : A → Bool) (xs : List A)
    → select (λ a. p a && q a) xs ≡ select q (select p xs)
select-both p q [] = refl
select-both p q (x ∷ xs) =
    let rest = select-both p q xs in
    elim (Bool-cases (p x)) [ inl t ↦ ground arith | inr f ↦ ground arith ]

first-if :
    {A B : Type 0} (b : Bool) (p q r s : A × B)
    → p.0 ≡ r.0
    → q.0 ≡ s.0
    → (if b then p else q).0 ≡ (if b then r else s).0
first-if true p q r s h k = h
first-if false p q r s h k = k

module _ (format : Format) (groq : Groq) (env : Environment) (email : String)
    (payload : ChatRequest) where
  abbrev pub scope_of : Company → Option Fields
  scope_of company = some (resource_scope_dict company.id company.group_root_id)

  abbrev answer : Result String × Database → Result String
  answer r = r.0

  module _ (db : Database) where
    -- The three answers of the check, for the chat.
    pub chat-missing :
        find_company payload.company_id db.companies ≡ none
        → chat format groq env email payload db
          ≡ (err (http_exception 404 (text "Company not found")), db)
    unfolding chat
    chat-missing =
        checked_company-missing env email llm_chat resource_llm payload.company_id
          (discuss format groq payload) db

    module _ (company : Company)
        (there : find_company payload.company_id db.companies ≡ some company) where
      pub chat-decided :
          (d : AuthorizationDecision)
          → decided env email llm_chat resource_llm (scope_of company) none db ≡ ok d
          → chat format groq env email payload db ≡ (
              if d.allowed
              then discuss format groq payload company
                  (logged env email llm_chat resource_llm (scope_of company) none d db)
              else (
                err denied,
                logged env email llm_chat resource_llm (scope_of company) none d db,
              ))
      unfolding chat
      chat-decided =
          checked_company-decided env email llm_chat resource_llm payload.company_id
            (discuss format groq payload) db company there

      chat-raised :
          (x : Exception)
          → decided env email llm_chat resource_llm (scope_of company) none db ≡ err x
          → chat format groq env email payload db ≡ (err x, db)
      unfolding chat
      chat-raised =
          checked_company-raised env email llm_chat resource_llm payload.company_id
            (discuss format groq payload) db company there

  -- The wanted rows of a company are among its rows.
  discuss-own_sheets :
      (company : Company) (left right : Database)
      → select (λ b. b.company_id == company.id) left.balance_sheets
        ≡ select (λ b. b.company_id == company.id) right.balance_sheets
      → (discuss format groq payload company left).0 ≡ (discuss format groq payload company right).0
  unfolding list_balance_sheets_for_company_years
  discuss-own_sheets company left right same =
      ap (λ rows. answer_about format groq company payload.question (order_by_year rows))
        (select-both of_company wanted left.balance_sheets
          ∙ ap (select wanted) same
          ∙ sym (select-both of_company wanted right.balance_sheets))
    where
      of_company : BalanceSheet → Bool
      of_company b = b.company_id == company.id

      wanted : BalanceSheet → Bool
      wanted b = year_wanted payload.years b.year

  -- Two databases that differ in balance sheets alone, and that have the same rows of the company
  -- that is asked about in the same order, give the same answer, whatever the chat API makes of what
  -- it is sent: no figure of another company has a part in it.
  pub chat-own_sheets :
      (db : Database) (sheets : List BalanceSheet)
      → select (λ b. b.company_id == payload.company_id) sheets
        ≡ select (λ b. b.company_id == payload.company_id) db.balance_sheets
      → (chat format groq env email payload (record db { balance_sheets = sheets })).0
        ≡ (chat format groq env email payload db).0
  unfolding active_policies is_assigned
  chat-own_sheets db sheets same =
      elim (Option-cases (find_company payload.company_id db.companies)) [
        | inl missing ↦
            ap answer (chat-missing other missing) ∙ sym (ap answer (chat-missing db missing))
        | inr (company, there) ↦
            elim (Result-cases
              (decided env email llm_chat resource_llm (scope_of company) none db)) [
                | inl (d, e) ↦
                    ap answer (chat-decided other company there d e)
                    ∙ first-if d.allowed _ _ _ _
                        (discuss-own_sheets company
                          (logged env email llm_chat resource_llm (scope_of company) none d other)
                          (logged env email llm_chat resource_llm (scope_of company) none d db)
                          (subst
                            (λ id.
                              select (λ (b : BalanceSheet). b.company_id == id) sheets
                              ≡ select (λ (b : BalanceSheet). b.company_id == id) db.balance_sheets)
                            (sym (find_company-id payload.company_id db.companies there)) same))
                        refl
                    ∙ sym (ap answer (chat-decided db company there d e))
                | inr (x, e) ↦
                    ap answer (chat-raised other company there x e)
                    ∙ sym (ap answer (chat-raised db company there x e))
              ]
      ]
    where
      other : Database
      other = record db { balance_sheets = sheets }
