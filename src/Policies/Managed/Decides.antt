-- ===== src/Policies/Managed/Decides.antt =====
-- In a managed state every check of an access comes to an answer.
use balance_sheet_analysis.Prelude.{
  String, not, ◌≡◌, refl, inl, inr, Option, List, [], ◌∷◌, All, Elem, Elem-select,
}
use balance_sheet_analysis.Json.{Fields, get}
use balance_sheet_analysis.Exec.{ok, raise_if}
use balance_sheet_analysis.Tables.{Database, Policy}
use balance_sheet_analysis.Policies.Conditions.Library.{Environment, or_empty}
use balance_sheet_analysis.Policies.Conditions.Validator.Laws.{AreSignals}
use balance_sheet_analysis.Policies.Engine.{AuthorizationDecision}
use balance_sheet_analysis.Policies.Engine.Total.{IsAccepted, AllAccepted, evaluate_detailed-total}
use balance_sheet_analysis.Policies.Repository.{active_policies}
use balance_sheet_analysis.Policies.Service.{require}
use balance_sheet_analysis.Policies.Service.Laws.{decided, logged, denied, require-decided}
use balance_sheet_analysis.Policies.Managed.{Managed}

All-of_members :
    {A : Type 0} (P : A → Type 0) (xs : List A) → ((a : A) → Elem a xs → P a) → All P xs
All-of_members P [] h = tt
All-of_members P (x ∷ xs) h = (h x (inl refl), All-of_members P xs (λ a e. h a (inr e)))

pub active_policies-accepted :
    (db : Database) (email : String) → Managed db → AllAccepted (active_policies db email)
unfolding active_policies
active_policies-accepted db email m =
    All-of_members (λ (p : Policy). IsAccepted p.conditions) (active_policies db email)
      (λ p e. m.accepted p ((Elem-select _ p db.policies).0 e).0)

-- In a managed state a check of any access, on any resource and in any context whose security
-- signals are absent or a dict, comes to a decision. The decision is logged in one entry, and the
-- answer is a return where it allows the access and 403 where it does not: no check ends in another
-- exception.
pub require-answers :
    (env : Environment) (email action resource_type : String) (resource context : Option Fields)
    (db : Database)
    → AreSignals (get "security_context" (or_empty context))
    → Managed db
    → (d : AuthorizationDecision) × (decided env email action resource_type resource context db
        ≡ ok d)
      × (require env email action resource_type resource context db
          ≡ raise_if
              (not d.allowed)
              denied
              (logged env email action resource_type resource context d db))
require-answers env email action resource_type resource context db signals m =
    let (d, e) =
      evaluate_detailed-total env action resource_type email resource context signals
        (active_policies db email) (active_policies-accepted db email m) in
    (d, e, require-decided env email action resource_type resource context db d e)
