-- ===== src/Policies/Service/Laws.antt =====
-- The answers of `authorize` and `require`, and what they write: one entry of the audit log.
use balance_sheet_analysis.Prelude.{
  String, Bool, true, false, not, ◌≡◌, refl, ap, ◌∙◌, inl, inr, Option, [], ◌∷◌, ◌++◌, List,
}
use balance_sheet_analysis.Json.{Fields}
use balance_sheet_analysis.Exec.{
  Result, ok, err, Exec, pure, raise_if, continue, ◌>>◌, Exception, http_exception, text,
}
use balance_sheet_analysis.Exec.Pure.{Result-cases}
use balance_sheet_analysis.Tables.{Database, AuditEntry}
use balance_sheet_analysis.Policies.Conditions.Library.{Environment}
use balance_sheet_analysis.Policies.Engine.{AuthorizationDecision, evaluate_detailed}
use balance_sheet_analysis.Policies.Repository.{
  active_policies, create_entry, get_active_policies_for_user,
}
use balance_sheet_analysis.Policies.Service.{
  require, authorize, authorize_with_decision, authorize_detailed, entry_of,
}

-- The database differs in the audit log alone.
abbrev pub OnlyLogged : Database → Database → Type 0
OnlyLogged before later = (log : List AuditEntry) × (later ≡ record before { audit_log = log })

pub continue-OnlyLogged :
    {A B : Type 0} (db : Database) (r : Result A × Database) (f : A → Exec Database B)
    → OnlyLogged db r.1
    → ((a : A) (s : Database) → OnlyLogged s (f a s).1)
    → OnlyLogged db (continue r f).1
continue-OnlyLogged db (err x, s) f (log, e) keep = (log, e)
continue-OnlyLogged db (ok a, s) f (log, e) keep =
    let (longer, g) = keep a s in
    (longer, g ∙ ap (λ (t : Database). record t { audit_log = longer }) e)

abbrev pub denied : Exception
denied = http_exception 403 (text "Insufficient permissions")

pub raise_if-state : {S : Type 0} (b : Bool) (x : Exception) (s : S) → (raise_if b x s).1 ≡ s
raise_if-state true x s = refl
raise_if-state false x s = refl

module _ (env : Environment) (email action resource_type : String) where
  -- The decision on an access, from the policies in force.
  abbrev pub decided : Option Fields → Option Fields → Database → Result AuthorizationDecision
  decided resource context db =
      evaluate_detailed env action resource_type email resource context (active_policies db email)

  -- The database with the audit entry of a decision.
  abbrev pub logged : Option Fields → Option Fields → AuthorizationDecision → Database → Database
  logged resource context d db = record db {
    audit_log = db.audit_log ++ entry_of email action resource_type resource context d ∷ [];
  }

  module _ (resource context : Option Fields) (db : Database) where
    -- What `authorize` and `require` make of a decision.
    abbrev answered : Result AuthorizationDecision → Result Bool × Database
    answered r =
        continue
          (continue (r, db)
            (λ d. create_entry (entry_of email action resource_type resource context d) >> pure d))
          (λ d. pure d.allowed)

    abbrev concluded : Result AuthorizationDecision → Result (Unit {0}) × Database
    concluded r = continue (answered r) (λ allowed. raise_if (not allowed) denied)

    pub authorize-decided :
        (d : AuthorizationDecision)
        → decided resource context db ≡ ok d
        → authorize env email action resource_type resource context db
          ≡ (ok d.allowed, logged resource context d db)
    unfolding authorize authorize_with_decision authorize_detailed create_entry
        get_active_policies_for_user
    authorize-decided d e = ap answered e

    pub require-decided :
        (d : AuthorizationDecision)
        → decided resource context db ≡ ok d
        → require env email action resource_type resource context db
          ≡ raise_if (not d.allowed) denied (logged resource context d db)
    unfolding require authorize authorize_with_decision authorize_detailed create_entry
        get_active_policies_for_user
    require-decided d e = ap concluded e

    pub require-raised :
        (x : Exception)
        → decided resource context db ≡ err x
        → require env email action resource_type resource context db ≡ (err x, db)
    unfolding require authorize authorize_with_decision authorize_detailed create_entry
        get_active_policies_for_user
    require-raised x e = ap concluded e

    pub authorize-raised :
        (x : Exception)
        → decided resource context db ≡ err x
        → authorize env email action resource_type resource context db ≡ (err x, db)
    unfolding authorize authorize_with_decision authorize_detailed create_entry
        get_active_policies_for_user
    authorize-raised x e = ap answered e

    pub authorize-OnlyLogged :
        OnlyLogged db (authorize env email action resource_type resource context db).1
    authorize-OnlyLogged = elim (Result-cases (decided resource context db)) [
      | inl (d, e) ↦ (_, ap (λ r. r.1) (authorize-decided d e))
      | inr (x, e) ↦ (db.audit_log, ap (λ r. r.1) (authorize-raised x e))
    ]

    pub require-OnlyLogged :
        OnlyLogged db (require env email action resource_type resource context db).1
    require-OnlyLogged = elim (Result-cases (decided resource context db)) [
      | inl (d, e) ↦ (_, ap (λ r. r.1) (require-decided d e) ∙ raise_if-state (not d.allowed) _ _)
      | inr (x, e) ↦ (db.audit_log, ap (λ r. r.1) (require-raised x e))
    ]
