-- ===== src/Policies/Admin/Steps.antt =====
-- What holds in the state that a handler leaves, one step of the handler at a time.
use balance_sheet_analysis.Prelude.{Bool, true, false, ◌≡◌, refl, sym, Option, none, some, List}
use mathlib.Core.Path.{subst}
use balance_sheet_analysis.Exec.{Result, ok, err, Exec, raise_if, or_raise, continue, Exception}
use balance_sheet_analysis.Tables.{Database, AuditEntry}
use balance_sheet_analysis.Policies.Service.Laws.{OnlyLogged}

module _ (P : Database → Type 0) {A B : Type 0} where
  -- A step that writes to the audit log alone.
  pub after_logged :
      (db : Database) (r : Result A × Database) (f : A → Exec Database B)
      → OnlyLogged db r.1
      → ((log : List AuditEntry) → P (record db { audit_log = log }))
      → ((a : A) (log : List AuditEntry) → r.0 ≡ ok a → P (f a (record db { audit_log = log })).1)
      → P (continue r f).1
  after_logged db (err x, s) f (log, e) kept next = subst P (sym e) (kept log)
  after_logged db (ok a, s) f (log, e) kept next =
      subst (λ (t : Database). P (f a t).1) (sym e) (next a log refl)

  pub after_or_raise :
      (found : Option A) (x : Exception) (db : Database) (f : A → Exec Database B)
      → P db
      → ((a : A) → found ≡ some a → P (f a db).1)
      → P (continue (or_raise found x db) f).1
  after_or_raise none x db f kept next = kept
  after_or_raise (some a) x db f kept next = next a refl

module _ (P : Database → Type 0) {B : Type 0} where
  pub after_raise_if :
      (b : Bool) (x : Exception) (db : Database) (f : Unit {0} → Exec Database B)
      → P db
      → (b ≡ false → P (f tt db).1)
      → P (continue (raise_if b x db) f).1
  after_raise_if true x db f kept next = kept
  after_raise_if false x db f kept next = next refl
