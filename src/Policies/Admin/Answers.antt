-- ===== src/Policies/Admin/Answers.antt =====
-- What a handler that answers without an exception has gone through, one step at a time.
use balance_sheet_analysis.Prelude.{Bool, true, false, ◌≡◌, refl, Option, none, some, List}
use mathlib.Core.Path.{subst}
use balance_sheet_analysis.Exec.{Result, ok, err, Exec, raise_if, or_raise, continue, Exception}
use balance_sheet_analysis.Tables.{Database, AuditEntry}
use balance_sheet_analysis.Policies.Service.Laws.{OnlyLogged}

module _ {A B : Type 0} {G : Type 0} (b : B) where
  pub ok_logged :
      (db : Database) (r : Result A × Database) (f : A → Exec Database B)
      → OnlyLogged db r.1
      → (continue r f).0 ≡ ok b
      → ((a : A) (log : List AuditEntry)
          → r.0 ≡ ok a
          → (f a (record db { audit_log = log })).0 ≡ ok b
          → G)
      → G
  ok_logged db (err x, s) f (log, e) h next = absurd (cc)
  ok_logged db (ok a, s) f (log, e) h next =
      next a log refl (subst (λ (t : Database). (f a t).0 ≡ ok b) e h)

  pub ok_or_raise :
      (found : Option A) (x : Exception) (db : Database) (f : A → Exec Database B)
      → (continue (or_raise found x db) f).0 ≡ ok b
      → ((a : A) → found ≡ some a → (f a db).0 ≡ ok b → G)
      → G
  ok_or_raise none x db f h next = absurd (cc)
  ok_or_raise (some a) x db f h next = next a refl h

module _ {B : Type 0} {G : Type 0} (b : B) where
  pub ok_raise_if :
      (t : Bool) (x : Exception) (db : Database) (f : Unit {0} → Exec Database B)
      → (continue (raise_if t x db) f).0 ≡ ok b
      → (t ≡ false → (f tt db).0 ≡ ok b → G)
      → G
  ok_raise_if true x db f h next = absurd (cc)
  ok_raise_if false x db f h next = next refl h
