-- ===== src/Exec.antt =====
-- Python functions that read and write a state and may raise. What was written before a raise
-- stays written, so the state comes back beside the exception too.
mod Errors
pub mod Pure
pub use Errors.*
pub use Pure.{Result, ok, err}
use balance_sheet_analysis.Prelude.{
  ◌≡◌, refl, if◌then◌else◌, ap, Bool, true, false, Option, none, some,
}

abbrev pub Exec {ℓ} : Type ℓ → Type ℓ → Type ℓ
Exec S A = S → Result A × S

module _ {ℓ} {S A : Type ℓ} where
  abbrev pub pure : A → Exec S A
  pure a s = (ok a, s)

  abbrev pub raise : Exception → Exec S A
  raise e s = (err e, s)

  -- A pure function that may raise.
  abbrev pub lift : Result A → Exec S A
  lift r s = (r, s)

  abbrev pub gets : (S → A) → Exec S A
  gets f s = (ok (f s), s)

  abbrev pub or_raise : Option A → Exception → Exec S A
  or_raise none e = raise e
  or_raise (some a) e = pure a

-- An exception passes over the rest.
abbrev pub continue {ℓ} : {S A B : Type ℓ} → Result A × S → (A → Exec S B) → Result B × S
continue (ok a, s) f = f a s
continue (err e, s) f = (err e, s)

infixl 5 ◌>>=◌ ◌>>◌
abbrev pub ◌>>=◌ {ℓ} : {S A B : Type ℓ} → Exec S A → (A → Exec S B) → Exec S B
◌>>=◌ m f s = continue (m s) f

abbrev pub ◌>>◌ {ℓ} : {S A B : Type ℓ} → Exec S A → Exec S B → Exec S B
m >> k = m >>= λ _. k

abbrev pub raise_if : {S : Type 0} → Bool → Exception → Exec S (Unit {0})
raise_if true e s = (err e, s)
raise_if false e s = (ok tt, s)

abbrev pub modify : {S : Type 0} → (S → S) → Exec S (Unit {0})
modify f s = (ok tt, f s)

-- A chain whose first step is known.
module _ {S A B : Type 0} (m : Exec S A) (s : S) {t : S} (f : A → Exec S B) where
  pub bind-ok : {a : A} → m s ≡ (ok a, t) → (m >>= f) s ≡ f a t
  bind-ok e = ap (λ (r : Result A × S). continue r f) e

  pub bind-err : {e : Exception} → m s ≡ (err e, t) → (m >>= f) s ≡ (err e, t)
  bind-err e = ap (λ (r : Result A × S). continue r f) e

pub if-apply :
    {S A : Type 0} (b : Bool) (m n : Exec S A) (s : S)
    → (if b then m else n) s ≡ (if b then m s else n s)
if-apply true m n s = refl
if-apply false m n s = refl
