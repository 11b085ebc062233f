-- ===== src/Policies/Grant/Laws.antt =====
-- What the guard against privilege escalation answers.
use balance_sheet_analysis.Prelude.{
  String, Bool, true, false, not, ◌&&◌, ◌≡◌, refl, sym, ap, ◌∙◌, inl, inr, Bool-cases, Option, none,
  some, List, [], ◌∷◌, if◌then◌else◌, any,
}
use mathlib.Core.Path.{subst}
use balance_sheet_analysis.Exec.{Result, ok, err, Exec, raise_if, continue, if-apply, ◌>>=◌, ◌>>◌}
use balance_sheet_analysis.Tables.{Database}
use balance_sheet_analysis.Policies.Conditions.Library.{Environment}
use balance_sheet_analysis.Policies.Engine.Laws.{grants, evaluate_detailed_lem}
use balance_sheet_analysis.Policies.Engine.Total.{AllAccepted, evaluate_detailed-total}
use balance_sheet_analysis.Policies.Conditions.Validator.Laws.{no_signals}
use balance_sheet_analysis.Policies.Names.{is_sensitive}
use balance_sheet_analysis.Policies.Repository.{active_policies, is_assigned}
use balance_sheet_analysis.Policies.Service.{authorize}
use balance_sheet_analysis.Policies.Service.Laws.{
  OnlyLogged, logged, authorize-decided, authorize-OnlyLogged, continue-OnlyLogged, raise_if-state,
}
use balance_sheet_analysis.Policies.Grant.{assert_each, assert_authorized_to_grant, cannot_grant}

module _ (env : Environment) (caller resource_type : String) where
  -- Some policy in force grants the action to the caller, with no resource and no context.
  abbrev pub holds : Database → String → Bool
  holds db action =
      any (grants env action resource_type caller none none) (active_policies db caller)

  -- The first sensitive action that the caller does not hold.
  unfoldable pub first_unheld : Database → List String → Option String
  first_unheld db [] = none
  first_unheld db (action ∷ actions) =
      let rest = first_unheld db actions in
      if is_sensitive action && not (holds db action) then some action else rest

  abbrev pub verdict : Option String → Result (Unit {0})
  verdict none = ok tt
  verdict (some action) = err (cannot_grant action)

  abbrev after_authorize :
      String → List String → Result Bool × Database → Result (Unit {0}) × Database
  after_authorize action actions r = continue r (λ allowed.
      raise_if (not allowed) (cannot_grant action) >> assert_each env caller resource_type actions)

  by_round :
      (sensitive held : Bool) (db next : Database) (action : String) (actions : List String)
      → (assert_each env caller resource_type actions db).0 ≡ verdict (first_unheld db actions)
      → (assert_each env caller resource_type actions next).0 ≡ verdict (first_unheld db actions)
      → (if sensitive
          then after_authorize action actions (ok held, next)
          else assert_each env caller resource_type actions db).0
        ≡ verdict (if sensitive && not held then some action else first_unheld db actions)
  by_round true true db next action actions h k = k
  by_round true false db next action actions h k = refl
  by_round false held db next action actions h k = h

  -- Where the caller's policies have accepted conditions, the guard comes to an answer: it raises
  -- nothing exactly where the caller holds every sensitive action of the list, and its refusal names
  -- the first that they do not hold. What they hold is decided with no resource and no context.
  pub assert_each-verdict :
      (db : Database) (actions : List String)
      → AllAccepted (active_policies db caller)
      → (assert_each env caller resource_type actions db).0 ≡ verdict (first_unheld db actions)
  unfolding assert_each first_unheld active_policies is_assigned
  assert_each-verdict db [] a = refl
  assert_each-verdict db (action ∷ actions) a =
      let (d, e) =
        evaluate_detailed-total env action resource_type caller none none no_signals
          (active_policies db caller) a in
      let (_, _, allowed, _) =
        evaluate_detailed_lem env action resource_type caller none none (active_policies db caller)
          d e in
      let next = logged env caller action resource_type none none d db in
      ap (λ r. r.0)
        (if-apply (is_sensitive action) _ (assert_each env caller resource_type actions) db)
      ∙ ap
          (λ r.
            (if is_sensitive action
              then after_authorize action actions r
              else assert_each env caller resource_type actions db).0)
          (authorize-decided env caller action resource_type none none db d e)
      ∙ ap
          (λ b.
            (if is_sensitive action
              then after_authorize action actions (ok b, next)
              else assert_each env caller resource_type actions db).0)
          allowed
      ∙ by_round (is_sensitive action) (holds db action) db next action actions
          (assert_each-verdict db actions a) (assert_each-verdict next actions a)

  -- Whatever it answers, the guard writes to the audit log alone.
  pub assert_each-OnlyLogged :
      (db : Database) (actions : List String)
      → OnlyLogged db (assert_each env caller resource_type actions db).1
  unfolding assert_each
  assert_each-OnlyLogged db [] = (db.audit_log, refl)
  assert_each-OnlyLogged db (action ∷ actions) = elim (Bool-cases (is_sensitive action)) [
    | inl t ↦
        subst (λ b. OnlyLogged db ((if b then round else rest) db).1) (sym t)
          (continue-OnlyLogged db (authorize env caller action resource_type none none db) _
            (authorize-OnlyLogged env caller action resource_type none none db)
            (λ allowed s.
              continue-OnlyLogged s (raise_if (not allowed) (cannot_grant action) s) _
                (s.audit_log, raise_if-state (not allowed) (cannot_grant action) s)
                (λ _ t. assert_each-OnlyLogged t actions)))
    | inr f ↦
        subst (λ b. OnlyLogged db ((if b then round else rest) db).1) (sym f)
          (assert_each-OnlyLogged db actions)
  ]
    where
      rest : Exec Database (Unit {0})
      rest = assert_each env caller resource_type actions

      round : Exec Database (Unit {0})
      round = do
        allowed ← authorize env caller action resource_type none none
        raise_if (not allowed) (cannot_grant action)
        rest

  pub assert_authorized_to_grant-OnlyLogged :
      (db : Database) (actions : Option (List String))
      → OnlyLogged db (assert_authorized_to_grant env caller resource_type actions db).1
  unfolding assert_authorized_to_grant
  assert_authorized_to_grant-OnlyLogged db none = (db.audit_log, refl)
  assert_authorized_to_grant-OnlyLogged db (some actions) = assert_each-OnlyLogged db actions
