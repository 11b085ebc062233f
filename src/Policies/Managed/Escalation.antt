-- ===== src/Policies/Managed/Escalation.antt =====
-- Nobody hands out a sensitive action that they do not hold, by creating or assigning a policy.
use balance_sheet_analysis.Prelude.{
  String, Bool, true, false, not, ◌&&◌, ◌||◌, ◌≡◌, refl, sym, ap, ◌∙◌, inl, inr, Bool-cases, Option,
  none, some, List, [], ◌∷◌, any, arith, is_some, or_iff, and_iff, Option-cases, if◌then◌else◌,
  some-inj,
}
use mathlib.Core.Path.{subst}
use balance_sheet_analysis.Prelude.Equality.{◌==◌, contains, string_eq}
use balance_sheet_analysis.Json.{Fields}
use balance_sheet_analysis.Exec.{Result, ok, err, Exec, continue, Exception}
use balance_sheet_analysis.Tables.{Database, Policy, AuditEntry}
use balance_sheet_analysis.Policies.Conditions.Library.{Environment}
use balance_sheet_analysis.Policies.Engine.{concerns}
use balance_sheet_analysis.Policies.Engine.Laws.{grants}
use balance_sheet_analysis.Policies.Names.{is_sensitive}
use balance_sheet_analysis.Policies.Repository.{active_policies, is_assigned}
use balance_sheet_analysis.Policies.Service.{require}
use balance_sheet_analysis.Policies.Service.Laws.{require-OnlyLogged}
use balance_sheet_analysis.Policies.Grant.{cannot_grant, assert_authorized_to_grant}
use balance_sheet_analysis.Policies.Grant.Laws.{
  holds, first_unheld, verdict, assert_each-verdict, assert_authorized_to_grant-OnlyLogged,
}
use balance_sheet_analysis.Policies.Store.Rows.{find_policy}
use balance_sheet_analysis.Policies.Store.Mutations.{PolicyCreate, get_by_name}
use balance_sheet_analysis.Policies.Admin.{
  policies_dependency, check_conditions, find_policy_or_404, get_or_404, find_user,
  find_user_or_404, get_by_email,
}
use balance_sheet_analysis.Policies.Admin.Crud.{create_policy, name_taken}
use balance_sheet_analysis.Policies.Admin.Assignment.{assign_policy_to_user}
use balance_sheet_analysis.Policies.Admin.Answers.{ok_logged, ok_or_raise, ok_raise_if}
use balance_sheet_analysis.Policies.Managed.{Managed}
use balance_sheet_analysis.Policies.Managed.Decides.{active_policies-accepted}

any_mono :
    {A : Type 0} (p q : A → Bool) (xs : List A)
    → ((a : A) → p a ≡ true → q a ≡ true)
    → any p xs ≡ true
    → any q xs ≡ true
any_mono p q [] h t = t
any_mono p q (x ∷ xs) h t = elim (Bool-cases (p x)) [
  | inl k ↦ let l = h x k in ground arith
  | inr k ↦ let l = any_mono p q xs h (ground arith) in ground arith
]

widen : (x y b c : Bool) → ((x || x) && b && c) ≡ true → ((y || x) && b && c) ≡ true
widen x y b c h = ground arith

passed :
    (b : Bool) (r : Result (Unit {0})) (x : Exception)
    → (if b then err x else r) ≡ ok tt
    → (b ≡ false) × (r ≡ ok tt)
passed true r x h = absurd (cc)
passed false r x h = (refl, h)

ok_check :
    (env : Environment) {B G : Type 0} (b : B) (conditions : Option Fields) (db : Database)
    (f : Unit {0} → Exec Database B)
    → (continue (check_conditions env conditions db) f).0 ≡ ok b
    → ((f tt db).0 ≡ ok b → G)
    → G
unfolding check_conditions
ok_check env b conditions db f h next = ok_raise_if b _ _ db f h (λ _. next)

concern_parts :
    (action resource_type : String) (p : Policy)
    → concerns action resource_type p ≡ true
    → (actions : List String) × (p.actions ≡ some actions)
      × (contains action actions ≡ true)
      × ((p.resource_type == resource_type || p.resource_type == "*") ≡ true)
unfolding concerns
concern_parts action resource_type p h =
    let (t, c) = (and_iff (p.resource_type == resource_type || p.resource_type == "*") _).0 h in
    elim (Option-cases p.actions) [
      | inl none_there ↦ absurd (ground arith)
      | inr (actions, e) ↦ (actions, e, ground arith, t)
    ]

module _ (env : Environment) (caller : String) where
  held_of_verdict :
      (resource_type : String) (db : Database) (actions : List String) (action : String)
      → verdict env caller resource_type (first_unheld env caller resource_type db actions) ≡ ok tt
      → contains action actions ≡ true
      → is_sensitive action ≡ true
      → holds env caller resource_type db action ≡ true
  unfolding first_unheld
  held_of_verdict resource_type db [] action h c s = absurd (cc)
  held_of_verdict resource_type db (x ∷ actions) action h c s =
      let (fine, rest) =
        passed (is_sensitive x && not (holds env caller resource_type db x))
          (verdict env caller resource_type (first_unheld env caller resource_type db actions))
          (cannot_grant x)
          (sym (
              verdict_if (is_sensitive x && not (holds env caller resource_type db x)) x
                (first_unheld env caller resource_type db actions))
            ∙ h) in
      elim (Bool-cases (action == x)) [
        | inl t ↦
            let same = (string_eq.same_iff action x).0 t in
            subst (λ a. holds env caller resource_type db a ≡ true) (sym same)
              (both (is_sensitive x) (holds env caller resource_type db x) fine
                (ap is_sensitive (sym same) ∙ s))
        | inr f ↦ held_of_verdict resource_type db actions action rest (ground arith) s
      ]
    where
      verdict_if :
          (b : Bool) (a : String) (o : Option String)
          → verdict env caller resource_type (if b then some a else o)
            ≡ (if b then err (cannot_grant a) else verdict env caller resource_type o)
      verdict_if true a o = refl
      verdict_if false a o = refl

      both : (a b : Bool) → (a && not b) ≡ false → a ≡ true → b ≡ true
      both a b h k = ground arith

  -- A grant on every type of resource is one on each.
  any_type :
      (db : Database) (action resource_type : String)
      → holds env caller "*" db action ≡ true
      → holds env caller resource_type db action ≡ true
  unfolding grants concerns
  any_type db action resource_type h =
      any_mono (grants env action "*" caller none none)
        (grants env action resource_type caller none none) (active_policies db caller)
        (λ q t. widen (q.resource_type == "*") (q.resource_type == resource_type) _ _ t) h

  -- What the guard lets through, the caller holds on every type of resource that is concerned.
  held_of_guard :
      (granted resource_type : String) (db : Database) (actions : List String) (action : String)
      → Managed db
      → (assert_authorized_to_grant env caller granted (some actions) db).0 ≡ ok tt
      → contains action actions ≡ true
      → is_sensitive action ≡ true
      → (granted == resource_type || granted == "*") ≡ true
      → holds env caller resource_type db action ≡ true
  unfolding assert_authorized_to_grant
  held_of_guard granted resource_type db actions action m h c s t =
      let held =
        held_of_verdict granted db actions action
          (sym (
              assert_each-verdict env caller granted db actions
                (active_policies-accepted db caller m))
            ∙ h)
          c s in
      elim ((or_iff (granted == resource_type) (granted == "*")).0 t) [
        | inl e ↦
            subst (λ r. holds env caller r db action ≡ true)
              ((string_eq.same_iff granted resource_type).0 e) held
        | inr e ↦ any_type db action resource_type (
            subst (λ r. holds env caller r db action ≡ true) ((string_eq.same_iff granted "*").0 e)
              held)
      ]

  abbrev guard : String → Option (List String) → Exec Database (Unit {0})
  guard granted actions = assert_authorized_to_grant env caller granted actions

  module _ (context : Fields) (db : Database) (m : Managed db) (action resource_type : String)
      (sensitive : is_sensitive action ≡ true) where
    -- In a managed state, where creating a policy succeeds, each of this application's sensitive
    -- actions that the policy grants on some type of resource is one that the caller already holds
    -- on that type of resource, with no resource and no context given.
    pub create_policy-holds :
        (payload : PolicyCreate) (created : Policy)
        → (create_policy env caller context payload db).0 ≡ ok created
        → contains action payload.actions ≡ true
        → (payload.resource_type == resource_type || payload.resource_type == "*") ≡ true
        → holds env caller resource_type db action ≡ true
    unfolding create_policy policies_dependency active_policies is_assigned
    create_policy-holds payload created h c t =
        ok_logged created db
          (require env caller "policies:create" "policies" none (some context) db) _
          (require-OnlyLogged env caller "policies:create" "policies" none (some context) db) h
          (λ _ log _ h.
            let s : Database = record db { audit_log = log } in
            ok_check env created payload.conditions s _ h (λ h.
              ok_raise_if created (is_some (find_policy payload.name db.policies))
                (name_taken payload.name) s _ h
                (λ _ h.
                  ok_logged created s (guard payload.resource_type (some payload.actions) s) _
                    (assert_authorized_to_grant-OnlyLogged env caller payload.resource_type s
                      (some payload.actions))
                    h
                    (λ _ _ e _.
                      held_of_guard payload.resource_type resource_type s payload.actions action m e
                        c sensitive t))))

    -- In a managed state, where assigning a policy to a user succeeds, each of this application's
    -- sensitive actions that the policy grants on some type of resource is one that the caller
    -- already holds on that type of resource, with no resource and no context given.
    pub assign_policy_to_user-holds :
        (user_email policy_name answer : String) (p : Policy)
        → (assign_policy_to_user env caller context user_email policy_name db).0 ≡ ok answer
        → find_policy policy_name db.policies ≡ some p
        → concerns action resource_type p ≡ true
        → holds env caller resource_type db action ≡ true
    unfolding assign_policy_to_user policies_dependency find_user_or_404 find_policy_or_404
        get_or_404 get_by_email get_by_name active_policies is_assigned concerns
    assign_policy_to_user-holds user_email policy_name answer p h there c =
        ok_logged answer db (require env caller "policies:assign" "policies" none (some context) db)
          _ (require-OnlyLogged env caller "policies:assign" "policies" none (some context) db) h
          (λ _ log _ h.
            let s : Database = record db { audit_log = log } in
            ok_or_raise answer (find_user (env.lower (env.strip user_email)) db.users) _ s _ h
              (λ user _ h.
                ok_or_raise answer (find_policy policy_name db.policies) _ s _ h (λ q found h.
                  ok_logged answer s (guard q.resource_type q.actions s) _
                    (assert_authorized_to_grant-OnlyLogged env caller q.resource_type s q.actions) h
                    (λ _ _ e _. assigned log p c (
                      subst (λ (q : Policy). (guard q.resource_type q.actions s).0 ≡ ok tt)
                        (some-inj q p (sym found ∙ there)) e)))))
      where
        assigned :
            (log : List AuditEntry) (p : Policy)
            → concerns action resource_type p ≡ true
            → (guard p.resource_type p.actions (record db { audit_log = log })).0 ≡ ok tt
            → holds env caller resource_type db action ≡ true
        assigned log p c e =
            let s : Database = record db { audit_log = log } in
            let (actions, there, listed, t) = concern_parts action resource_type p c in
            held_of_guard p.resource_type resource_type s actions action m
              (subst (λ o. (guard p.resource_type o s).0 ≡ ok tt) there e) listed sensitive t
