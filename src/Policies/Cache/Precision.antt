-- ===== src/Policies/Cache/Precision.antt =====
-- The assignments and the cache: only the entry of the user that they are about can become stale.
use balance_sheet_analysis.Prelude.{
  ℕ, String, Bool, true, false, not, ◌&&◌, ◌||◌, ◌≡◌, refl, sym, ap, inl, inr, Bool-cases, Option,
  none, some, List, [], ◌∷◌, ◌++◌, any, select, arith, and_iff,
}
use mathlib.Core.Path.{subst}
use balance_sheet_analysis.Prelude.Equality.{◌==◌, nat_eq, string_eq}
use balance_sheet_analysis.Tables.{Database, Policy, User, UserPolicy}
use balance_sheet_analysis.Policies.Repository.{active_policies, is_assigned}
use balance_sheet_analysis.Policies.Store.Assignments.{
  links, find_assignment, insert_missing, assign_policy_to_user, delete_found,
  remove_policy_from_user,
}

any-snoc :
    {A : Type 0} (p : A → Bool) (xs : List A) (y : A)
    → p y ≡ false
    → any p (xs ++ y ∷ []) ≡ any p xs
any-snoc p [] y h = ground arith
any-snoc p (x ∷ xs) y h = let rest = any-snoc p xs y h in ap (λ b. p x || b) rest

any-select_kept :
    {A : Type 0} (p keep : A → Bool) (xs : List A)
    → ((a : A) → keep a ≡ false → p a ≡ false)
    → any p (select keep xs) ≡ any p xs
any-select_kept p keep [] h = refl
any-select_kept p keep (x ∷ xs) h =
    let rest = any-select_kept p keep xs h in
    elim (Bool-cases (keep x)) [ inl t ↦ ground arith | inr f ↦ let gone = h x f in ground arith ]

select-same :
    {A : Type 0} (p q : A → Bool) (xs : List A) → ((a : A) → p a ≡ q a) → select p xs ≡ select q xs
select-same p q [] h = refl
select-same p q (x ∷ xs) h = let rest = select-same p q xs h in let e = h x in ground arith

module _ (user_id policy_id : ℕ) (email : String) (db : Database)
    (other : any (λ (u : User). u.id == user_id && u.email == email) db.users ≡ false) where
  -- The link of an assignment to this user gives nothing to the e-mail.
  abbrev gives : Policy → UserPolicy → Bool
  gives p l = l.policy_id == p.id && any (λ u. u.id == l.user_id && u.email == email) db.users

  gives-nothing : (p : Policy) (l : UserPolicy) → l.user_id ≡ user_id → gives p l ≡ false
  gives-nothing p l e =
      let none_there =
        subst (λ id. any (λ (u : User). u.id == id && u.email == email) db.users ≡ false) (sym e)
          other in
      ground arith

  abbrev in_force : List UserPolicy → List Policy
  in_force ls = select (λ p. any (gives p) ls && p.is_active) db.policies

  after_assign :
      (assigned_by : Option String) (found : Option UserPolicy)
      → active_policies (insert_missing user_id policy_id assigned_by found db).1 email
        ≡ in_force db.user_policies
  unfolding active_policies is_assigned insert_missing
  after_assign assigned_by (some row) = refl
  after_assign assigned_by none = select-same _ _ db.policies λ p.
      ap (λ b. b && p.is_active)
        (any-snoc (gives p) db.user_policies new (gives-nothing p new refl))
    where
      new : UserPolicy
      new = record { user_id = user_id; policy_id = policy_id; assigned_by = assigned_by }

  after_remove :
      (found : Option UserPolicy)
      → active_policies (delete_found user_id policy_id found db).1 email
        ≡ in_force db.user_policies
  unfolding active_policies is_assigned delete_found
  after_remove none = refl
  after_remove (some row) = select-same _ _ db.policies λ p.
      ap (λ b. b && p.is_active)
        (any-select_kept (gives p) (λ l. not (links user_id policy_id l)) db.user_policies
          λ l gone.
            let linked : links user_id policy_id l ≡ true = ground arith in
            let mine = ((and_iff (l.user_id == user_id) (l.policy_id == policy_id)).0 linked).0 in
            gives-nothing p l ((nat_eq.same_iff l.user_id user_id).0 mine))

  -- Where no account with an id has an e-mail, assigning a policy to that id, and removing one from
  -- it, leave the policies in force of the e-mail as they are.
  pub assignments-active_policies :
      (assigned_by : Option String)
      → (active_policies (assign_policy_to_user user_id policy_id assigned_by db).1 email
          ≡ active_policies db email)
        × (active_policies (remove_policy_from_user user_id policy_id db).1 email
            ≡ active_policies db email)
  unfolding active_policies is_assigned assign_policy_to_user remove_policy_from_user
  assignments-active_policies assigned_by = (
    after_assign assigned_by (find_assignment user_id policy_id db.user_policies),
    after_remove (find_assignment user_id policy_id db.user_policies),
  )
