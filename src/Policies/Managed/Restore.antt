-- ===== src/Policies/Managed/Restore.antt =====
-- Rolling a policy back gives it the definition that the history holds.
use balance_sheet_analysis.Prelude.{
  ◌↔◌, ◌⊎◌, false, sym, if◌then◌else◌, ℕ, String, true, ◌≡◌, refl, ap, ◌∙◌, inl, inr, Bool-cases,
  Option, some, List, [], ◌∷◌, ◌++◌, Elem, arith,
}
use mathlib.Core.Path.{subst}
use balance_sheet_analysis.Policies.Store.Rows.Laws.{Elem-replace_policy, Elem-replace_policy_of}
use balance_sheet_analysis.Prelude.Equality.{◌==◌, nat_eq, string_eq}
use balance_sheet_analysis.Exec.{ok}
use balance_sheet_analysis.Tables.{
  Database, Policy, PolicyDefinition, PolicyHistory, policy_rolled_back,
}
use balance_sheet_analysis.Policies.Store.Rows.{
  replace_policy, definition_snapshot, name_free, set_field, set_fields,
}
use balance_sheet_analysis.Policies.Store.History.{history_row}
use balance_sheet_analysis.Policies.Store.Mutations.{update, updated_entry}
use balance_sheet_analysis.Policies.Store.Mutations.Laws.{update-free}
use balance_sheet_analysis.Policies.Admin.History.{changes_of}
use balance_sheet_analysis.Policies.Managed.{Managed}

-- The row with a definition in place of its own.
abbrev pub restored : Policy → PolicyDefinition → Policy
restored policy d = record policy {
  name = d.name;
  description = d.description;
  actions = some d.actions;
  resource_type = d.resource_type;
  conditions = d.conditions;
  is_active = d.is_active;
}

free_name :
    (id : ℕ) (name : String) (ps : List Policy)
    → ((p : Policy) → Elem p ps → p.name ≡ name → p.id ≡ id)
    → name_free id name ps ≡ true
free_name id name [] h = refl
free_name id name (p ∷ ps) h =
    let rest = free_name id name ps (λ q e. h q (inr e)) in
    elim (Bool-cases (p.name == name)) [
      | inl t ↦
          let i =
            (nat_eq.same_iff p.id id).1 (h p (inl refl) ((string_eq.same_iff p.name name).0 t)) in
          ground arith
      | inr f ↦ ground arith
    ]

-- The rows after the row of `policy` is replaced by one of its id.
replaced :
    (new policy q : Policy) (ps : List Policy)
    → new.id ≡ policy.id
    → Elem policy ps
    → Elem q (replace_policy new ps) ↔ ((q ≡ new) ⊎ (Elem q ps × ((q.id == policy.id) ≡ false)))
replaced new policy q ps same there = (
  λ e. elim (Elem-replace_policy new q ps e) [
    | inl is ↦ inl is
    | inr (old, apart) ↦ inr (old, subst (λ id. (q.id == id) ≡ false) same apart)
  ],
  λ h. elim h [
    | inl is ↦
        let own = (nat_eq.same_iff policy.id new.id).1 (sym same) in
        subst (λ (r : Policy). Elem r (replace_policy new ps)) (sym is)
          (subst (λ (r : Policy). Elem r (replace_policy new ps))
            (ap (λ b. if b then new else policy) own) (Elem-replace_policy_of new policy ps there))
    | inr (old, apart) ↦
        subst (λ (r : Policy). Elem r (replace_policy new ps))
          (ap (λ b. if b then new else q) (subst (λ id. (q.id == id) ≡ false) (sym same) apart))
          (Elem-replace_policy_of new q ps old)
  ],
)

-- In a managed state, giving a policy a definition of its name, as a rollback does, does not fail.
-- The table of policies holds afterwards the row with exactly that definition and the policy's id,
-- and of the others the rows that it held; and the history has one entry more, from the old
-- definition to the restored one.
pub update-restores :
    (db : Database) (policy : Policy) (d : PolicyDefinition) (caller : String)
    (reason : Option String) (q : Policy)
    → Managed db
    → Elem policy db.policies
    → d.name ≡ policy.name
    → (new : Policy) × (entry : PolicyHistory) × ((update policy
          (changes_of (some d))
          caller
          reason
          policy_rolled_back
          db).0
        ≡ ok new)
      × (definition_snapshot new ≡ d)
      × (new.id ≡ policy.id)
      × (Elem q (update policy (changes_of (some d)) caller reason policy_rolled_back db).1.policies
          ↔ ((q ≡ new) ⊎ (Elem q db.policies × ((q.id == policy.id) ≡ false))))
      × ((update policy (changes_of (some d)) caller reason policy_rolled_back db).1.policy_history
          ≡ db.policy_history ++ entry ∷ [])
      × (entry.previous_definition ≡ some (definition_snapshot policy))
      × (entry.new_definition ≡ some d)
unfolding definition_snapshot changes_of set_fields set_field
update-restores db policy d caller reason q m there same =
    let new = restored policy d in
    let changes = changes_of (some d) in
    let free =
      free_name policy.id d.name db.policies
        (λ p e k. ap (λ (q : Policy). q.id) (m.names p policy e there (k ∙ same))) in
    let e = update-free policy changes caller reason policy_rolled_back db new refl free in
    (
      new,
      history_row (updated_entry policy new changes caller reason policy_rolled_back) db.history_seq
          db.now,
      ap (λ r. r.0) e,
      refl,
      refl,
      subst
          (λ (ps : List Policy).
            Elem q ps ↔ ((q ≡ new) ⊎ (Elem q db.policies × ((q.id == policy.id) ≡ false))))
          (sym (ap (λ r. r.1.policies) e)) (replaced new policy q db.policies refl there),
      ap (λ r. r.1.policy_history) e,
      refl,
      refl,
    )
