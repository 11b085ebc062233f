-- ===== src/Policies/Store/Rows/Laws.antt =====
-- Finding, replacing and removing rows of `policies`, by the rows that are in the table.
use balance_sheet_analysis.Prelude.{
  ℕ, String, true, false, ◌≡◌, ap, ◌∙◌, ◌⊎◌, inl, inr, Bool-cases, none, some, List, [], ◌∷◌, Elem,
  arith, if◌then◌else◌,
}
use balance_sheet_analysis.Prelude.Equality.{◌==◌, nat_eq, string_eq}
use balance_sheet_analysis.Tables.{Policy}
use balance_sheet_analysis.Policies.Store.Rows.{
  find_policy, replace_policy, remove_policy, name_free,
}

pub find_policy-Elem :
    (name : String) (ps : List Policy) (p : Policy)
    → find_policy name ps ≡ some p
    → Elem p ps × (p.name ≡ name)
find_policy-Elem name [] p h = absurd (cc)
find_policy-Elem name (q ∷ ps) p h = elim (Bool-cases (q.name == name)) [
  | inl e ↦ let k = (string_eq.same_iff q.name name).0 e in ground arith
  | inr e ↦ let (m, k) = find_policy-Elem name ps p (ground arith) in (inr m, k)
]

pub find_policy-missing :
    (name : String) (ps : List Policy) (p : Policy)
    → find_policy name ps ≡ none
    → Elem p ps
    → (p.name == name) ≡ false
find_policy-missing name [] p h m = absurd m
find_policy-missing name (q ∷ ps) p h m = elim (Bool-cases (q.name == name)) [
  | inl e ↦ absurd (ground arith)
  | inr e ↦ elim m [
    | inl f ↦ ap (λ (r : Policy). r.name == name) f ∙ e
    | inr m ↦ find_policy-missing name ps p (ground arith) m
  ]
]

pub Elem-replace_policy :
    (new q : Policy) (ps : List Policy)
    → Elem q (replace_policy new ps)
    → (q ≡ new) ⊎ (Elem q ps × ((q.id == new.id) ≡ false))
Elem-replace_policy new q [] m = absurd m
Elem-replace_policy new q (p ∷ ps) m = elim (Bool-cases (p.id == new.id)) [
  | inl e ↦ ground (arith, Elem-replace_policy new q ps)
  | inr e ↦ ground (arith, Elem-replace_policy new q ps)
]

pub Elem-replace_policy_of :
    (new q : Policy) (ps : List Policy)
    → Elem q ps
    → Elem (if q.id == new.id then new else q) (replace_policy new ps)
Elem-replace_policy_of new q [] m = absurd m
Elem-replace_policy_of new q (p ∷ ps) m = ground (arith, Elem-replace_policy_of new q ps)

pub Elem-remove_policy :
    (id : ℕ) (q : Policy) (ps : List Policy)
    → Elem q (remove_policy id ps)
    → Elem q ps × ((q.id == id) ≡ false)
Elem-remove_policy id q [] m = absurd m
Elem-remove_policy id q (p ∷ ps) m = ground (arith, Elem-remove_policy id q ps)

pub Elem-remove_policy_of :
    (id : ℕ) (q : Policy) (ps : List Policy)
    → Elem q ps
    → (q.id == id) ≡ false
    → Elem q (remove_policy id ps)
Elem-remove_policy_of id q [] m h = absurd m
Elem-remove_policy_of id q (p ∷ ps) m h = ground (arith, Elem-remove_policy_of id q ps)

pub name_free-Elem :
    (id : ℕ) (name : String) (ps : List Policy) (p : Policy)
    → name_free id name ps ≡ true
    → Elem p ps
    → (p.name == name) ≡ true
    → p.id ≡ id
name_free-Elem id name [] p h m e = absurd m
name_free-Elem id name (q ∷ ps) p h m e = ground (arith, name_free-Elem id name ps p)
