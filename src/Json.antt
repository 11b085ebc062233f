-- ===== src/Json.antt =====
-- The values of a policy's `conditions` block (a JSONB column) and of the dicts that the
-- conditions are tested against, with Python's truth value, equality and hashing of them.
-- Numbers are integers: a JSON number with a fraction is not modelled.
use text.Mathlib.Text.{◌==◌ as str_eq, find?}
use balance_sheet_analysis.Prelude.{
  ℕ, suc, String, Bool, true, false, not, ◌&&◌, ◌||◌, Option, none, some, is_some, nat_beq,
  if◌then◌else◌,
}
use balance_sheet_analysis.Exec.{Exception, Result, ok, err, type_error}
use balance_sheet_analysis.Prelude.Int.{ℤ, pos, int_beq}

mutual
  pub data Json : Type 0 where
    null : Json
    bool : Bool → Json
    int : ℤ → Json
    str : String → Json
    arr : Items → Json
    obj : Fields → Json

  pub data Items : Type 0 where
    nil : Items
    item : Json → Items → Items

  -- A dict's items, in insertion order.
  pub data Fields : Type 0 where
    end : Fields
    field : String → Json → Fields → Fields

-- `d.get(k)` of a dict; `none` where the key is absent
unfoldable pub lookup : String → Fields → Option Json
lookup k end = none
lookup k (field j v fs) = if str_eq j k then some v else lookup k fs

-- `d.get(k)` as Python returns it, with None for an absent key
unfoldable pub get : String → Fields → Json
get k fs = elim (lookup k fs) [ none ↦ null | some v ↦ v ]

unfoldable pub size : Fields → ℕ
size end = 0
size (field _ _ fs) = suc (size fs)

-- bool(v)
unfoldable pub truthy : Json → Bool
truthy null = false
truthy (bool b) = b
truthy (int z) = not (int_beq z (pos 0))
truthy (str s) = not (str_eq s "")
truthy (arr nil) = false
truthy (arr (item _ _)) = true
truthy (obj end) = false
truthy (obj (field _ _ _)) = true

-- Python's booleans are integers.
abbrev pub of_bool : Bool → ℤ
of_bool true = pos 1
of_bool false = pos 0

-- v == w. Two dicts are equal if they have as many keys and each key of one has an equal value
-- in the other.
unfoldable mutual
  pub json_eq : Json → Json → Bool
  json_eq null null = true
  json_eq (bool a) (bool b) = int_beq (of_bool a) (of_bool b)
  json_eq (bool a) (int z) = int_beq (of_bool a) z
  json_eq (int y) (bool b) = int_beq y (of_bool b)
  json_eq (int y) (int z) = int_beq y z
  json_eq (str s) (str t) = str_eq s t
  json_eq (arr xs) (arr ys) = items_eq xs ys
  json_eq (obj fs) (obj gs) = nat_beq (size fs) (size gs) && fields_sub fs gs
  json_eq _ _ = false

  pub items_eq : Items → Items → Bool
  items_eq nil nil = true
  items_eq (item x xs) (item y ys) = json_eq x y && items_eq xs ys
  items_eq _ _ = false

  pub fields_sub : Fields → Fields → Bool
  fields_sub end gs = true
  fields_sub (field k v fs) gs =
      elim (lookup k gs) [ none ↦ false | some w ↦ json_eq v w ] && fields_sub fs gs

-- hash(v) raises TypeError for a list or a dict.
unfoldable pub hashable : Json → Bool
hashable (arr _) = false
hashable (obj _) = false
hashable _ = true

unfoldable pub items_contain : String → Items → Bool
items_contain k nil = false
items_contain k (item x xs) = json_eq x (str k) || items_contain k xs

-- `k in s` on texts
unfoldable pub substring : String → String → Bool
substring k s = is_some (find? s k)

-- `k in v`, and the access `v[k]` or `v.get(k)` where it is: `e` is what the access raises where
-- `v` is no dict.
unfoldable pub attribute : Exception → String → Json → Result (Option Json)
attribute e k (obj fs) = ok (lookup k fs)
attribute e k (arr xs) = if items_contain k xs then err e else ok none
attribute e k (str s) = if substring k s then err e else ok none
attribute e k _ = err type_error

-- `v.items()`
unfoldable pub items_of : Exception → Json → Result Fields
items_of e (obj fs) = ok fs
items_of e _ = err e
