-- ===== src/BalanceSheets/Stored.antt =====
-- The columns that are stored for the cells of a row.
use balance_sheet_analysis.Prelude.{
  String, Bool, true, false, not, ◌&&◌, ◌≡◌, ◌⊎◌, refl, sym, ap, ◌∙◌, inl, inr, Option, none, some,
  List, [], ◌∷◌, map, Elem, arith, and_iff, or_iff, some-inj, Bool-cases, if◌then◌else◌,
}
use mathlib.Core.Path.{subst}
use balance_sheet_analysis.Prelude.Equality.{◌==◌, contains, string_eq}
use balance_sheet_analysis.Prelude.Int.{ℤ}
use balance_sheet_analysis.Tables.{Float, finite, nan, inf}
use balance_sheet_analysis.Llm.{column_value}
use balance_sheet_analysis.BalanceSheets.Sanitize.{
  Value, none_value, float, float64, float32, int, int64, complex, complex128, complex64,
  sanitize_dict, is_valid_value, convert_value,
}
use balance_sheet_analysis.BalanceSheets.Crud.{is_none, get_cell, raw_fields, store_columns}

-- The figure that a cell gives: none for a cell that is missing, NaN, infinite or complex.
abbrev pub figure : (ℤ → Option Float) → Value → Option Float
figure double_of (float (finite m e)) = some (finite m e)
figure double_of (float64 (finite m e)) = some (finite m e)
figure double_of (float32 x) = some x
figure double_of (int z) = double_of z
figure double_of (int64 z) = double_of z
figure double_of _ = none

module _ (double_of : ℤ → Option Float) where
  abbrev pub Columns : Type 0
  Columns = List (String × Float)

  -- What a first field adds to the columns that are stored for the others.
  abbrev Adds : String → Value → Option Columns → Columns → Type 0
  Adds key value others columns =
      (rest : Columns) × (others ≡ some rest)
      × (((figure double_of value ≡ none) × (columns ≡ rest))
          ⊎ ((x : Float) × (figure double_of value ≡ some x) × (columns ≡ (key, x) ∷ rest)))

  added :
      (key : String) (value : Value) (x : Float) (others : Option Columns) (columns : Columns)
      → figure double_of value ≡ some x
      → elim others [ none ↦ none | some rest ↦ some ((key, x) ∷ rest) ] ≡ some columns
      → Adds key value others columns
  added key value x none columns f h = absurd (cc)
  added key value x (some rest) columns f h = (rest, refl, inr (x, f, sym (some-inj _ _ h)))

  added_int :
      (key : String) (value : Value) (found : Option Float) (others : Option Columns)
      (columns : Columns)
      → figure double_of value ≡ found
      → elim others [
        | none ↦ none
        | some rest ↦ elim found [ none ↦ none | some x ↦ some ((key, x) ∷ rest) ]
      ]
        ≡ some columns
      → Adds key value others columns
  added_int key value found none columns f h = absurd (cc)
  added_int key value none (some rest) columns f h = absurd (cc)
  added_int key value (some x) (some rest) columns f h =
      (rest, refl, inr (x, f, sym (some-inj _ _ h)))

  first_field :
      (key : String) (value : Value) (fields : List (String × Value)) (columns : Columns)
      → store_columns double_of
          (sanitize_dict (if is_none value then fields else (key, value) ∷ fields))
        ≡ some columns
      → Adds key value (store_columns double_of (sanitize_dict fields)) columns
  unfolding store_columns sanitize_dict is_valid_value convert_value
  first_field key none_value fields columns h = (columns, h, inl (refl, refl))
  first_field key (float nan) fields columns h = (columns, h, inl (refl, refl))
  first_field key (float (inf b)) fields columns h = (columns, h, inl (refl, refl))
  first_field key (float (finite m e)) fields columns h =
      added key (float (finite m e)) (finite m e) _ columns refl h
  first_field key (float64 nan) fields columns h = (columns, h, inl (refl, refl))
  first_field key (float64 (inf b)) fields columns h = (columns, h, inl (refl, refl))
  first_field key (float64 (finite m e)) fields columns h =
      added key (float64 (finite m e)) (finite m e) _ columns refl h
  first_field key (float32 x) fields columns h = added key (float32 x) x _ columns refl h
  first_field key (int z) fields columns h = added_int key (int z) (double_of z) _ columns refl h
  first_field key (int64 z) fields columns h =
      added_int key (int64 z) (double_of z) _ columns refl h
  first_field key complex fields columns h = (columns, h, inl (refl, refl))
  first_field key complex128 fields columns h = (columns, h, inl (refl, refl))
  first_field key complex64 fields columns h = absurd (cc)

  apart : (j k : String) → (j == k) ≡ false → (k == j) ≡ false
  apart j k h = elim (Bool-cases (k == j)) [
    | inl t ↦
        let same = (string_eq.same_iff j k).1 (sym ((string_eq.same_iff k j).0 t)) in
        absurd (cc (same, h))
    | inr f ↦ f
  ]

  abbrev pub targets : List (String × String) → List String
  targets names = map (λ (n : String × String). n.1) names

  -- No column is named twice.
  abbrev pub distinct : List (String × String) → Bool
  distinct [] = true
  distinct (n ∷ names) = not (contains n.1 (targets names)) && distinct names

  column_here :
      (column key : String) (x : Float) (rest : Columns)
      → (key == column) ≡ true
      → column_value column ((key, x) ∷ rest) ≡ some x
  unfolding column_value
  column_here column key x rest same = ground arith

  column_there :
      (column key : String) (x : Float) (rest : Columns)
      → (key == column) ≡ false
      → column_value column ((key, x) ∷ rest) ≡ column_value column rest
  unfolding column_value
  column_there column key x rest other = ground arith

  Elem-targets :
      (names : List (String × String)) (n : String × String)
      → Elem n names
      → contains n.1 (targets names) ≡ true
  Elem-targets [] n m = absurd m
  Elem-targets (first ∷ names) n m = elim m [
    | inl e ↦
        let same = (string_eq.same_iff n.1 first.1).1 (ap (λ (p : String × String). p.1) e) in
        (or_iff _ _).1 (inl same)
    | inr later ↦ (or_iff _ _).1 (inr (Elem-targets names n later))
  ]

  not-true : (b : Bool) → not b ≡ true → b ≡ false
  not-true b h = ground arith

  other_key :
      (key column : String) (names : List (String × String))
      → contains key (targets names) ≡ false
      → contains column (targets names) ≡ true
      → (key == column) ≡ false
  other_key key column names out there = elim (Bool-cases (key == column)) [
    | inl t ↦
        let same = ap (λ k. contains k (targets names)) ((string_eq.same_iff key column).0 t) in
        absurd (cc (same, out, there))
    | inr f ↦ f
  ]

  module _ (row : List (String × Value)) where
    abbrev pub stored : List (String × String) → Option Columns
    stored names = store_columns double_of (sanitize_dict (raw_fields names row))

    stored-absent :
        (names : List (String × String)) (column : String) (columns : Columns)
        → contains column (targets names) ≡ false
        → stored names ≡ some columns
        → column_value column columns ≡ none
    unfolding column_value raw_fields store_columns sanitize_dict
    stored-absent [] column columns out h =
        subst (λ cs. column_value column cs ≡ none) (some-inj _ _ h) refl
    stored-absent ((label, key) ∷ names) column columns out h =
        let (rest, before, cases) =
          first_field key (get_cell label row) (raw_fields names row) columns h in
        let later = stored-absent names column rest (ground arith) before in
        elim cases [
          | inl (f, same) ↦ ap (λ cs. column_value column cs) same ∙ later
          | inr (x, f, same) ↦
              let other = apart column key (ground arith) in
              ap (λ cs. column_value column cs) same ∙ column_there column key x rest other ∙ later
        ]

    -- Each column that is named once is stored with the figure of its cell.
    pub stored-figure :
        (names : List (String × String)) (n : String × String) (columns : Columns)
        → distinct names ≡ true
        → Elem n names
        → stored names ≡ some columns
        → column_value n.1 columns ≡ figure double_of (get_cell n.0 row)
    unfolding raw_fields
    stored-figure [] n columns once m h = absurd m
    stored-figure ((label, key) ∷ names) n columns once m h =
        let (rest, before, cases) =
          first_field key (get_cell label row) (raw_fields names row) columns h in
        let (alone, others) =
          (and_iff (not (contains key (targets names))) (distinct names)).0 once in
        let absent = not-true _ alone in
        elim m [
          | inl e ↦
              let same_key : n.1 ≡ key = ap (λ (p : String × String). p.1) e in
              let same_label : n.0 ≡ label = ap (λ (p : String × String). p.0) e in
              ap (λ k. column_value k columns) same_key
              ∙ elim cases [
                | inl (f, same) ↦
                    ap (λ cs. column_value key cs) same
                    ∙ stored-absent names key rest absent before
                    ∙ sym f
                | inr (x, f, same) ↦
                    ap (λ cs. column_value key cs) same
                    ∙ column_here key key x rest ((string_eq.same_iff key key).1 refl)
                    ∙ sym f
              ]
              ∙ ap (λ l. figure double_of (get_cell l row)) (sym same_label)
          | inr later ↦
              let found = stored-figure names n rest others later before in
              elim cases [
                | inl (f, same) ↦ ap (λ cs. column_value n.1 cs) same ∙ found
                | inr (x, f, same) ↦
                    ap (λ cs. column_value n.1 cs) same
                    ∙ column_there n.1 key x rest
                        (other_key key n.1 names absent (Elem-targets names n later))
                    ∙ found
              ]
        ]
