-- ===== src/Companies/Listing/Unique.antt =====
-- The order of a listing: it does not depend on the order in which the rows are read.
use mathlib.Core.List.{Permᴰ}
use balance_sheet_analysis.Prelude.{
  String, Bool, true, false, ◌||◌, ◌≡◌, refl, sym, ap, ◌∙◌, inl, inr, Option, List, [], ◌∷◌, Elem,
  Bool-cases, arith,
}
use mathlib.Core.Path.{subst}
use balance_sheet_analysis.Companies.Listing.{
  Collation, Row, ascending, row_le, insert_row, order_rows,
}
use balance_sheet_analysis.Companies.Listing.Order.{row_le_total, row_le_trans}

-- The same elements in another order: what is in the one is in the other.
pub moved :
    {A : Type 0} (rows others : List A) → Permᴰ rows others → (r : A) → Elem r others → Elem r rows
moved _ _ Permᴰ.nil r m = m
moved _ _ (Permᴰ.cons e p) r (inl i) = inl (i ∙ sym e)
moved _ _ (Permᴰ.cons e p) r (inr m) = inr (moved _ _ p r m)
moved _ _ (Permᴰ.swap e f) r (inl i) = inr (inl (i ∙ sym f))
moved _ _ (Permᴰ.swap e f) r (inr (inl i)) = inl (i ∙ sym e)
moved _ _ (Permᴰ.swap e f) r (inr (inr m)) = inr (inr m)
moved _ _ (Permᴰ.trans p q) r m = moved _ _ p r (moved _ _ q r m)

ascending_ids :
    (server : Collation) (sort_by : Option String) (r s : Row)
    → ascending server sort_by r s ≡ true
    → ascending server sort_by s r ≡ true
    → r.0.id ≡ s.0.id
unfolding ascending
ascending_ids server sort_by r s h k = ground arith

module _ (server : Collation) (sort_by : Option String) (sort_dir : String)
    (total : (a b : String) → (server.text_le a b || server.text_le b a) ≡ true)
    (trans : (a b c : String)
      → server.text_le a b ≡ true
      → server.text_le b c ≡ true
      → server.text_le a c ≡ true) where
  abbrev le : Row → Row → Bool
  le r s = row_le server sort_by sort_dir r s

  -- The tie-break: two rows that stand before each other have one id.
  row_le-ids : (r s : Row) → le r s ≡ true → le s r ≡ true → r.0.id ≡ s.0.id
  unfolding row_le
  row_le-ids r s h k =
      ground (arith, ascending_ids server sort_by r s, ascending_ids server sort_by s r)

  insert_strictly :
      (r s : Row) (rows : List Row)
      → le r s ≡ true
      → le s r ≡ false
      → insert_row server sort_by sort_dir r (insert_row server sort_by sort_dir s rows)
        ≡ insert_row server sort_by sort_dir s (insert_row server sort_by sort_dir r rows)
  unfolding insert_row
  insert_strictly r s [] before after = ground arith
  insert_strictly r s (t ∷ rows) before after = elim (Bool-cases (le s t)) [
    | inl st ↦
        let rt = row_le_trans server total trans sort_by sort_dir r s t before st in ground arith
    | inr nst ↦ elim (Bool-cases (le r t)) [
      | inl rt ↦ ground arith
      | inr nrt ↦ let rest = insert_strictly r s rows before after in ground arith
    ]
  ]

  insert_row-insert_row :
      (r s : Row) (rows : List Row)
      → (r.0.id ≡ s.0.id → r ≡ s)
      → insert_row server sort_by sort_dir r (insert_row server sort_by sort_dir s rows)
        ≡ insert_row server sort_by sort_dir s (insert_row server sort_by sort_dir r rows)
  insert_row-insert_row r s rows unique = elim (Bool-cases (le r s)) [
    | inl rs ↦ elim (Bool-cases (le s r)) [
      | inl sr ↦
          subst
            (λ x.
              insert_row server sort_by sort_dir r (insert_row server sort_by sort_dir x rows)
              ≡ insert_row server sort_by sort_dir x (insert_row server sort_by sort_dir r rows))
            (unique (row_le-ids r s rs sr)) refl
      | inr nsr ↦ insert_strictly r s rows rs nsr
    ]
    | inr nrs ↦
        let sr : le s r ≡ true =
          ground (arith, row_le_total server total trans sort_by sort_dir r s) in
        sym (insert_strictly s r rows sr nrs)
  ]

  -- Where the collation is a total and transitive order of texts and an id is one row's, the order of
  -- the listing is the same in whatever order its rows are read, however many are equal in the column
  -- that is sorted by.
  pub order_rows-Perm :
      (rows others : List Row)
      → Permᴰ rows others
      → ((r s : Row) → Elem r rows → Elem s rows → r.0.id ≡ s.0.id → r ≡ s)
      → order_rows server sort_by sort_dir rows ≡ order_rows server sort_by sort_dir others
  unfolding order_rows
  order_rows-Perm _ _ Permᴰ.nil unique = refl
  order_rows-Perm (a ∷ rows) (b ∷ others) (Permᴰ.cons e p) unique =
      ap (λ x. insert_row server sort_by sort_dir x (order_rows server sort_by sort_dir rows)) e
      ∙ ap (insert_row server sort_by sort_dir b)
          (order_rows-Perm rows others p (λ r s m n. unique r s (inr m) (inr n)))
  order_rows-Perm (a ∷ b ∷ rows) (c ∷ d ∷ others) (Permᴰ.swap e f) unique =
      insert_row-insert_row a b (order_rows server sort_by sort_dir rows)
        (unique a b (inl refl) (inr (inl refl)))
      ∙ ap
          (λ x.
            insert_row server sort_by sort_dir x
              (insert_row server sort_by sort_dir a (order_rows server sort_by sort_dir rows)))
          f
      ∙ ap
          (λ x.
            insert_row server sort_by sort_dir c
              (insert_row server sort_by sort_dir x (order_rows server sort_by sort_dir rows)))
          e
  order_rows-Perm rows others (Permᴰ.trans {l₂ = middle} p q) unique =
      order_rows-Perm rows middle p unique
      ∙ order_rows-Perm middle others q
          (λ r s m n. unique r s (moved rows middle p r m) (moved rows middle p s n))
