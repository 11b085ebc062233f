-- ===== src/Companies/Listing/Order.antt =====
-- The order of a listing's rows: total and transitive, and the ordered rows are those that were ordered.
use balance_sheet_analysis.Prelude.{
  String, true, ◌||◌, ◌≡◌, refl, ◌↔◌, ◌⊎◌, Option, none, some, List, [], ◌∷◌, arith, length, Elem,
  suc,
}
use balance_sheet_analysis.Companies.Listing.{
  Collation, Row, column_le, ascending, row_le, insert_row, order_rows, option_le,
}

module _ (server : Collation)
    (total : (a b : String) → (server.text_le a b || server.text_le b a) ≡ true)
    (trans : (a b c : String)
      → server.text_le a b ≡ true
      → server.text_le b c ≡ true
      → server.text_le a c ≡ true) where
  option_total :
      (p q : Option String) → (option_le server.text_le p q || option_le server.text_le q p) ≡ true
  option_total none none = refl
  option_total none (some b) = refl
  option_total (some a) none = refl
  option_total (some a) (some b) = total a b

  option_trans :
      (p q r : Option String)
      → option_le server.text_le p q ≡ true
      → option_le server.text_le q r ≡ true
      → option_le server.text_le p r ≡ true
  option_trans p q none h k = refl
  option_trans none none (some c) h k = k
  option_trans none (some b) (some c) h k = cc
  option_trans (some a) none (some c) h k = cc
  option_trans (some a) (some b) (some c) h k = trans a b c h k

  column_total :
      (sort_by : Option String) (r s : Row)
      → (column_le server sort_by r s || column_le server sort_by s r) ≡ true
  unfolding column_le
  column_total none (c, p) (d, q) = ground arith
  column_total (some k) (c, p) (d, q) =
      let by_parent = option_total p q in
      let by_name = total c.name d.name in let by_ticker = total c.ticker d.ticker in ground arith

  column_trans :
      (sort_by : Option String) (r s t : Row)
      → column_le server sort_by r s ≡ true
      → column_le server sort_by s t ≡ true
      → column_le server sort_by r t ≡ true
  unfolding column_le
  column_trans none (c, p) (d, q) (e, o) h k = ground arith
  column_trans (some key) (c, p) (d, q) (e, o) h k =
      let by_parent = option_trans p q o in
      let by_name = trans c.name d.name e.name in
      let by_ticker = trans c.ticker d.ticker e.ticker in ground arith

  ascending_total :
      (sort_by : Option String) (r s : Row)
      → (ascending server sort_by r s || ascending server sort_by s r) ≡ true
  unfolding ascending
  ascending_total sort_by r s = ground (arith, column_total sort_by r s)

  ascending_trans :
      (sort_by : Option String) (r s t : Row)
      → ascending server sort_by r s ≡ true
      → ascending server sort_by s t ≡ true
      → ascending server sort_by r t ≡ true
  unfolding ascending
  ascending_trans sort_by r s t h k =
      ground
        (arith, column_trans sort_by r s t, column_trans sort_by t r s, column_trans sort_by s t r)

  pub row_le_total :
      (sort_by : Option String) (sort_dir : String) (r s : Row)
      → (row_le server sort_by sort_dir r s || row_le server sort_by sort_dir s r) ≡ true
  unfolding row_le
  row_le_total sort_by sort_dir r s = ground (arith, ascending_total sort_by r s)

  pub row_le_trans :
      (sort_by : Option String) (sort_dir : String) (r s t : Row)
      → row_le server sort_by sort_dir r s ≡ true
      → row_le server sort_by sort_dir s t ≡ true
      → row_le server sort_by sort_dir r t ≡ true
  unfolding row_le
  row_le_trans sort_by sort_dir r s t h k =
      ground (arith, ascending_trans sort_by r s t, ascending_trans sort_by t s r)

module _ (server : Collation) (sort_by : Option String) (sort_dir : String) where
  length-insert_row :
      (r : Row) (rows : List Row)
      → length (insert_row server sort_by sort_dir r rows) ≡ suc (length rows)
  unfolding insert_row
  length-insert_row r [] = refl
  length-insert_row r (s ∷ rows) = ground (arith, length-insert_row r rows)

  pub length-order_rows :
      (rows : List Row) → length (order_rows server sort_by sort_dir rows) ≡ length rows
  unfolding order_rows
  length-order_rows [] = refl
  length-order_rows (r ∷ rows) =
      ground (
        arith,
        length-insert_row r (order_rows server sort_by sort_dir rows),
        length-order_rows rows,
      )

  Elem-insert_row :
      (x r : Row) (rows : List Row)
      → Elem x (insert_row server sort_by sort_dir r rows) ↔ ((x ≡ r) ⊎ Elem x rows)
  unfolding insert_row
  Elem-insert_row x r [] = ground arith
  Elem-insert_row x r (s ∷ rows) = ground (arith, Elem-insert_row x r rows)

  pub Elem-order_rows :
      (x : Row) (rows : List Row) → Elem x (order_rows server sort_by sort_dir rows) ↔ Elem x rows
  unfolding order_rows
  Elem-order_rows x [] = ground arith
  Elem-order_rows x (r ∷ rows) =
      ground (
        arith,
        Elem-insert_row x r (order_rows server sort_by sort_dir rows),
        Elem-order_rows x rows,
      )
