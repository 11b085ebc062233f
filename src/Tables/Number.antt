-- ===== src/Tables/Number.antt =====
-- Python's floats: a finite one is `mantissa * 2 ^ exponent`. The program does no arithmetic on
-- them; it stores, filters and prints them.
use balance_sheet_analysis.Prelude.{Bool}
use balance_sheet_analysis.Prelude.Int.{ℤ}

pub data Float : Type 0 where
  nan : Float
  -- the argument says whether it is negative
  inf : Bool → Float
  finite : ℤ → ℤ → Float
