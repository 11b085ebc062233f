-- ===== src/BalanceSheets/Sanitize.antt =====
-- backend/app/balance_sheets/sanitize_fields.py.
use balance_sheet_analysis.Prelude.{String, Bool, true, false, not, List, [], ◌∷◌, if◌then◌else◌}
use balance_sheet_analysis.Prelude.Int.{ℤ}
use balance_sheet_analysis.Tables.{Float, nan, inf, finite}

-- A cell of a yfinance row, by its Python type. numpy's float64 is a subclass of float and its
-- complex128 one of complex; float32 and complex64 are subclasses of neither. Complex values are
-- never stored, so their parts are not modelled.
pub data Value : Type 0 where
  none_value : Value
  float float64 float32 : Float → Value
  int int64 : ℤ → Value
  complex complex128 complex64 : Value

-- A native Python value.
pub data Native : Type 0 where
  native_float : Float → Native
  native_int : ℤ → Native
  native_complex : Native

-- isnan(x) or isinf(x)
abbrev pub not_finite : Float → Bool
not_finite nan = true
not_finite (inf _) = true
not_finite (finite _ _) = false

unfoldable pub is_valid_value : Value → Bool
is_valid_value none_value = false
is_valid_value (float x) = not (not_finite x)
is_valid_value (float64 x) = not (not_finite x)
is_valid_value (float32 x) = true
is_valid_value (int z) = true
is_valid_value (int64 z) = true
is_valid_value complex = false
is_valid_value complex128 = false
is_valid_value complex64 = true

-- `value.item()` of a numpy scalar. None does not come here: it is given as the Python float nan.
unfoldable pub convert_value : Value → Native
convert_value none_value = native_float nan
convert_value (float x) = native_float x
convert_value (float64 x) = native_float x
convert_value (float32 x) = native_float x
convert_value (int z) = native_int z
convert_value (int64 z) = native_int z
convert_value complex = native_complex
convert_value complex128 = native_complex
convert_value complex64 = native_complex

unfoldable pub sanitize_dict : List (String × Value) → List (String × Native)
unfolding is_valid_value convert_value
sanitize_dict [] = []
sanitize_dict ((key, value) ∷ rest) =
    let clean = sanitize_dict rest in
    if is_valid_value value then (key, convert_value value) ∷ clean else clean
