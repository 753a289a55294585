-- ===== src/Utils/Decimal.antt =====
-- pkg/utils/decimal_utils.go: arithmetic on Decimal128 by way of float64.
pub mod Laws
use hexagonal_queue.Prelude.{Bool, not, ◌||◌, Result, ok, err, Error, new, ◌>>=◌, if◌then◌else◌}
use hexagonal_queue.Platform.{Platform}

module _ (p : Platform) where
  unfoldable pub convert_float_to_decimal128 : p.Float → Result p.Decimal
  convert_float_to_decimal128 value = p.parse_decimal128 (p.sprintf_8f value)

  unfoldable pub convert_decimal128_to_float : p.Decimal → Result p.Float
  convert_decimal128_to_float decimal = p.parse_float (p.decimal_string decimal)

  -- `value, _ := ConvertDecimal128ToFloat(decimal)`
  unfoldable pub float_of_decimal128 : p.Decimal → p.Float
  unfolding convert_decimal128_to_float
  float_of_decimal128 decimal = elim (convert_decimal128_to_float decimal) [
    | ok value ↦ value
    | err _ ↦ p.rejected_float (p.decimal_string decimal)
  ]

  unfoldable pub sum_decimal128 : p.Decimal → p.Decimal → Result p.Decimal
  unfolding convert_float_to_decimal128 convert_decimal128_to_float
  sum_decimal128 a b = do
    a_float ← convert_decimal128_to_float a
    b_float ← convert_decimal128_to_float b
    convert_float_to_decimal128 (p.add a_float b_float)

  unfoldable pub subtract_decimal128 : p.Decimal → p.Decimal → Result p.Decimal
  unfolding convert_float_to_decimal128 convert_decimal128_to_float
  subtract_decimal128 a b = do
    a_float ← convert_decimal128_to_float a
    b_float ← convert_decimal128_to_float b
    convert_float_to_decimal128 (p.sub a_float b_float)

  unfoldable pub compare_decimal128 : p.Decimal → p.Decimal → Result Bool
  unfolding convert_decimal128_to_float
  compare_decimal128 a b = do
    a_float ← convert_decimal128_to_float a
    b_float ← convert_decimal128_to_float b
    ok (p.lt (p.abs (p.sub a_float b_float)) p.ten_to_minus_8)

  unfoldable pub is_decimal128_zero : p.Decimal → Result Bool
  unfolding convert_float_to_decimal128 compare_decimal128
  is_decimal128_zero decimal = do
    zero_decimal ← convert_float_to_decimal128 p.nought
    compare_decimal128 decimal zero_decimal

  unfoldable pub is_decimal128_negative : p.Decimal → Result Bool
  unfolding convert_decimal128_to_float
  is_decimal128_negative decimal = do
    value ← convert_decimal128_to_float decimal
    ok (p.lt value p.nought)

  unfoldable pub abs_decimal128 : p.Decimal → Result p.Decimal
  unfolding convert_float_to_decimal128 convert_decimal128_to_float
  abs_decimal128 decimal = do
    value ← convert_decimal128_to_float decimal
    convert_float_to_decimal128 (p.abs value)

  unfoldable pub validate_decimal128_amount : p.Decimal → Result (Unit {0})
  unfolding convert_decimal128_to_float
  validate_decimal128_amount decimal = do
    value ← convert_decimal128_to_float decimal
    if p.is_inf value || p.is_nan value
        then err (new "invalid decimal value: infinity or NaN")
        else if p.lt p.ten_to_15 value || p.lt value p.minus_ten_to_15
        then err (new "decimal value exceeds reasonable financial limits")
        else ok tt
