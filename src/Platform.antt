-- ===== src/Platform.antt =====
-- What the program takes from Go and from the BSON package (go.mongodb.org/mongo-driver/bson/primitive)
-- and does not implement: float64, Decimal128, the texts of numbers that pass between them, and case
-- mapping outside ASCII. It is a parameter of every module that computes with amounts.
pub mod Exact
use hexagonal_queue.Prelude.{ℕ, String, Bool, Result}

pub record Platform : Type 1 where
  -- float64
  pub Float : Type 0
  -- primitive.Decimal128
  pub Decimal : Type 0
  -- the decimal text of a number
  pub Numeral : Type 0
  -- fmt.Sprintf("%.8f", value)
  pub sprintf_8f : Float → Numeral
  -- strconv.ParseFloat(text, 64)
  pub parse_float : Numeral → Result Float
  -- the value that strconv.ParseFloat returns beside an error
  pub rejected_float : Numeral → Float
  -- primitive.ParseDecimal128
  pub parse_decimal128 : Numeral → Result Decimal
  -- Decimal128.String
  pub decimal_string : Decimal → Numeral
  -- primitive.NewDecimal128
  pub new_decimal128 : ℕ → ℕ → Decimal
  pub add : Float → Float → Float
  pub sub : Float → Float → Float
  pub neg : Float → Float
  -- math.Abs
  pub abs : Float → Float
  pub lt : Float → Float → Bool
  pub le : Float → Float → Bool
  -- math.IsInf(value, 0) and math.IsNaN
  pub is_inf : Float → Bool
  pub is_nan : Float → Bool
  -- the constants 0, 1e-8, 1e15 and -1e15
  pub nought : Float
  pub ten_to_minus_8 : Float
  pub ten_to_15 : Float
  pub minus_ten_to_15 : Float
  -- strings.ToUpper, strings.ToLower and strings.EqualFold on a text that is not ASCII
  pub upper_beyond : String → String
  pub lower_beyond : String → String
  pub fold_beyond : String → String → Bool
