-- ===== src/Utils/Tokens.antt =====
-- `RandomString` and `GenerateTransactionID` of pkg/utils/string_utils.go, with `GetCurrentTimestamp`
-- of time_utils.go. The random numbers, the clock and `fmt`'s `%d` come from the machine.
pub mod Laws
use Prim.Native.Char.{Char}
use hexagonal_queue.Prelude.{ℕ, zero, suc, String, ◌<>◌, Option, none, some, Result, ok, err}

pub record Machine (S : Type 0) : Type 0 where
  -- `rand.Int(rand.Reader, max)`
  pub rand_int : ℕ → S → Result ℕ × S
  pub unix_nano : S → ℕ × S
  pub decimal_text : ℕ → String

abbrev pub charset : String
charset = "abcdefghijklmnopqrstuvwxyzABCDEFGHIJKLMNOPQRSTUVWXYZ0123456789"

abbrev pub text_length : String → ℕ
text_length String.[] = 0
text_length (String.◌∷◌ c s) = suc (text_length s)

-- `s[i]`, which panics out of range.
abbrev pub char_at : String → ℕ → Option Char
char_at String.[] i = none
char_at (String.◌∷◌ c s) zero = some c
char_at (String.◌∷◌ c s) (suc i) = char_at s i

-- `charset[n.Int64()]`: the code drops the error of `rand.Int`, with which `n` is nil.
abbrev pub char_drawn : Result ℕ → Option Char
char_drawn (err e) = none
char_drawn (ok n) = char_at charset n

abbrev pub prepend : Char → Option String → Option String
prepend c none = none
prepend c (some s) = some (String.◌∷◌ c s)

-- A character in front of the others; a panic leaves them undrawn.
abbrev pub put_char : {S : Type 0} → Option Char → S → Option String × S → Option String × S
put_char none s' rest = (none, s')
put_char (some c) s' (rest, s'') = (prepend c rest, s'')

module _ {S : Type 0} (machine : Machine S) where
  -- `none` is a panic.
  unfoldable pub random_string : ℕ → S → Option String × S
  random_string zero s = (some String.[], s)
  random_string (suc length) s =
      let (n, s') = machine.rand_int (text_length charset) s in
      let rest = random_string length s' in put_char (char_drawn n) s' rest

  unfoldable pub get_current_timestamp : S → ℕ × S
  get_current_timestamp = machine.unix_nano

  abbrev pub id_of : String → ℕ → Option String → Option String
  id_of username time none = none
  id_of username time (some random) =
      some (username <> "_" <> machine.decimal_text time <> "_" <> random)

  unfoldable pub generate_transaction_id : String → S → Option String × S
  generate_transaction_id username s =
      let (time, s') = get_current_timestamp s in
      let (random, s'') = random_string 8 s' in (id_of username time random, s'')
