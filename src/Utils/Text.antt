-- ===== src/Utils/Text.antt =====
-- pkg/utils/string_utils.go, number_utils.go, and the case mapping of package `strings` that the
-- program uses. A text is a valid UTF-8 string; where the code looks at bytes, its bytes are counted.
pub mod Laws
use Prim.Native.Char.{Char, code}
use hexagonal_queue.Prelude.{
  ℕ, zero, suc, ◌+◌, ◌-◌, String, Bool, true, not, ◌&&◌, ◌||◌, List, [], ◌∷◌, ◌++◌, Result, ok, err,
  new, ltb, leb, ◌==◌, str_eq, if◌then◌else◌, length, take,
}
use hexagonal_queue.Prelude.Int.{ℤ, pos, ltb_ℤ, ◌-ℤ◌}
use hexagonal_queue.Platform.{Platform}

-- The code points of a text, as `range` over a string gives them.
abbrev pub codes : String → List ℕ
codes String.[] = []
codes (String.◌∷◌ c s) = code c ∷ codes s

-- The bytes that UTF-8 takes for a code point.
abbrev utf8_width : ℕ → ℕ
utf8_width c = if ltb c 0x80 then 1 else if ltb c 0x800 then 2 else if ltb c 0x10000 then 3 else 4

-- `len(s)`
abbrev pub byte_length : List ℕ → ℕ
byte_length [] = 0
byte_length (c ∷ cs) = utf8_width c + byte_length cs

unfoldable pub is_username_char : ℕ → Bool
is_username_char char =
    (leb b'a' char && leb char b'z')
    || (leb b'A' char && leb char b'Z')
    || (leb b'0' char && leb char b'9')
    || char == b'_'

-- The loop over the characters.
unfoldable pub check_chars : List ℕ → Result (Unit {0})
unfolding is_username_char
check_chars [] = ok tt
check_chars (char ∷ rest) =
    let checked = check_chars rest in
    if not (is_username_char char)
    then err (new "username contains invalid characters")
    else checked

unfoldable pub validate_username : String → Result (Unit {0})
unfolding check_chars
validate_username username =
    let n = byte_length (codes username) in
    if ltb n 3
    then err (new "username must be at least 3 characters long")
    else if ltb 50 n
    then err (new "username must be at most 50 characters long")
    else check_chars (codes username)

abbrev pub stars : ℕ → List ℕ
stars zero = []
stars (suc n) = b'*' ∷ stars n

abbrev pub drop : ℕ → List ℕ → List ℕ
drop zero xs = xs
drop (suc n) [] = []
drop (suc n) (x ∷ xs) = drop n xs

-- `MaskSensitiveData`, on the bytes of the text.
unfoldable pub mask_sensitive_data : List ℕ → List ℕ
mask_sensitive_data bytes =
    let n = length bytes in
    if leb n 4 then stars n else take 2 bytes ++ (stars (n - 4) ++ drop (n - 2) bytes)

-- `Abs` on `int`; the one value whose opposite does not fit is left out.
unfoldable pub abs_int : ℤ → ℤ
abs_int x = if ltb_ℤ x (pos 0) then pos 0 -ℤ x else x

abbrev is_ascii : String → Bool
is_ascii String.[] = true
is_ascii (String.◌∷◌ c s) = ltb (code c) 0x80 && is_ascii s

-- The character of the second text at the first place where the first text has `c`.
abbrev translate_char : String → String → Char → Char
translate_char (String.◌∷◌ a more) (String.◌∷◌ b others) c =
    let rest = translate_char more others c in if code a == code c then b else rest
translate_char _ _ c = c

abbrev translate : String → String → String → String
translate from to String.[] = String.[]
translate from to (String.◌∷◌ c s) = String.◌∷◌ (translate_char from to c) (translate from to s)

abbrev lower_letters : String
lower_letters = "abcdefghijklmnopqrstuvwxyz"

abbrev upper_letters : String
upper_letters = "ABCDEFGHIJKLMNOPQRSTUVWXYZ"

module _ (p : Platform) where
  -- `strings.ToUpper`
  unfoldable pub to_upper : String → String
  to_upper s = if is_ascii s then translate lower_letters upper_letters s else p.upper_beyond s

  -- `strings.ToLower`
  unfoldable pub to_lower : String → String
  to_lower s = if is_ascii s then translate upper_letters lower_letters s else p.lower_beyond s

  -- `strings.EqualFold`
  unfoldable pub equal_fold : String → String → Bool
  equal_fold s t =
      if is_ascii s && is_ascii t
      then str_eq (translate upper_letters lower_letters s)
          (translate upper_letters lower_letters t)
      else p.fold_beyond s t
