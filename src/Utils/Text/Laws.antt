-- ===== src/Utils/Text/Laws.antt =====
-- What `ValidateUsername` accepts and what `MaskSensitiveData` shows.
use hexagonal_queue.Prelude.{
  ℕ, zero, suc, ◌+◌, ◌-◌, ◌≤◌, ◌≡◌, ◌↔◌, refl, String, inl, inr, Bool-cases, true, false, List, [],
  ◌∷◌, ◌++◌, ok, All, length, length-append, take, leb, arith, ◌⊎◌,
}
use hexagonal_queue.Utils.Text.{
  codes, byte_length, is_username_char, check_chars, validate_username, mask_sensitive_data, stars,
  drop,
}

-- An ASCII letter, a digit or the underscore, by its code point: from `a` to `z`, from `A` to `Z`,
-- from `0` to `9`, and `_`.
abbrev pub IsUsernameChar : ℕ → Type 0
IsUsernameChar c =
    ((97 ≤ c) × (c ≤ 122)) ⊎ (((65 ≤ c) × (c ≤ 90)) ⊎ (((48 ≤ c) × (c ≤ 57)) ⊎ (c ≡ 95)))

is_username_char_iff : (c : ℕ) → (is_username_char c ≡ true) ↔ IsUsernameChar c
unfolding is_username_char
is_username_char_iff c = ground arith

check_chars_iff : (cs : List ℕ) → (check_chars cs ≡ ok tt) ↔ All IsUsernameChar cs
unfolding check_chars
check_chars_iff [] = ground arith
check_chars_iff (c ∷ cs) = ground (arith, is_username_char_iff c, check_chars_iff cs)

-- ValidateUsername accepts exactly the names of 3 to 50 bytes whose characters are all ASCII letters,
-- digits or underscores.
pub validate_username_iff :
    (name : String)
    → (validate_username name ≡ ok tt) ↔ (
        (3 ≤ byte_length (codes name))
        × (byte_length (codes name) ≤ 50)
        × All IsUsernameChar (codes name))
unfolding validate_username
validate_username_iff name = ground (arith, check_chars_iff (codes name))

length-stars : (n : ℕ) → length (stars n) ≡ n
length-stars zero = refl
length-stars (suc n) = omega (arith, length-stars n)

length-take : (n : ℕ) (xs : List ℕ) → n ≤ length xs → length (take n xs) ≡ n
length-take zero xs h = refl
length-take (suc n) [] h = omega (arith, h)
length-take (suc n) (x ∷ xs) h = omega (arith, length-take n xs (omega (arith, h)))

length-drop : (n : ℕ) (xs : List ℕ) → n ≤ length xs → length (drop n xs) + n ≡ length xs
length-drop zero xs h = omega arith
length-drop (suc n) [] h = omega (arith, h)
length-drop (suc n) (x ∷ xs) h = omega (arith, length-drop n xs (omega (arith, h)))

masked :
    (bytes : List ℕ)
    → leb (length bytes) 4 ≡ false
    → length (take 2 bytes ++ (stars (length bytes - 4) ++ drop (length bytes - 2) bytes))
      ≡ length bytes
masked bytes h =
    let n = length bytes in
    let long : 5 ≤ n = ground arith in
    omega (
      arith,
      long,
      length-append (take 2 bytes) (stars (n - 4) ++ drop (n - 2) bytes),
      length-append (stars (n - 4)) (drop (n - 2) bytes),
      length-take 2 bytes (omega (arith, long)),
      length-stars (n - 4),
      length-drop (n - 2) bytes (omega arith),
    )

-- MaskSensitiveData keeps the length of the data.
length-mask_sensitive_data : (bytes : List ℕ) → length (mask_sensitive_data bytes) ≡ length bytes
unfolding mask_sensitive_data
length-mask_sensitive_data bytes = elim (Bool-cases (leb (length bytes) 4)) [
  | inl h ↦ rw h (length-stars (length bytes))
  | inr h ↦ rw h (masked bytes h)
]
