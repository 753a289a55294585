-- ===== src/Utils/Tokens/Laws.antt =====
-- The random texts are made of the characters of the set, no index is out of range, and a draw that
-- fails is a panic.
use Prim.Native.Char.{Char}
use hexagonal_queue.Prelude.{
  ℕ, zero, suc, ◌≤◌, String, ◌<>◌, ◌≡◌, refl, ap, Option, some, arith, ok, Error, ◌⊎◌, err, none,
  inl, Result-cases, inr,
}
use hexagonal_queue.Utils.Tokens.{
  Machine, charset, text_length, char_at, id_of, random_string, get_current_timestamp,
  generate_transaction_id,
}

-- Every character of the text is one of the set.
abbrev pub Drawn : String → Type 0
Drawn String.[] = Unit {0}
Drawn (String.◌∷◌ c s) = ((i : ℕ) × (char_at charset i ≡ some c)) × Drawn s

char_at-some : (s : String) (i : ℕ) → suc i ≤ text_length s → (c : Char) × (char_at s i ≡ some c)
char_at-some String.[] i small = absurd (ground arith)
char_at-some (String.◌∷◌ c s) zero small = (c, refl)
char_at-some (String.◌∷◌ c s) (suc i) small = char_at-some s i (omega (arith, small))

module _ {S : Type 0} (machine : Machine S)
    (below : (max : ℕ) (s : S) (n : ℕ)
      → 1 ≤ max
      → (machine.rand_int max s).0 ≡ ok n
      → suc n ≤ max) where
  -- A text of the length with characters of the set.
  abbrev pub Random : ℕ → Option String → Type 0
  Random length out = (r : String) × (out ≡ some r) × (text_length r ≡ length) × Drawn r

  -- All of a number of draws in a row give a number.
  abbrev pub AllDrawn : ℕ → S → Type 0
  AllDrawn zero s = Unit {0}
  AllDrawn (suc count) s =
      ((n : ℕ) × ((machine.rand_int 62 s).0 ≡ ok n)) × AllDrawn count (machine.rand_int 62 s).1

  -- One of a number of draws in a row fails.
  abbrev pub SomeFailed : ℕ → S → Type 0
  SomeFailed zero s = ⊥
  SomeFailed (suc count) s =
      ((e : Error) × ((machine.rand_int 62 s).0 ≡ err e))
      ⊎ SomeFailed count (machine.rand_int 62 s).1

  random_string-Random :
      (length : ℕ) (s : S)
      → (AllDrawn length s × Random length (random_string machine length s).0)
        ⊎ (SomeFailed length s × ((random_string machine length s).0 ≡ none))
  unfolding random_string
  random_string-Random zero s = inl (tt, (String.[], refl, refl, tt))
  random_string-Random (suc length) s = elim (Result-cases (machine.rand_int 62 s).0) [
    | inr (e, failed) ↦ inr (inl (e, failed), rw failed refl)
    | inl (n, is) ↦
        let (c, found) = char_at-some charset n (below 62 s n (omega arith) is) in
        elim (random_string-Random length (machine.rand_int 62 s).1) [
          | inl (all, (r, same, long, drawn)) ↦ inl (
            ((n, is), all),
            (String.◌∷◌ c r, rw (is, found, same) refl, ap suc long, ((n, found), drawn)),
          )
          | inr (failed, same) ↦ inr (inr failed, rw (is, found, same) refl)
        ]
  ]

  -- With a source of random numbers that are below their bound, either the eight draws of
  -- GenerateTransactionID succeed, and its result is the username, the time and eight characters of the
  -- set, joined by underscores, with no index out of range; or one of them fails, and it panics.
  pub generate_transaction_id-Random :
      (username : String) (s : S)
      → (AllDrawn 8 (get_current_timestamp machine s).1
          × ((random : String) × ((generate_transaction_id machine username s).0
                ≡ some (
                    username
                    <> "_"
                    <> machine.decimal_text (get_current_timestamp machine s).0
                    <> "_"
                    <> random))
              × (text_length random ≡ 8)
              × Drawn random))
        ⊎ (SomeFailed 8 (get_current_timestamp machine s).1
            × ((generate_transaction_id machine username s).0 ≡ none))
  unfolding generate_transaction_id
  generate_transaction_id-Random username s =
      let time = (get_current_timestamp machine s).0 in
      elim (random_string-Random 8 (get_current_timestamp machine s).1) [
        | inl (all, (r, is, long, drawn)) ↦
            inl (all, (r, ap (id_of machine username time) is, long, drawn))
        | inr (failed, is) ↦ inr (failed, ap (id_of machine username time) is)
      ]
