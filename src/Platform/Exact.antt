-- ===== src/Platform/Exact.antt =====
-- The rounding that the wallet relies on. An amount is a whole number of units of 10^-8. Up to
-- 10^15 units a float64 nearest to such an amount prints with "%.8f" as that amount, also after one
-- addition, since three roundings of half an ulp stay below half a unit there.
use hexagonal_queue.Prelude.{ℕ, ◌+◌, ◌-◌, ◌^◌, ◌≤◌, ◌≡◌, refl, ◌≢◌, true, false, ok, arith}
use hexagonal_queue.Prelude.{str_eq}
use hexagonal_queue.Prelude.Int.{ℤ, pos, negsuc, pos_part, neg_part, ◌+ℤ◌, ◌-ℤ◌, ltb_ℤ, leb_ℤ}
use hexagonal_queue.Platform.{Platform}

abbrev pub unit_bound : ℕ
unit_bound = 10 ^ 15

abbrev pub InRange : ℤ → Type 0
InRange n = pos_part n + neg_part n ≤ unit_bound

pub opposite-InRange : (n : ℤ) → InRange n → InRange (pos 0 -ℤ n)
unfolding ◌-ℤ◌
opposite-InRange n h = ground arith

-- Taking n away leaves less than nothing exactly when b is below n.
pub ltb_ℤ-opposite : (b n : ℤ) → ltb_ℤ (b +ℤ (pos 0 -ℤ n)) (pos 0) ≡ ltb_ℤ b n
unfolding ◌+ℤ◌ ◌-ℤ◌
ltb_ℤ-opposite b n = ground arith

pub ne_zero_of_pos : (n : ℤ) → ltb_ℤ (pos 0) n ≡ true → n ≢ pos 0
ne_zero_of_pos n h = ground arith

pub record Exact (p : Platform) : Type 0 where
  -- the float64 nearest to n * 10^-8, and the decimal n * 10^-8
  pub float : ℤ → p.Float
  pub decimal : ℤ → p.Decimal
  pub printed : (n : ℤ) → InRange n → p.parse_decimal128 (p.sprintf_8f (float n)) ≡ ok (decimal n)
  pub read : (n : ℤ) → InRange n → p.parse_float (p.decimal_string (decimal n)) ≡ ok (float n)
  -- NewDecimal128(0, 0) is the decimal zero
  pub read_zero : p.parse_float (p.decimal_string (p.new_decimal128 0 0)) ≡ ok (float (pos 0))
  pub printed_sum :
      (a b : ℤ)
      → InRange a
      → InRange b
      → InRange (a +ℤ b)
      → p.parse_decimal128 (p.sprintf_8f (p.add (float a) (float b))) ≡ ok (decimal (a +ℤ b))
  -- zero is left out: -0.0 prints with a sign
  pub negated : (n : ℤ) → InRange n → n ≢ pos 0 → p.neg (float n) ≡ float (pos 0 -ℤ n)
  pub zero_float : p.nought ≡ float (pos 0)
  pub ordered : (a b : ℤ) → InRange a → InRange b → p.lt (float a) (float b) ≡ ltb_ℤ a b
  pub weakly : (a b : ℤ) → InRange a → InRange b → p.le (float a) (float b) ≡ leb_ℤ a b
  -- Equal amounts differ by nothing, amounts two units apart by more than 10^-8. One unit apart may
  -- round to either side of it.
  pub near : (a : ℤ) → InRange a → p.lt (p.abs (p.sub (float a) (float a))) p.ten_to_minus_8 ≡ true
  pub far :
      (a b : ℤ)
      → InRange a
      → InRange b
      → ltb_ℤ (a +ℤ pos 1) b ≡ true
      → (p.lt (p.abs (p.sub (float a) (float b))) p.ten_to_minus_8 ≡ false)
        × (p.lt (p.abs (p.sub (float b) (float a))) p.ten_to_minus_8 ≡ false)

abbrev abs_ℤ : ℤ → ℤ
abs_ℤ n = pos (pos_part n + neg_part n)

-- The laws can be met: amounts counted in units, with no rounding at all.
abbrev pub units : Platform
units = record {
  Float = ℤ;
  Decimal = ℤ;
  Numeral = ℤ;
  sprintf_8f = λ n. n;
  parse_float = λ n. ok n;
  rejected_float = λ n. pos 0;
  parse_decimal128 = λ n. ok n;
  decimal_string = λ n. n;
  new_decimal128 = λ h l. pos l;
  add = ◌+ℤ◌;
  sub = ◌-ℤ◌;
  neg = λ n. pos 0 -ℤ n;
  abs = abs_ℤ;
  lt = ltb_ℤ;
  le = leb_ℤ;
  is_inf = λ n. false;
  is_nan = λ n. false;
  nought = pos 0;
  ten_to_minus_8 = pos 1;
  ten_to_15 = pos (10 ^ 23);
  minus_ten_to_15 = negsuc (10 ^ 23 - 1);
  upper_beyond = λ s. s;
  lower_beyond = λ s. s;
  fold_beyond = str_eq;
}

pub units-near : (a : ℤ) → ltb_ℤ (abs_ℤ (a -ℤ a)) (pos 1) ≡ true
unfolding ◌-ℤ◌
units-near a = ground arith

pub units-far :
    (a b : ℤ)
    → ltb_ℤ (a +ℤ pos 1) b ≡ true
    → (ltb_ℤ (abs_ℤ (a -ℤ b)) (pos 1) ≡ false) × (ltb_ℤ (abs_ℤ (b -ℤ a)) (pos 1) ≡ false)
unfolding ◌+ℤ◌ ◌-ℤ◌
units-far a b h = ground arith

abbrev pub units_exact : Exact units
units_exact = record {
  float = λ n. n;
  decimal = λ n. n;
  printed = λ n h. refl;
  read = λ n h. refl;
  read_zero = refl;
  printed_sum = λ a b ha hb hc. refl;
  negated = λ n h ne. refl;
  zero_float = refl;
  ordered = λ a b ha hb. refl;
  weakly = λ a b ha hb. refl;
  near = λ a h. units-near a;
  far = λ a b ha hb h. units-far a b h;
}
