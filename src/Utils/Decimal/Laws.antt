-- ===== src/Utils/Decimal/Laws.antt =====
-- Decimal128 arithmetic through float64 is exact on amounts of up to 10^15 units.
use hexagonal_queue.Prelude.{◌≡◌, true, false, ok}
use hexagonal_queue.Prelude.Int.{ℤ, pos, ◌+ℤ◌, ltb_ℤ}
use hexagonal_queue.Platform.{Platform}
use hexagonal_queue.Platform.Exact.{Exact, InRange}
use hexagonal_queue.Utils.Decimal.{sum_decimal128, compare_decimal128}

module _ (p : Platform) (e : Exact p) where
  -- For two amounts and their sum within 10^15 units, SumDecimal128 returns the exact sum.
  pub sum_decimal128_exact :
      (a b : ℤ)
      → InRange a
      → InRange b
      → InRange (a +ℤ b)
      → sum_decimal128 p (e.decimal a) (e.decimal b) ≡ ok (e.decimal (a +ℤ b))
  unfolding sum_decimal128
  sum_decimal128_exact a b ha hb hc = rw (e.read a ha, e.read b hb) (e.printed_sum a b ha hb hc)

  pub compare_decimal128_self :
      (a : ℤ) → InRange a → compare_decimal128 p (e.decimal a) (e.decimal a) ≡ ok true
  unfolding compare_decimal128
  compare_decimal128_self a ha = rw (e.read a ha, e.near a ha)

  -- Within 10^15 units, CompareDecimal128 takes an amount for equal to itself and tells amounts
  -- that are two units or more apart from each other, in either order.
  compare_decimal128_exact :
      (a b : ℤ)
      → InRange a
      → InRange b
      → ltb_ℤ (a +ℤ pos 1) b ≡ true
      → (compare_decimal128 p (e.decimal a) (e.decimal a) ≡ ok true)
        × (compare_decimal128 p (e.decimal a) (e.decimal b) ≡ ok false)
        × (compare_decimal128 p (e.decimal b) (e.decimal a) ≡ ok false)
  unfolding compare_decimal128
  compare_decimal128_exact a b ha hb apart = (
    compare_decimal128_self a ha,
    rw (e.read a ha, e.read b hb, (e.far a b ha hb apart).0),
    rw (e.read a ha, e.read b hb, (e.far a b ha hb apart).1),
  )
