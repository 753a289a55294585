-- ===== src/Operation/Lands.antt =====
-- A condition on the state in which an operation ends, whether it succeeds or fails.
use hexagonal_queue.Prelude.{String, Result, ok, err}
use hexagonal_queue.Ports.{Operation}
use hexagonal_queue.Operation.{and_then, rewrap}

module _ {S A : Type 0} where
  unfoldable pub Lands : (S → Type 0) → Result A × S → Type 0
  Lands P x = P x.1

  pub any-Lands : (P : S → Type 0) (x : Result A × S) → P x.1 → Lands P x
  unfolding Lands
  any-Lands P x h = h

  pub Lands-out : (P : S → Type 0) (x : Result A × S) → Lands P x → P x.1
  unfolding Lands
  Lands-out P x h = h

  pub rewrap-Lands : (P : S → Type 0) (m : String) (x : Result A × S) → P x.1 → Lands P (rewrap m x)
  unfolding Lands
  rewrap-Lands P m (ok a, s) h = h
  rewrap-Lands P m (err e, s) h = h

module _ {S A B : Type 0} where
  pub and_then-Lands :
      (P : S → Type 0) (x : Result A × S) (f : A → Operation S B)
      → ((a : A) → Lands P (f a x.1))
      → P x.1
      → Lands P (and_then x f)
  unfolding Lands
  and_then-Lands P (ok a, s) f good bad = good a
  and_then-Lands P (err e, s) f good bad = bad

  pub wrapping-Lands :
      (P : S → Type 0) (m : String) (x : Result A × S) (f : A → Operation S B)
      → ((a : A) → Lands P (f a x.1))
      → P x.1
      → Lands P (and_then (rewrap m x) f)
  unfolding Lands
  wrapping-Lands P m (ok a, s) f good bad = good a
  wrapping-Lands P m (err e, s) f good bad = bad
