-- ===== src/Operation.antt =====
-- Steps that can fail, one after another: `if err != nil { return ..., err }` between them.
pub mod Lands
use hexagonal_queue.Prelude.{String, Result, ok, err, Error, wrap}
use hexagonal_queue.Ports.{Operation}

module _ {S : Type 0} where
  abbrev pub pure : {A : Type 0} → A → Operation S A
  pure a s = (ok a, s)

  abbrev pub fail : {A : Type 0} → Error → Operation S A
  fail e s = (err e, s)

  abbrev pub and_then : {A B : Type 0} → Result A × S → (A → Operation S B) → Result B × S
  and_then (ok a, s) f = f a s
  and_then (err e, s) f = (err e, s)

  infixl 5 ◌>>=◌ ◌>>◌
  abbrev pub ◌>>=◌ : {A B : Type 0} → Operation S A → (A → Operation S B) → Operation S B
  ◌>>=◌ m f s = and_then (m s) f

  abbrev pub ◌>>◌ : {A B : Type 0} → Operation S A → Operation S B → Operation S B
  m >> k = m >>= λ _. k

  abbrev pub rewrap : {A : Type 0} → String → Result A × S → Result A × S
  rewrap message (ok a, s) = (ok a, s)
  rewrap message (err e, s) = (err (wrap message e), s)

  -- `fmt.Errorf("message: %w", err)` around the error of a step.
  abbrev pub wrapping : {A : Type 0} → String → Operation S A → Operation S A
  wrapping message m s = rewrap message (m s)

  -- A step that cannot fail.
  abbrev pub run : {A : Type 0} → (S → A × S) → Operation S A
  run f s = let (a, s') = f s in (ok a, s')

  -- A step whose error is dropped.
  abbrev pub attempt : {A : Type 0} → Operation S A → Operation S (Unit {0})
  attempt m s = (ok tt, (m s).1)
