-- ===== src/Flow.antt =====
-- A method of the use cases: it goes on with a value, returns a response early, or panics.
pub mod Ends
use hexagonal_queue.Prelude.{ℕ, String, Option, none, some, Result, ok, err, Error}
use hexagonal_queue.Platform.{Platform}
use hexagonal_queue.Models.{TransactionResponse, nil}
use hexagonal_queue.Ports.{Operation}

pub data Flow (p : Platform) (A : Type 0) : Type 0 where
  next : A → Flow p A
  reply : TransactionResponse p → Flow p A
  panic : Flow p A

abbrev pub Action : Platform → Type 0 → Type 0 → Type 0
Action p S A = S → Flow p A × S

module _ {p : Platform} {S : Type 0} where
  abbrev pub pure : {A : Type 0} → A → Action p S A
  pure a s = (next a, s)

  abbrev pub and_then : {A B : Type 0} → Flow p A × S → (A → Action p S B) → Flow p B × S
  and_then (next a, s) f = f a s
  and_then (reply r, s) f = (reply r, s)
  and_then (panic, s) f = (panic, s)

  infixl 5 ◌>>=◌ ◌>>◌
  abbrev pub ◌>>=◌ : {A B : Type 0} → Action p S A → (A → Action p S B) → Action p S B
  ◌>>=◌ m f s = and_then (m s) f

  abbrev pub ◌>>◌ : {A B : Type 0} → Action p S A → Action p S B → Action p S B
  m >> k = m >>= λ _. k

  abbrev pub returned : Flow p (TransactionResponse p) × S → Flow p (TransactionResponse p) × S
  returned (next r, s) = (next r, s)
  returned (reply r, s) = (next r, s)
  returned (panic, s) = (panic, s)

  -- The call of a method: its early returns are its results.
  abbrev pub call : Action p S (TransactionResponse p) → Action p S (TransactionResponse p)
  call m s = returned (m s)

  abbrev pub or_reply : {A : Type 0} → Result A × S → (Error → TransactionResponse p) → Flow p A × S
  or_reply (ok a, s) failure = (next a, s)
  or_reply (err e, s) failure = (reply (failure e), s)

  -- `x, err := op; if err != nil { return failure }`
  abbrev pub try : {A : Type 0} → Operation S A → (Error → TransactionResponse p) → Action p S A
  try op failure s = or_reply (op s) failure

  -- The same for a function of the service.
  abbrev pub check : {A : Type 0} → Result A → (Error → TransactionResponse p) → Action p S A
  check r failure s = or_reply (r, s) failure

  -- `*x`
  abbrev pub deref : {A : Type 0} → Option A → Action p S A
  deref none s = (panic, s)
  deref (some a) s = (next a, s)

  -- A call that cannot fail.
  abbrev pub run : {A : Type 0} → (S → A × S) → Action p S A
  run f s = let (a, s') = f s in (next a, s')

  -- A call whose result is thrown away.
  abbrev pub attempt : {A : Type 0} → Operation S A → Action p S (Unit {0})
  attempt op s = (next tt, (op s).1)

-- A response with no data.
abbrev pub response : {p : Platform} → ℕ → String → TransactionResponse p
response status message = record { status = status; message = message; payload = nil }
