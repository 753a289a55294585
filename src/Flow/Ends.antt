-- ===== src/Flow/Ends.antt =====
-- How a method ends: a condition on the value that it goes on with, one on an early response and one
-- on a panic, each with the state reached. A rule for each way to write a step.
use hexagonal_queue.Prelude.{ap, ◌≡◌, refl, Option, none, some, Result, ok, err, Error}
use hexagonal_queue.Platform.{Platform}
use hexagonal_queue.Models.{TransactionResponse}
use hexagonal_queue.Flow.{Flow, next, reply, panic, Action, and_then, returned, or_reply, deref}

module _ {p : Platform} {S A : Type 0} where
  unfoldable pub Ends :
      (A → S → Type 0) → (TransactionResponse p → S → Type 0) → (S → Type 0) → Flow p A × S → Type 0
  Ends Q R K (next a, s) = Q a s
  Ends Q R K (reply r, s) = R r s
  Ends Q R K (panic, s) = K s

  pub next-Ends :
      (Q : A → S → Type 0) (R : TransactionResponse p → S → Type 0) (K : S → Type 0) (a : A) (s : S)
      → Q a s
      → Ends Q R K (next a, s)
  unfolding Ends
  next-Ends Q R K a s h = h

  pub Ends-mono :
      (Q Q' : A → S → Type 0) (R R' : TransactionResponse p → S → Type 0) (K K' : S → Type 0)
      (x : Flow p A × S)
      → ((a : A) (s : S) → Q a s → Q' a s)
      → ((r : TransactionResponse p) (s : S) → R r s → R' r s)
      → ((s : S) → K s → K' s)
      → Ends Q R K x
      → Ends Q' R' K' x
  unfolding Ends
  Ends-mono Q Q' R R' K K' (next a, s) f g k h = f a s h
  Ends-mono Q Q' R R' K K' (reply r, s) f g k h = g r s h
  Ends-mono Q Q' R R' K K' (panic, s) f g k h = k s h

  pub or_reply-Ends :
      (Q : A → S → Type 0) (R : TransactionResponse p → S → Type 0) (K : S → Type 0)
      (failure : Error → TransactionResponse p) (x : Result A × S)
      → ((a : A) → x.0 ≡ ok a → Q a x.1)
      → ((e : Error) → x.0 ≡ err e → R (failure e) x.1)
      → Ends Q R K (or_reply x failure)
  unfolding Ends
  or_reply-Ends Q R K failure (ok a, s) good bad = good a refl
  or_reply-Ends Q R K failure (err e, s) good bad = bad e refl

module _ {p : Platform} {S A B : Type 0} where
  pub and_then-Ends :
      (Q : B → S → Type 0) (R : TransactionResponse p → S → Type 0) (K : S → Type 0)
      (f : A → Action p S B) (x : Flow p A × S)
      → Ends (λ a s. Ends Q R K (f a s)) R K x
      → Ends Q R K (and_then x f)
  unfolding Ends
  and_then-Ends Q R K f (next a, s) h = h
  and_then-Ends Q R K f (reply r, s) h = h
  and_then-Ends Q R K f (panic, s) h = h

  -- `x ← try op failure` before the rest of a method.
  pub try-Ends :
      (Q : B → S → Type 0) (R : TransactionResponse p → S → Type 0) (K : S → Type 0)
      (failure : Error → TransactionResponse p) (f : A → Action p S B) (x : Result A × S)
      → ((a : A) → x.0 ≡ ok a → Ends Q R K (f a x.1))
      → ((e : Error) → x.0 ≡ err e → R (failure e) x.1)
      → Ends Q R K (and_then (or_reply x failure) f)
  unfolding Ends
  try-Ends Q R K failure f (ok a, s) good bad = good a refl
  try-Ends Q R K failure f (err e, s) good bad = bad e refl

  pub deref-Ends :
      (Q : B → S → Type 0) (R : TransactionResponse p → S → Type 0) (K : S → Type 0)
      (f : A → Action p S B) (o : Option A) (s : S)
      → ((a : A) → o ≡ some a → Ends Q R K (f a s))
      → (o ≡ none → K s)
      → Ends Q R K (and_then (deref o s) f)
  unfolding Ends
  deref-Ends Q R K f none s good bad = bad refl
  deref-Ends Q R K f (some a) s good bad = good a refl

module _ {p : Platform} {S : Type 0} where
  -- The call of a method has no early response left.
  pub returned-Ends :
      (Q R : TransactionResponse p → S → Type 0) (K : S → Type 0)
      (x : Flow p (TransactionResponse p) × S)
      → Ends Q Q K x
      → Ends Q R K (returned x)
  unfolding Ends
  returned-Ends Q R K (next r, s) h = h
  returned-Ends Q R K (reply r, s) h = h
  returned-Ends Q R K (panic, s) h = h

pub and_then-panic :
    {p : Platform} {S A B : Type 0} (x : Flow p A × S) (f : A → Action p S B)
    → x.0 ≡ panic
    → (and_then x f).0 ≡ panic
and_then-panic (next a, s) f h = cc
and_then-panic (reply r, s) f h = cc
and_then-panic (panic, s) f h = refl

next-injective :
    {p : Platform} {A : Type 0} {a b : A} → ◌≡◌ {A = Flow p A} (next a) (next b) → a ≡ b
next-injective e = cc

pub and_then-next :
    {p : Platform} {S A B : Type 0} (x : Flow p A × S) (a : A) (f : A → Action p S B)
    → x.0 ≡ next a
    → and_then x f ≡ f a x.1
and_then-next (next a', s) a f h = ap (λ a. f a s) (next-injective h)
and_then-next (reply r, s) a f h = cc
and_then-next (panic, s) a f h = cc
