-- ===== src/Mongo/Repository/Steps.antt =====
-- What the ends of the adapter's methods return.
use hexagonal_queue.Prelude.{
  ℕ, String, ◌≡◌, ◌∙◌, refl, ◌≢◌, Bool, false, Option, none, some, List, [], ◌∷◌, Result, ok, err,
  keep, find_first, arith, ◌==◌, ok-injective, map, ap, Result-cases, inl, inr,
}
use mathlib.Core.Path.{subst}
use hexagonal_queue.Operation.{pure, and_then, rewrap}
use hexagonal_queue.Mongo.Driver.{Found, document, no_documents, failed, Cursor}
use hexagonal_queue.Mongo.Adapter.{optional, or_default, need_match, decode_all}

-- Where nothing passes the test, there is no first that does.
pub find_first-keep :
    {A : Type 0} (f : A → Bool) (xs : List A) → keep f xs ≡ [] → find_first f xs ≡ none
find_first-keep f [] h = refl
find_first-keep f (x ∷ xs) h = ground (arith, find_first-keep f xs)

module _ {S A : Type 0} (P : Option A → Type 0) (message : String) where
  pub optional-ok :
      (x : Found A × S) (o : Option A)
      → ((a : A) → x.0 ≡ document a → P (some a))
      → (x.0 ≡ no_documents → P none)
      → (optional message x).0 ≡ ok o
      → P o
  optional-ok (document a, s) o found missing e = subst P (ok-injective e) (found a refl)
  optional-ok (no_documents, s) o found missing e = subst P (ok-injective e) (missing refl)
  optional-ok (failed _, s) o found missing e = cc

module _ {S A : Type 0} (P : A → Type 0) (message : String) (d : A) where
  pub or_default-ok :
      (x : Found A × S) (a : A)
      → ((a : A) → x.0 ≡ document a → P a)
      → (x.0 ≡ no_documents → P d)
      → (or_default d message x).0 ≡ ok a
      → P a
  or_default-ok (document a', s) a found missing e = subst P (ok-injective e) (found a' refl)
  or_default-ok (no_documents, s) a found missing e = subst P (ok-injective e) (missing refl)
  or_default-ok (failed _, s) a found missing e = cc

-- A cursor that was decoded to its end.
pub decode_all-ok :
    {A : Type 0} (message : String) (docs : List (Result A)) (xs : List A)
    → decode_all message docs ≡ ok xs
    → docs ≡ map ok xs
decode_all-ok message [] xs h = ap (map ok) (ok-injective h)
decode_all-ok message (err e ∷ docs) xs h = cc
decode_all-ok message (ok a ∷ docs) xs h = elim (Result-cases (decode_all message docs)) [
  | inl (ys, q) ↦
      ap (λ l. ok a ∷ l) (decode_all-ok message docs ys q) ∙ ap (map ok) (ok-injective (rw q at h))
  | inr (e, q) ↦ let bad = rw q at h in cc
]

module _ {S A : Type 0} (message undecoded : String) (P : Type 0) (xs : List A) where
  pub decoded-ok :
      (x : Result (Cursor A) × S)
      → ((cursor : Cursor A) → x.0 ≡ ok cursor → cursor.yielded ≡ map ok xs → P)
      → (and_then (rewrap message x) (λ cursor s. (decode_all undecoded cursor.yielded, s))).0
        ≡ ok xs
      → P
  decoded-ok (ok cursor, s) found e =
      found cursor refl (decode_all-ok undecoded cursor.yielded xs e)
  decoded-ok (err _, s) found e = cc

-- The end of CreateWalletStatement.
module _ {S A : Type 0} (message : String) (a : A) where
  pub saved-ok :
      (x : Result (Unit {0}) × S) (r : A)
      → (and_then (rewrap message x) (λ _. pure a)).0 ≡ ok r
      → (x.0 ≡ ok tt) × ((and_then (rewrap message x) (λ _. pure a)).1 ≡ x.1)
  saved-ok (ok _, s) r e = (refl, refl)
  saved-ok (err _, s) r e = cc

-- The end of an update.
module _ {S : Type 0} (message missing : String) where
  pub matched-ok :
      (x : Result ℕ × S)
      → (and_then (rewrap message x) (need_match missing)).0 ≡ ok tt
      → (n : ℕ) × (x.0 ≡ ok n)
        × (n ≢ 0)
        × ((and_then (rewrap message x) (need_match missing)).1 ≡ x.1)
  matched-ok (ok n, s) e = (n, refl, (λ z. ground arith), refl)
  matched-ok (err _, s) e = cc

module _ {S A : Type 0} (message : String) where
  pub rewrap_state : (x : Result A × S) → (rewrap message x).1 ≡ x.1
  rewrap_state (ok _, s) = refl
  rewrap_state (err _, s) = refl

  pub rewrapped-ok :
      (x : Result A × S) (a : A)
      → (rewrap message x).0 ≡ ok a
      → (x.0 ≡ ok a) × ((rewrap message x).1 ≡ x.1)
  rewrapped-ok (ok _, s) a e = (e, refl)
  rewrapped-ok (err _, s) a e = cc

pub isnt_0 : (n : ℕ) → n ≢ 0 → (n == 0) ≡ false
isnt_0 n h = ground arith
