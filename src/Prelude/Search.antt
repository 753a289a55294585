-- ===== src/Prelude/Search.antt =====
-- Searches in a list that was changed or extended.
use mathlib.Core.Path.{◌≡◌, refl}
use mathlib.Core.Bool.{Bool, true, false}
use mathlib.Core.List.{List, [], ◌∷◌, ◌++◌}
use mathlib.Core.Option.{none, some}
use native.Mathlib.Omega.{arith}
use hexagonal_queue.Prelude.Lists.{find_first, keep, change_first}

module _ {ℓ} {A : Type ℓ} where
  pub find_first-passes :
      (f : A → Bool) (xs : List A) (a : A) → find_first f xs ≡ some a → f a ≡ true
  find_first-passes f [] a h = cc
  find_first-passes f (x ∷ xs) a h = ground (arith, find_first-passes f xs a)

  -- The changed element is found again, by any test that it still passes and that says no more.
  pub find_first-change_first :
      (key active : A → Bool) (f : A → A) (xs : List A) (a : A)
      → ((x : A) → key x ≡ false → active x ≡ false)
      → active (f a) ≡ true
      → find_first key xs ≡ some a
      → find_first active (change_first key f xs) ≡ some (f a)
  find_first-change_first key active f [] a le up h = cc
  find_first-change_first key active f (x ∷ xs) a le up h =
      ground (arith, le x, find_first-change_first key active f xs a le up)

  -- A change is not seen by a test that the changed elements fail.
  pub find_first-change_other :
      (key other : A → Bool) (f : A → A) (xs : List A)
      → ((x : A) → key x ≡ true → other x ≡ false)
      → ((x : A) → key x ≡ true → other (f x) ≡ false)
      → find_first other (change_first key f xs) ≡ find_first other xs
  find_first-change_other key other f [] before after = refl
  find_first-change_other key other f (x ∷ xs) before after =
      ground (arith, before x, after x, find_first-change_other key other f xs before after)

  pub keep-append : (f : A → Bool) (xs ys : List A) → keep f (xs ++ ys) ≡ keep f xs ++ keep f ys
  keep-append f [] ys = refl
  keep-append f (x ∷ xs) ys = ground (arith, keep-append f xs ys)

  -- What is found stays first in a longer list.
  pub find_first-append :
      (f : A → Bool) (xs ys : List A) (a : A)
      → find_first f xs ≡ some a
      → find_first f (xs ++ ys) ≡ some a
  find_first-append f [] ys a h = cc
  find_first-append f (x ∷ xs) ys a h = ground (arith, find_first-append f xs ys a)

  -- The first element that passes a test is the first that passes one that says more, if it does.
  pub find_first-narrow :
      (key active : A → Bool) (xs : List A) (a : A)
      → ((x : A) → key x ≡ false → active x ≡ false)
      → active a ≡ true
      → find_first key xs ≡ some a
      → find_first active xs ≡ some a
  find_first-narrow key active [] a le up h = cc
  find_first-narrow key active (x ∷ xs) a le up h =
      ground (arith, le x, find_first-narrow key active xs a le up)

  pub find_first-missed :
      (f : A → Bool) (xs : List A) (a : A)
      → find_first f xs ≡ none
      → f a ≡ true
      → find_first f (xs ++ (a ∷ [])) ≡ some a
  find_first-missed f [] a h up = ground arith
  find_first-missed f (x ∷ xs) a h up = ground (arith, find_first-missed f xs a)
