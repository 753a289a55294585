-- ===== src/Prelude/Ranks.antt =====
-- The elements with the largest keys, from the largest down.
use Prim.Native.Nat.{ℕ, ◌≤◌}
use mathlib.Core.Path.{◌≡◌}
use mathlib.Core.Logic.{◌⊎◌, inl, inr}
use mathlib.Core.List.{List, [], ◌∷◌, ◌++◌, Perm}
use native.Mathlib.Omega.{arith}
use hexagonal_queue.Prelude.Lists.{length, All}

module _ {A : Type 0} (key : A → ℕ) where
  abbrev pub Descending : List A → Type 0
  Descending [] = Unit
  Descending (x ∷ xs) = All (λ y. key y ≤ key x) xs × Descending xs

  -- `found` are the `n` elements of `xs` with the largest keys, or all if there are no more; with `n`
  -- of 0, all.
  abbrev pub Newest : ℕ → List A → List A → Type 0
  Newest n found xs =
      (rest : List A) × Perm (found ++ rest) xs
      × Descending (found ++ rest)
      × (((rest ≡ []) × ((n ≡ 0) ⊎ (length found ≤ n))) ⊎ ((length found ≡ n) × (1 ≤ n)))

  -- `found` are elements of `xs` with the largest keys, and with `n` above 0 at most `n` of them.
  abbrev pub Leading : ℕ → List A → List A → Type 0
  Leading n found xs =
      (rest : List A) × Perm (found ++ rest) xs
      × Descending (found ++ rest)
      × ((n ≡ 0) ⊎ (length found ≤ n))

  pub Newest-Leading : (n : ℕ) (found xs : List A) → Newest n found xs → Leading n found xs
  Newest-Leading n found xs (rest, perm, down, inl (none_left, few)) = (rest, perm, down, few)
  Newest-Leading n found xs (rest, perm, down, inr (full, some)) =
      (rest, perm, down, inr (omega arith))
