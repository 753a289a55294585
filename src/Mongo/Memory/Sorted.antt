-- ===== src/Mongo/Memory/Sorted.antt =====
-- A list from the largest key down, cut to a limit.
use hexagonal_queue.Prelude.{
  ℕ, zero, suc, ◌≤◌, ◌≡◌, refl, sym, ap, ◌⊎◌, inl, inr, List, [], ◌∷◌, ◌++◌, All, length, take,
  append_nil, Bool-cases, leb, if◌then◌else◌, arith, Descending, Newest, Leading,
}
use mathlib.Core.Path.{subst}
use mathlib.Core.List.{Perm}
use mathlib.Core.List.Perm

-- A limit of 0 is no limit.
abbrev pub limited : {A : Type 0} → ℕ → List A → List A
limited zero xs = xs
limited (suc n) xs = take (suc n) xs

module _ {A : Type 0} (key : A → ℕ) where
  unfoldable pub insert : A → List A → List A
  insert x [] = x ∷ []
  insert x (y ∷ ys) =
      let rest = insert x ys in if leb (key y) (key x) then x ∷ (y ∷ ys) else y ∷ rest

  unfoldable pub sort : List A → List A
  sort [] = []
  sort (x ∷ xs) = insert x (sort xs)

  insert-perm : (x : A) (ys : List A) → Perm (insert x ys) (x ∷ ys)
  unfolding insert
  insert-perm x [] = Perm.refl (x ∷ [])
  insert-perm x (y ∷ ys) = elim (Bool-cases (leb (key y) (key x))) [
    | inl h ↦ rw h (Perm.refl (x ∷ (y ∷ ys)))
    | inr h ↦ rw h (Perm.trans (Perm.cons y (insert-perm x ys)) (Perm.swap x y ys))
  ]

  sort-perm : (xs : List A) → Perm (sort xs) xs
  unfolding sort
  sort-perm [] = Perm.refl []
  sort-perm (x ∷ xs) = Perm.trans (insert-perm x (sort xs)) (Perm.cons x (sort-perm xs))

  All-insert : (P : A → Type 0) (x : A) (ys : List A) → P x → All P ys → All P (insert x ys)
  unfolding insert
  All-insert P x [] here all = (here, tt)
  All-insert P x (y ∷ ys) here (first, all) = elim (Bool-cases (leb (key y) (key x))) [
    | inl h ↦ rw h (here, (first, all))
    | inr h ↦ rw h (first, All-insert P x ys here all)
  ]

  All-mono : (n m : ℕ) (xs : List A) → n ≤ m → All (λ x. key x ≤ n) xs → All (λ x. key x ≤ m) xs
  All-mono n m [] h all = tt
  All-mono n m (x ∷ xs) h (here, all) = (omega (arith, h, here), All-mono n m xs h all)

  insert-Descending : (x : A) (ys : List A) → Descending key ys → Descending key (insert x ys)
  unfolding insert
  insert-Descending x [] down = (tt, tt)
  insert-Descending x (y ∷ ys) (below, down) = elim (Bool-cases (leb (key y) (key x))) [
    | inl h ↦
        let above : key y ≤ key x = ground arith in
        rw h ((above, All-mono (key y) (key x) ys above below), (below, down))
    | inr h ↦
        let above : key x ≤ key y = ground arith in
        rw h (All-insert (λ z. key z ≤ key y) x ys above below, insert-Descending x ys down)
  ]

  sort-Descending : (xs : List A) → Descending key (sort xs)
  unfolding sort
  sort-Descending [] = tt
  sort-Descending (x ∷ xs) = insert-Descending x (sort xs) (sort-Descending xs)

  abbrev drop : ℕ → List A → List A
  drop zero xs = xs
  drop (suc n) [] = []
  drop (suc n) (x ∷ xs) = drop n xs

  take-drop : (n : ℕ) (xs : List A) → take n xs ++ drop n xs ≡ xs
  take-drop zero xs = refl
  take-drop (suc n) [] = refl
  take-drop (suc n) (x ∷ xs) = ap (λ l. x ∷ l) (take-drop n xs)

  drop-cases :
      (n : ℕ) (xs : List A)
      → ((drop n xs ≡ []) × (length (take n xs) ≤ n)) ⊎ (length (take n xs) ≡ n)
  drop-cases zero xs = inr refl
  drop-cases (suc n) [] = inl (refl, omega arith)
  drop-cases (suc n) (x ∷ xs) = elim (drop-cases n xs) [
    | inl (none, few) ↦ inl (none, omega (arith, few))
    | inr full ↦ inr (ap (λ k. suc k) full)
  ]

  pub sort-Newest : (n : ℕ) (xs : List A) → Newest key n (limited n (sort xs)) xs
  sort-Newest zero xs =
      let whole = sym (append_nil (sort xs)) in
      (
        [],
        subst (λ l. Perm l xs) whole (sort-perm xs),
        subst (Descending key) whole (sort-Descending xs),
        inl (refl, inl refl),
      )
  sort-Newest (suc n) xs =
      let whole = sym (take-drop (suc n) (sort xs)) in
      (
        drop (suc n) (sort xs),
        subst (λ l. Perm l xs) whole (sort-perm xs),
        subst (Descending key) whole (sort-Descending xs),
        elim (drop-cases (suc n) (sort xs)) [
          | inl (none, few) ↦ inl (none, inr few)
          | inr full ↦ inr (full, omega arith)
        ],
      )

  -- A cursor that has yielded nothing.
  pub sort-Leading : (n : ℕ) (xs : List A) → Leading key n [] xs
  sort-Leading n xs = (sort xs, sort-perm xs, sort-Descending xs, inr (omega arith))
