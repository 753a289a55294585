-- ===== src/Mongo/Memory/Last.antt =====
-- The document with the largest key.
use hexagonal_queue.Prelude.{
  ℕ, ◌≤◌, ◌≡◌, refl, inl, inr, Bool, true, false, List, [], ◌∷◌, All, leb, if◌then◌else◌, arith,
}
use hexagonal_queue.Ports.Store.{Elem}

module _ {A : Type 0} (key : A → ℕ) where
  unfoldable pub latest : A → List A → A
  latest x [] = x
  latest x (y ∷ ys) = let best = latest y ys in if leb (key best) (key x) then x else best

  abbrev IsLatest : A → List A → Type 0
  IsLatest best xs = Elem best xs × All (λ y. key y ≤ key best) xs

  All-mono : (n m : ℕ) (xs : List A) → n ≤ m → All (λ x. key x ≤ n) xs → All (λ x. key x ≤ m) xs
  All-mono n m [] h all = tt
  All-mono n m (x ∷ xs) h all = (omega (arith, h, all.0), All-mono n m xs h all.1)

  step :
      (x best : A) (xs : List A) (b : Bool)
      → leb (key best) (key x) ≡ b
      → IsLatest best xs
      → IsLatest (if b then x else best) (x ∷ xs)
  step x best xs true h l =
      (inl refl, (omega arith, All-mono (key best) (key x) xs (ground arith) l.1))
  step x best xs false h l = (inr l.0, (ground arith, l.1))

  pub latest-last :
      (x : A) (xs : List A)
      → Elem (latest x xs) (x ∷ xs) × All (λ y. key y ≤ key (latest x xs)) (x ∷ xs)
  unfolding latest
  latest-last x [] = (inl refl, (omega arith, tt))
  latest-last x (y ∷ ys) =
      step x (latest y ys) (y ∷ ys) (leb (key (latest y ys)) (key x)) refl (latest-last y ys)
