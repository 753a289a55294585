-- ===== src/Mongo/Repository/Statements/Keeping.antt =====
-- Lists of which a test keeps some elements, and the test for an id among some.
use hexagonal_queue.Prelude.{
  ℕ, ◌≡◌, refl, ap, Bool, true, false, not, ◌&&◌, List, [], ◌∷◌, ◌++◌, map, keep, filter, ◌==◌,
  Bool-cases, inl, inr, arith,
}
use mathlib.Core.Path.{subst}
use mathlib.Core.Bool.{Bool-set}
use mathlib.Core.List.{Mem, Mem-prop, Perm, mem-cons, mem-cons_self, mem-cons_of_mem, not-mem-nil}
use mathlib.Core.List.Perm
use mathlib.Core.Logic.Or
use hexagonal_queue.Mongo.Adapter.{id_in}

true_not_false : {A : Type 0} (f : A → Bool) (x y : A) → f x ≡ true → f y ≡ false → x ≡ y → ⊥
true_not_false f x y h lost e = let same = ap f e in cc

module _ {A : Type 0} (f : A → Bool) where
  pub keep-all : (xs : List A) → ((x : A) → Mem x xs → f x ≡ true) → keep f xs ≡ xs
  keep-all [] all = refl
  keep-all (x ∷ xs) all =
      rw (all x mem-cons_self) (ap (λ l. x ∷ l) (keep-all xs (λ y m. all y (mem-cons_of_mem x m))))

  pub keep-mem : (x : A) (xs : List A) → Mem x xs → f x ≡ true → Mem x (keep f xs)
  keep-mem x [] m h = absurd (not-mem-nil m)
  keep-mem x (y ∷ ys) m h = elim (Bool-cases (f y)) [
    | inl kept ↦ rw kept (
        Or.elim Mem-prop (mem-cons.0 m) (λ e. subst (λ z. Mem x (z ∷ keep f ys)) e mem-cons_self)
          (λ later. mem-cons_of_mem y (keep-mem x ys later h)))
    | inr lost ↦ rw lost (
        Or.elim Mem-prop (mem-cons.0 m) (λ e. absurd (true_not_false f x y h lost e))
          (λ later. keep-mem x ys later h))
  ]

module _ {A : Type 0} (k g : A → Bool) where
  pub keep-keep_own :
      (xs : List A) → keep k (keep (λ x. not (k x && not (g x))) xs) ≡ keep g (keep k xs)
  keep-keep_own [] = refl
  keep-keep_own (x ∷ xs) = ground (arith, keep-keep_own xs)

  pub keep-keep_other :
      (xs : List A)
      → keep (λ x. not (k x)) (keep (λ x. not (k x && not (g x))) xs) ≡ keep (λ x. not (k x)) xs
  keep-keep_other [] = refl
  keep-keep_other (x ∷ xs) = ground (arith, keep-keep_other xs)

module _ {A : Type 0} (g : A → Bool) where
  pub keep-append : (xs ys : List A) → keep g (xs ++ ys) ≡ keep g xs ++ keep g ys
  keep-append [] ys = refl
  keep-append (x ∷ xs) ys = ground (arith, keep-append xs ys)

  pub keep-none : (xs : List A) → ((x : A) → Mem x xs → g x ≡ false) → keep g xs ≡ []
  keep-none [] lost = refl
  keep-none (x ∷ xs) lost =
      rw (lost x mem-cons_self) (keep-none xs (λ y m. lost y (mem-cons_of_mem x m)))

is_true : (b : Bool) → Dec (b ≡ true)
is_true true = yes refl
is_true false = no (λ e. cc)

keep-filter : {A : Type 0} (g : A → Bool) (xs : List A) → keep g xs ≡ filter (λ x. is_true (g x)) xs
unfolding is_true
keep-filter g [] = refl
keep-filter g (x ∷ xs) = elim (Bool-cases (g x)) [
  | inl h ↦ rw h (ap (λ l. x ∷ l) (keep-filter g xs))
  | inr h ↦ rw h (keep-filter g xs)
]

pub keep-Perm :
    {A : Type 0} (g : A → Bool) {xs ys : List A} → Perm xs ys → Perm (keep g xs) (keep g ys)
keep-Perm g {xs} {ys} perm =
    rw (keep-filter g xs, keep-filter g ys) (Perm.filter (λ x. is_true (g x)) perm)

pub map_append :
    {A B : Type 0} (f : A → B) (xs ys : List A) → map f (xs ++ ys) ≡ map f xs ++ map f ys
map_append f [] ys = refl
map_append f (x ∷ xs) ys = ap (λ l. f x ∷ l) (map_append f xs ys)

pub id_in-mem : (i : ℕ) (ids : List ℕ) → Mem i ids → id_in i ids ≡ true
id_in-mem i [] m = absurd (not-mem-nil m)
id_in-mem i (j ∷ ids) m =
    Or.elim (Bool-set (id_in i (j ∷ ids)) true) (mem-cons.0 m) (λ e. ground (arith, e))
      (λ later. let known = id_in-mem i ids later in ground (arith, known))

pub mem-id_in : (i : ℕ) (ids : List ℕ) → id_in i ids ≡ true → Mem i ids
mem-id_in i [] h = cc
mem-id_in i (j ∷ ids) h = elim (Bool-cases (i == j)) [
  | inl same ↦
      let equal : i ≡ j = ground (arith, same) in subst (λ n. Mem i (n ∷ ids)) equal mem-cons_self
  | inr other ↦ mem-cons_of_mem j (mem-id_in i ids (ground (arith, h, other)))
]
