-- ===== src/Prelude/Results.antt =====
-- A Go result: a value, or an error. An error is known by its text, built by `errors.New`, or by
-- `fmt.Errorf` with `%w` around another error.
use Prim.Native.String.{String, ◌++◌}
use mathlib.Core.Path.{◌≡◌, refl}
use mathlib.Core.Logic.{◌⊎◌, inl, inr}
use mathlib.Core.Bool.{Bool, true, false}

pub data Error : Type 0 where
  new : String → Error
  wrap : String → Error → Error

-- `err.Error()`
pub error_text : Error → String
error_text (new s) = s
error_text (wrap s e) = s ++ error_text e

pub data Result {ℓ} (A : Type ℓ) : Type ℓ where
  ok : A → Result A
  err : Error → Result A

abbrev pub is_ok {ℓ} : {A : Type ℓ} → Result A → Bool
is_ok (ok a) = true
is_ok (err e) = false

pub Result-cases {ℓ} :
    {A : Type ℓ} (r : Result A) → ((a : A) × (r ≡ ok a)) ⊎ ((e : Error) × (r ≡ err e))
Result-cases (ok a) = inl (a, refl)
Result-cases (err e) = inr (e, refl)

pub ok-injective {ℓ} : {A : Type ℓ} {a b : A} → ok a ≡ ok b → a ≡ b
ok-injective e = cc

-- `if err != nil { return ..., err }` between two steps.
infixl 5 ◌>>=◌
abbrev pub ◌>>=◌ {ℓ} : {A B : Type ℓ} → Result A → (A → Result B) → Result B
err e >>= rest = err e
ok a >>= rest = rest a

infixl 5 ◌>>◌
abbrev pub ◌>>◌ : {B : Type 0} → Result (Unit {0}) → Result B → Result B
first >> second = first >>= λ _. second
