-- ===== src/Ports.antt =====
-- internal/application/ports: the interfaces that the use cases are written against. An operation
-- takes the state of the outside world and returns it changed, beside its result.
pub mod Store
pub mod Laws
use hexagonal_queue.Prelude.{ℕ, String, Bool, Option, List, Result}
use hexagonal_queue.Prelude.Int.{ℤ}
use hexagonal_queue.Platform.{Platform}
use hexagonal_queue.Models.{
  User, AccountBalance, WalletStatement, TransactionRequest, TransactionResponse,
}

-- `context.Context`: plain, or that of a transaction (`TransactionContext.Context`).
pub data Context (T : Type 0) : Type 0 where
  background : Context T
  session : T → Context T

-- An operation that can fail, on the state `S`.
abbrev pub Operation : Type 0 → Type 0 → Type 0
Operation S A = S → Result A × S

module _ (p : Platform) where
  -- `ports.WalletRepository` and `ports.TransactionContext`, whose values are of type `T`.
  pub record WalletRepository (S T : Type 0) : Type 0 where
    pub get_user_by_username : Context T → String → String → Operation S (Option User)
    pub get_user_by_token : Context T → String → Operation S (Option User)
    pub create_user : Context T → User → Operation S (Unit {0})
    pub update_user : Context T → User → Operation S (Unit {0})
    pub get_account_balance : Context T → String → String → Operation S (AccountBalance p)
    pub get_account_balances_by_parent_token :
        Context T → List String → String → Operation S (List (AccountBalance p))
    pub create_account_balance : Context T → AccountBalance p → Operation S (Unit {0})
    pub update_account_balance : Context T → String → String → p.Decimal → Operation S (Unit {0})
    pub get_last_wallet_statement : Context T → String → String → Operation S (WalletStatement p)
    pub create_wallet_statement : Context T → WalletStatement p → Operation S (WalletStatement p)
    pub get_wallet_statements :
        Context T → String → String → ℤ → Operation S (List (WalletStatement p))
    pub clear_old_statements : Context T → String → String → ℤ → Operation S (Unit {0})
    pub start_transaction : Context T → Operation S T
    pub commit : T → Operation S (Unit {0})
    pub abort : T → Operation S (Unit {0})

  -- What a cache holds (`interface{}`): a balance, or something else.
  pub data Cached : Type 0 where
    balance : AccountBalance p → Cached
    other : Cached

  -- `ports.CacheRepository`
  pub record CacheRepository (S : Type 0) : Type 0 where
    pub get : String → Operation S (Option Cached)
    pub set : String → Cached → ℕ → Operation S (Unit {0})
    pub delete : String → Operation S (Unit {0})
    pub exists : String → Operation S Bool

-- What the program takes from the machine: `time.Now().UTC()`, in whole milliseconds,
-- `primitive.NewObjectID()` and `utils.GenerateUUID()`.
pub record Runtime (S : Type 0) : Type 0 where
  pub now : S → ℕ × S
  pub new_object_id : S → ℕ × S
  pub generate_uuid : S → String × S
