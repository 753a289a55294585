-- ===== src/Mongo/Driver.antt =====
-- What the adapter takes from the MongoDB driver (go.mongodb.org/mongo-driver/mongo): collections of
-- documents, sessions and indexes. A filter document is the test that it states, an update document
-- the change that it makes.
use hexagonal_queue.Prelude.{ℕ, String, Bool, Option, List, Result, Error}
use hexagonal_queue.Prelude.Int.{ℤ}
use hexagonal_queue.Platform.{Platform}
use hexagonal_queue.Models.{User, AccountBalance, WalletStatement}
use hexagonal_queue.Ports.{Context, Operation}

-- What `FindOne(...).Decode` comes back with; `no_documents` is `mongo.ErrNoDocuments`.
pub data Found (A : Type 0) : Type 0 where
  document : A → Found A
  no_documents : Found A
  failed : Error → Found A

-- `SetSort`: not at all, or from the largest value down.
pub data Sort (A : Type 0) : Type 0 where
  unsorted : Sort A
  descending : (A → ℕ) → Sort A

-- What a cursor yields until `Next` is false, each document with the result of `Decode`, and the error
-- that `Err` tells after an end that came too early.
pub record Cursor (A : Type 0) : Type 0 where
  pub yielded : List (Result A)
  pub stopped : Option Error

pub record Collection (S T A : Type 0) : Type 0 where
  pub find_one : Context T → (A → Bool) → Sort A → S → Found A × S
  pub find : Context T → (A → Bool) → Sort A → Option ℤ → Operation S (Cursor A)
  -- with the projection on `_id`, which the first argument takes from a document
  pub find_ids : (A → ℕ) → Context T → (A → Bool) → Sort A → Option ℤ → Operation S (Cursor ℕ)
  pub insert_one : Context T → A → Operation S (Unit {0})
  -- with the `MatchedCount`
  pub update_one : Context T → (A → Bool) → (A → A) → Operation S ℕ
  -- with the `DeletedCount`
  pub delete_many : Context T → (A → Bool) → Operation S ℕ

-- A key of an index, with its direction, and the index with its `unique` option.
pub record IndexKey : Type 0 where
  pub key : String
  pub ascending : Bool

pub record IndexModel : Type 0 where
  pub keys : List IndexKey
  pub unique : Bool

module _ (p : Platform) where
  pub record Driver (S T : Type 0) : Type 0 where
    pub users : Collection S T User
    pub balances : Collection S T (AccountBalance p)
    pub statements : Collection S T (WalletStatement p)
    pub start_session : Operation S T
    pub start_transaction : T → Operation S (Unit {0})
    pub commit_transaction : T → Operation S (Unit {0})
    pub abort_transaction : T → Operation S (Unit {0})
    pub end_session : T → S → S
    -- `mongo.Connect` and `Ping` for a URI, and `Indexes().CreateMany` for a collection
    pub connect : String → Operation S (Unit {0})
    pub ping : Operation S (Unit {0})
    pub create_many : String → List IndexModel → Operation S (Unit {0})
    pub disconnect : Operation S (Unit {0})
