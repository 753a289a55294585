-- ===== src/Queue.antt =====
-- internal/application/ports/queue.go, and what the three adapters of
-- internal/infrastructure/adapters/queue share.
pub mod Amqp
pub mod Books
pub mod Rabbitmq
pub mod Topics
pub mod Kafka
pub mod Redis
pub mod Factory
pub mod Closed
pub mod Adapters
use hexagonal_queue.Prelude.{Bool, ℕ, String, Option, Result, Error, str_eq, if◌then◌else◌, ◌≡◌, ok}
use hexagonal_queue.Platform.{Platform}
use hexagonal_queue.Models.{TransactionRequest, TransactionResponse, Payload, nil}
use hexagonal_queue.Ports.{Context, background, Operation, Runtime}
use hexagonal_queue.Flow.{Action, pure, response}
use hexagonal_queue.Utils.Text.{to_upper}

module _ (p : Platform) where
  -- `ports.TransactionHandler`; `HandleBalanceCheck` is not called by the adapters.
  pub record TransactionHandler (S T : Type 0) : Type 0 where
    pub handle_deposit : Context T → TransactionRequest p → Action p S (TransactionResponse p)
    pub handle_withdraw : Context T → TransactionRequest p → Action p S (TransactionResponse p)
    pub handle_create_member : Context T → TransactionRequest p → Action p S (TransactionResponse p)

  -- `encoding/json` on the requests and responses.
  pub record Codec (Body : Type 0) : Type 0 where
    pub marshal_request : TransactionRequest p → Result Body
    pub unmarshal_request : Body → Result (TransactionRequest p)
    pub marshal_response : TransactionResponse p → Result Body
    pub unmarshal_response : Body → Result (TransactionResponse p)

-- What `encoding/json` writes it reads back; but `Data` of a response is an `interface{}`, which has
-- lost its type.
pub record CodecLaws {p : Platform} {Body : Type 0} (codec : Codec p Body) : Type 0 where
  -- what an `interface{}` holds after its value was written and read back: a map for a struct
  pub reread : Payload p → Payload p
  pub reread_nil : reread nil ≡ nil
  pub request_back :
      (r : TransactionRequest p) (body : Body)
      → codec.marshal_request r ≡ ok body
      → codec.unmarshal_request body ≡ ok r
  pub response_back :
      (r : TransactionResponse p) (body : Body)
      → codec.marshal_response r ≡ ok body
      → codec.unmarshal_response body ≡ ok (record r { payload = reread r.payload })

-- A response after it was written and read back.
abbrev pub received :
    {p : Platform} {Body : Type 0} {codec : Codec p Body}
    → CodecLaws codec
    → TransactionResponse p
    → TransactionResponse p
received laws r = record r { payload = laws.reread r.payload }

module _ (p : Platform) where
  -- `ports.QueuePort`, on adapters of type `A`, which its methods may change. A message is known by what
  -- `json.Marshal` makes of it.
  pub record QueuePort (S T A Body : Type 0) : Type 0 where
    pub publish_transaction : A → TransactionRequest p → Operation S (TransactionResponse p)
    pub publish_transaction_fire_and_forget : A → TransactionRequest p → Operation S (Unit {0})
    pub publish_message : A → String → Result Body → Operation S (Unit {0})
    pub start_consumer : A → TransactionHandler p S T → S → (Result (Unit {0}) × A) × S
    pub stop_consumer : A → Operation S (Unit {0})
    pub close : A → S → (Result (Unit {0}) × A) × S
    pub is_connected : A → S → Bool × S

-- `GenerateTransactionID`, `GenerateUUID` and the Unix time as a text.
pub record Tokens (S : Type 0) : Type 0 where
  pub generate_transaction_id : String → S → String × S
  pub generate_uuid : S → String × S
  pub unix_time : S → String × S

module _ {p : Platform} {S T : Type 0} where
  -- The switch on the type of a message, which each adapter has.
  unfoldable pub dispatch :
      TransactionHandler p S T → String → TransactionRequest p → Action p S (TransactionResponse p)
  dispatch handler kind request =
      if str_eq (to_upper p kind) "DEPOSIT"
      then handler.handle_deposit background request
      else if str_eq (to_upper p kind) "WITHDRAW"
      then handler.handle_withdraw background request
      else if str_eq (to_upper p kind) "ADD_MEMBER"
      then handler.handle_create_member background request
      else pure (response 400 "Unknown operation type")
