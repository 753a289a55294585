-- ===== src/Queue/Redis.antt =====
-- internal/infrastructure/adapters/queue/redis/adapter.go, over a Redis client.
pub mod Books
pub mod Consumer
pub mod Laws
use hexagonal_queue.Prelude.{
  ℕ, String, is_ok, ◌<>◌, Bool, true, false, not, Option, none, some, List, [], ◌∷◌, Result, ok,
  err, Error, new, wrap, str_eq, if◌then◌else◌,
}
use hexagonal_queue.Prelude.Int.{ℤ}
use hexagonal_queue.Platform.{Platform}
use hexagonal_queue.Models.{TransactionRequest, TransactionResponse}
use hexagonal_queue.Ports.{Operation}
use hexagonal_queue.Utils.Text.{to_upper}
use hexagonal_queue.Flow.{Flow, next, reply, panic, Action, response, and_then}
use hexagonal_queue.Operation.{pure, fail, ◌>>=◌, ◌>>◌, wrapping, run}
use hexagonal_queue.Queue.{Codec, Tokens, TransactionHandler, dispatch}

pub record RedisAdapterConfig : Type 0 where
  pub addr : String
  pub password : String
  pub db : ℤ
  pub queue_name : String
  pub response_queue_name : String
  pub consumer_group : String
  pub block_time : ℕ
  pub request_timeout : ℕ
  pub max_retries : ℕ

-- `Message`
pub record Message (p : Platform) : Type 0 where
  pub id : String
  pub kind : String
  pub request : TransactionRequest p
  pub reply_to : String
  pub correlation_id : String
  pub timestamp : String

-- `json` on messages. A text that does not decode may leave some fields of the message set.
pub record MessageCodec (p : Platform) (Body : Type 0) : Type 0 where
  pub marshal_message : Message p → Result Body
  pub unmarshal_message : Body → Option Error × Message p

-- An entry of a stream: its id, and the text of its field `message` if it has one.
pub record XMessage (Body : Type 0) : Type 0 where
  pub id : String
  pub message : Option Body

-- How a blocking pop ends: with the values of the reply, at the end of its time, or with an error.
pub data Popped (Body : Type 0) : Type 0 where
  values : List Body → Popped Body
  pop_timeout : Popped Body
  pop_failed : Error → Popped Body

-- The calls of github.com/redis/go-redis that the adapter makes.
pub record RedisClient (S Body : Type 0) : Type 0 where
  pub ping : Operation S (Unit {0})
  pub init_stream : String → Operation S (Unit {0})
  -- with whether the error says BUSYGROUP
  pub group_create : String → String → S → Option (Bool × Error) × S
  pub add : String → Body → Operation S (Unit {0})
  pub blocking_pop : String → ℕ → S → Popped Body × S
  pub left_push : String → Body → Operation S (Unit {0})
  pub right_push : String → Body → Operation S (Unit {0})
  pub expire : String → ℕ → Operation S (Unit {0})
  pub ack : String → String → String → S → S
  pub close : Operation S (Unit {0})
  -- the cancellation of the consumer's context and the wait for its goroutine
  pub stop : S → S

-- The fields of `Adapter`: whether a consumer was started. The client is made with the adapter.
pub record RedisAdapter : Type 0 where
  pub config : RedisAdapterConfig
  pub closed : Bool
  pub has_consumer : Bool

abbrev pub redis_config : String → String → ℤ → RedisAdapterConfig
redis_config addr password db = record {
  addr = addr;
  password = password;
  db = db;
  queue_name = "wallet:transactions";
  response_queue_name = "wallet:responses";
  consumer_group = "wallet-service";
  block_time = 5000000000;
  request_timeout = 30000000000;
  max_retries = 3;
}

-- What keeps `XGroupCreate` from being a success, other than BUSYGROUP.
abbrev group_result : Option (Bool × Error) → Result (Unit {0})
group_result none = ok tt
group_result (some (true, e)) = ok tt
group_result (some (false, e)) = err (wrap "failed to create consumer group: " e)

module _ {p : Platform} {S Body : Type 0} (client : RedisClient S Body) (codec : Codec p Body)
    (messages : MessageCodec p Body) (tokens : Tokens S) where
  unfoldable pub ensure_consumer_group : RedisAdapter → Operation S (Unit {0})
  ensure_consumer_group a = do
    wrapping "failed to initialize stream: " (client.init_stream a.config.queue_name)
    created ← run (client.group_create a.config.queue_name a.config.consumer_group)
    λ s. (group_result created, s)

  -- A failure to create the group is only logged.
  unfoldable pub new_redis_adapter : String → String → ℤ → Operation S RedisAdapter
  new_redis_adapter addr password db = do
    let adapter : RedisAdapter = record {
      config = redis_config addr password db;
      closed = false;
      has_consumer = false;
    }
    wrapping "failed to connect to Redis: " client.ping
    λ s. (ok adapter, (ensure_consumer_group adapter s).1)

  abbrev need_open : RedisAdapter → Operation S (Unit {0})
  need_open a = if a.closed then fail (new "connection is closed") else pure tt

  abbrev received : Popped Body → Result (TransactionResponse p)
  received pop_timeout = err (new "request timeout")
  received (pop_failed e) = err (wrap "failed to receive response: " e)
  received (values []) = err (new "invalid response format")
  received (values (key ∷ [])) = err (new "invalid response format")
  received (values (key ∷ value ∷ rest)) = elim (codec.unmarshal_response value) [
    | ok r ↦ ok r
    | err e ↦ err (wrap "failed to unmarshal response: " e)
  ]

  unfoldable pub publish_transaction :
      RedisAdapter → TransactionRequest p → Operation S (TransactionResponse p)
  publish_transaction a request = do
    need_open a
    correlation_id ← run (tokens.generate_transaction_id request.username)
    timestamp ← run tokens.unix_time
    let response_key : String = a.config.response_queue_name <> ":" <> correlation_id
    let message : Message p = record {
      id = correlation_id;
      kind = to_upper p request.action;
      request = request;
      reply_to = response_key;
      correlation_id = correlation_id;
      timestamp = timestamp;
    }
    message_data ←
        wrapping "failed to marshal message: " (λ s. (messages.marshal_message message, s))
    wrapping "failed to publish message: " (client.add a.config.queue_name message_data)
    popped ← run (client.blocking_pop response_key a.config.request_timeout)
    λ s. (received popped, s)

  unfoldable pub publish_transaction_fire_and_forget :
      RedisAdapter → TransactionRequest p → Operation S (Unit {0})
  publish_transaction_fire_and_forget a request = pure tt

  -- A message is known by what `json.Marshal` makes of it.
  unfoldable pub publish_message : RedisAdapter → String → Result Body → Operation S (Unit {0})
  publish_message a queue_name message = do
    need_open a
    message_data ← wrapping "failed to marshal message: " (λ s. (message, s))
    client.left_push queue_name message_data

  unfoldable pub start_consumer : RedisAdapter → S → Result RedisAdapter × S
  start_consumer a s =
      if a.closed
      then (err (new "connection is closed"), s)
      else (ok (record a { has_consumer = true }), s)

  unfoldable pub is_connected : RedisAdapter → S → Bool × S
  is_connected a s = if a.closed then (false, s) else (let (r, s') = client.ping s in (is_ok r, s'))

  -- It never fails.
  unfoldable pub stop_consumer : RedisAdapter → S → S
  stop_consumer a s = if a.has_consumer then client.stop s else s

  unfoldable pub close : RedisAdapter → S → (RedisAdapter × Result (Unit {0})) × S
  close a s =
      let (r, s') = client.close (stop_consumer (record a { closed = true }) s) in
      ((record a { closed = true }, r), s')

  -- What `XInfoStream` and `XInfoGroups` return enters as a call.
  unfoldable pub get_stream_info :
      {Info : Type 0} → (String → Operation S Info) → RedisAdapter → Operation S Info
  get_stream_info x_info_stream a = do need_open a; x_info_stream a.config.queue_name

  unfoldable pub get_consumer_group_info :
      {Info : Type 0} → (String → Operation S (List Info)) → RedisAdapter → Operation S (List Info)
  get_consumer_group_info x_info_groups a = do need_open a; x_info_groups a.config.queue_name
