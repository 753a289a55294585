-- ===== src/Queue/Rabbitmq.antt =====
-- internal/infrastructure/adapters/queue/rabbitmq/adapter.go, over an AMQP channel.
pub mod Consumer
pub mod Laws
pub mod Books
pub mod RoundTrip
use hexagonal_queue.Prelude.{
  ℕ, String, ◌<>◌, Bool, true, false, not, ◌&&◌, List, [], ◌∷◌, Result, ok, err, Error, new, wrap,
  str_eq, if◌then◌else◌,
}
use hexagonal_queue.Prelude.Int.{ℤ, pos}
use hexagonal_queue.Platform.{Platform}
use hexagonal_queue.Models.{TransactionRequest, TransactionResponse}
use hexagonal_queue.Ports.{Operation}
use hexagonal_queue.Utils.Text.{to_upper}
use hexagonal_queue.Flow.{Flow, next, reply, panic, Action, response, and_then}
use hexagonal_queue.Operation.{pure, fail, ◌>>=◌, ◌>>◌, wrapping, run}
use hexagonal_queue.Queue.Amqp.{
  Publishing, Delivery, Awaited, delivered, timed_out, cancelled, QueueOptions, Amqp,
}
use hexagonal_queue.Queue.{Codec, Tokens, TransactionHandler, dispatch}

pub record RabbitConfig : Type 0 where
  pub uri : String
  pub queue_name : String
  pub exchange : String
  pub routing_key : String
  pub consumer_tag : String
  pub prefetch_count : ℕ
  pub reconnect_delay : ℕ
  pub request_timeout : ℕ

-- The fields of `Adapter`: whether `conn` and `channel` are set.
pub record Adapter : Type 0 where
  pub has_connection : Bool
  pub has_channel : Bool
  pub config : RabbitConfig
  pub closed : Bool

abbrev pub default_config : String → RabbitConfig
default_config uri = record {
  uri = uri;
  queue_name = "wallet_queue";
  exchange = "";
  routing_key = "wallet_queue";
  consumer_tag = "wallet_consumer";
  prefetch_count = 1;
  reconnect_delay = 5000000000;
  request_timeout = 60000000000;
}

module _ {p : Platform} {S Body : Type 0} (amqp : Amqp S Body) (codec : Codec p Body)
    (tokens : Tokens S) where
  unfoldable pub connect : Adapter → Operation S (Unit {0})
  connect a = do
    wrapping "failed to connect to RabbitMQ: " (amqp.dial a.config.uri)
    wrapping "failed to open channel: " amqp.open_channel
    wrapping "failed to set QoS: " (amqp.qos a.config.prefetch_count)

  unfoldable pub setup_queue : Adapter → Operation S (Unit {0})
  setup_queue a = do
    let options : QueueOptions = record { durable = false; auto_delete = true; exclusive = false }
    wrapping "failed to declare queue: " (amqp.queue_declare a.config.queue_name options)
    pure tt

  unfoldable pub new_adapter : String → Operation S Adapter
  new_adapter uri = do
    let adapter : Adapter = record {
      has_connection = true;
      has_channel = true;
      config = default_config uri;
      closed = false;
    }
    wrapping "failed to connect to RabbitMQ: " (connect adapter)
    wrapping "failed to setup queue: " (setup_queue adapter)
    pure adapter

  abbrev need_open : Adapter → Operation S (Unit {0})
  need_open a = if a.closed then fail (new "connection is closed") else pure tt

  abbrev marshalled : {A : Type 0} → String → Result A → Operation S A
  marshalled message r = wrapping message (λ s. (r, s))

  -- What the `select` at the end of `PublishTransaction` returns.
  abbrev pub answer : String → Awaited Body → Result (TransactionResponse p)
  answer corr_id (delivered msg) =
      if str_eq msg.correlation_id corr_id
      then elim (codec.unmarshal_response msg.body) [
        | ok r ↦ ok r
        | err e ↦ err (wrap "failed to unmarshal response: " e)
      ]
      else err (new "no response received")
  answer corr_id timed_out = err (new "request timeout")
  answer corr_id (cancelled e) = err e

  -- The call that is deferred.
  abbrev cancelling : {A : Type 0} → String → Operation S A → Operation S A
  cancelling tag op s = let (r, s') = op s in (r, (amqp.cancel tag s').1)

  abbrev pub request_publishing : TransactionRequest p → String → String → Body → Publishing Body
  request_publishing request queue corr_id body = record {
    kind = to_upper p request.action;
    correlation_id = corr_id;
    reply_to = queue;
    body = body;
    expiration = "60000";
  }

  unfoldable pub request_and_wait :
      Adapter
      → TransactionRequest p
      → String
      → String
      → String
      → Operation S (TransactionResponse p)
  request_and_wait a request queue tag corr_id = do
    body ← marshalled "failed to marshal request: " (codec.marshal_request request)
    wrapping "failed to publish message: " (
        amqp.publish a.config.exchange a.config.routing_key
          (request_publishing request queue corr_id body))
    awaited ← run (amqp.await tag a.config.request_timeout)
    λ s. (answer corr_id awaited, s)

  unfoldable pub publish_transaction :
      Adapter → TransactionRequest p → Operation S (TransactionResponse p)
  publish_transaction a request = do
    need_open a
    let options : QueueOptions = record { durable = false; auto_delete = true; exclusive = true }
    queue ← wrapping "failed to declare response queue: " (amqp.queue_declare "" options)
    uuid ← run tokens.generate_uuid
    let tag : String = "temp-consumer-" <> uuid
    wrapping "failed to register consumer: " (amqp.consume queue tag true)
    corr_id ← run (tokens.generate_transaction_id request.username)
    cancelling tag (request_and_wait a request queue tag corr_id)

  unfoldable pub publish_transaction_fire_and_forget :
      Adapter → TransactionRequest p → Operation S (Unit {0})
  publish_transaction_fire_and_forget a request = do
    need_open a
    body ← marshalled "failed to marshal request: " (codec.marshal_request request)
    uuid ← run tokens.generate_uuid
    let message : Publishing Body = record {
      kind = to_upper p request.action;
      correlation_id = uuid;
      reply_to = "";
      body = body;
      expiration = "";
    }
    amqp.publish a.config.exchange a.config.routing_key message

  -- A message is known by what `json.Marshal` makes of it.
  unfoldable pub publish_message : Adapter → String → Result Body → Operation S (Unit {0})
  publish_message a queue_name message = do
    need_open a
    body ← marshalled "failed to marshal message: " message
    uuid ← run tokens.generate_uuid
    let message : Publishing Body = record {
      kind = "";
      correlation_id = uuid;
      reply_to = "";
      body = body;
      expiration = "";
    }
    amqp.publish "" queue_name message

  -- The registration; the deliveries go to `handle_message` one after the other.
  unfoldable pub start_consumer : Adapter → Operation S (Unit {0})
  start_consumer a = do
    need_open a
    wrapping "failed to register consumer: "
        (amqp.consume a.config.queue_name a.config.consumer_tag false)

  unfoldable pub stop_consumer : Adapter → Operation S (Unit {0})
  stop_consumer a = if a.has_channel then amqp.cancel a.config.consumer_tag else pure tt

  unfoldable pub is_connected : Adapter → S → Bool
  is_connected a s = not a.closed && a.has_connection && not (amqp.connection_is_closed s)

  unfoldable pub close : Adapter → S → Adapter × S
  close a s =
      let s₁ = if a.has_channel then (amqp.close_channel s).1 else s in
      let s₂ = if a.has_connection then (amqp.close_connection s₁).1 else s₁ in
      (record a { closed = true }, s₂)
