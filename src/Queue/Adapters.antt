-- ===== src/Queue/Adapters.antt =====
-- The three adapters as queue ports, and what the factory makes of their constructors.
pub mod Laws
use hexagonal_queue.Prelude.{String, Bool, Result, ok, err}
use hexagonal_queue.Prelude.Int.{ℤ}
use hexagonal_queue.Platform.{Platform}
use hexagonal_queue.Models.{TransactionRequest, TransactionResponse}
use hexagonal_queue.Ports.{Operation}
use hexagonal_queue.Operation.{rewrap}
use hexagonal_queue.Queue.{Codec, Tokens, TransactionHandler, QueuePort}
use hexagonal_queue.Queue.Amqp.{Amqp}
use hexagonal_queue.Queue.Topics.{KafkaClient}
use hexagonal_queue.Queue.Factory.{Makers}
use hexagonal_queue.Queue.Rabbitmq
use hexagonal_queue.Queue.Kafka
use hexagonal_queue.Queue.Redis

-- An adapter behind the interface.
pub data AnyAdapter : Type 0 where
  rabbitmq : Rabbitmq.Adapter → AnyAdapter
  kafka : Kafka.KafkaAdapter → AnyAdapter
  redis : Redis.RedisAdapter → AnyAdapter

abbrev as_adapter : {S A : Type 0} → (A → AnyAdapter) → Result A × S → Result AnyAdapter × S
as_adapter wrap_it (ok a, s) = (ok (wrap_it a), s)
as_adapter wrap_it (err e, s) = (err e, s)

-- A consumer that was started with the adapter it was started on, which stays as it was on a failure.
abbrev started_with :
    {S A : Type 0} → (A → AnyAdapter) → A → Result A × S → (Result (Unit {0}) × AnyAdapter) × S
started_with wrap_it a (ok a', s) = ((ok tt, wrap_it a'), s)
started_with wrap_it a (err e, s) = ((err e, wrap_it a), s)

module _ {p : Platform} {S Body : Type 0} (amqp : Amqp S Body) (topics : KafkaClient S Body)
    (client : Redis.RedisClient S Body) (codec : Codec p Body)
    (messages : Redis.MessageCodec p Body) (tokens : Tokens S) where
  abbrev pub makers : Makers S AnyAdapter
  makers = record {
    rabbitmq = λ uri s. as_adapter rabbitmq (Rabbitmq.new_adapter amqp codec tokens uri s);
    kafka = λ brokers s. (ok (kafka (Kafka.new_kafka_adapter brokers)), s);
    redis = λ addr password db s.
        as_adapter redis (Redis.new_redis_adapter client codec messages tokens addr password db s);
  }

  unfoldable pub publish_transaction :
      AnyAdapter → TransactionRequest p → Operation S (TransactionResponse p)
  publish_transaction (rabbitmq a) = Rabbitmq.publish_transaction amqp codec tokens a
  publish_transaction (kafka a) = Kafka.publish_transaction topics codec tokens a
  publish_transaction (redis a) = Redis.publish_transaction client codec messages tokens a

  unfoldable pub publish_transaction_fire_and_forget :
      AnyAdapter → TransactionRequest p → Operation S (Unit {0})
  publish_transaction_fire_and_forget (rabbitmq a) =
      Rabbitmq.publish_transaction_fire_and_forget amqp codec tokens a
  publish_transaction_fire_and_forget (kafka a) =
      Kafka.publish_transaction_fire_and_forget topics codec tokens a
  publish_transaction_fire_and_forget (redis a) =
      Redis.publish_transaction_fire_and_forget client codec messages tokens a

  unfoldable pub publish_message : AnyAdapter → String → Result Body → Operation S (Unit {0})
  publish_message (rabbitmq a) = Rabbitmq.publish_message amqp codec tokens a
  publish_message (kafka a) = Kafka.publish_message topics codec tokens a
  publish_message (redis a) = Redis.publish_message client codec messages tokens a

  -- The handler serves the deliveries that come later.
  unfoldable pub start_consumer : AnyAdapter → S → (Result (Unit {0}) × AnyAdapter) × S
  start_consumer (rabbitmq a) s =
      let (r, s') = Rabbitmq.start_consumer amqp codec tokens a s in ((r, rabbitmq a), s')
  start_consumer (kafka a) s = started_with kafka a (Kafka.start_consumer topics codec tokens a s)
  start_consumer (redis a) s =
      started_with redis a (Redis.start_consumer client codec messages tokens a s)

  unfoldable pub stop_consumer : AnyAdapter → Operation S (Unit {0})
  stop_consumer (rabbitmq a) s = Rabbitmq.stop_consumer amqp codec tokens a s
  stop_consumer (kafka a) s = (ok tt, Kafka.stop_consumer topics codec tokens a s)
  stop_consumer (redis a) s = (ok tt, Redis.stop_consumer client codec messages tokens a s)

  unfoldable pub close : AnyAdapter → S → (Result (Unit {0}) × AnyAdapter) × S
  close (rabbitmq a) s =
      let (a', s') = Rabbitmq.close amqp codec tokens a s in ((ok tt, rabbitmq a'), s')
  close (kafka a) s = let (a', s') = Kafka.close topics codec tokens a s in ((ok tt, kafka a'), s')
  close (redis a) s =
      let (x, s') = Redis.close client codec messages tokens a s in ((x.1, redis x.0), s')

  unfoldable pub is_connected : AnyAdapter → S → Bool × S
  is_connected (rabbitmq a) s = (Rabbitmq.is_connected amqp codec tokens a s, s)
  is_connected (kafka a) s = (Kafka.is_connected topics codec tokens a, s)
  is_connected (redis a) s = Redis.is_connected client codec messages tokens a s

  abbrev pub port : {T : Type 0} → QueuePort p S T AnyAdapter Body
  port = record {
    publish_transaction = publish_transaction;
    publish_transaction_fire_and_forget = publish_transaction_fire_and_forget;
    publish_message = publish_message;
    start_consumer = λ a handler. start_consumer a;
    stop_consumer = stop_consumer;
    close = close;
    is_connected = is_connected;
  }
