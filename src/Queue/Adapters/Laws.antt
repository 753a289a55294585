-- ===== src/Queue/Adapters/Laws.antt =====
-- What a caller of the interface may rely on, whichever adapter is behind it.
use hexagonal_queue.Prelude.{String, ◌≡◌, refl, false, Result, err, new}
use hexagonal_queue.Platform.{Platform}
use hexagonal_queue.Models.{TransactionRequest}
use hexagonal_queue.Queue.{Codec, Tokens, TransactionHandler, QueuePort}
use hexagonal_queue.Queue.Amqp.{Amqp}
use hexagonal_queue.Queue.Topics.{KafkaClient}
use hexagonal_queue.Queue.Closed.{Refused}
use hexagonal_queue.Queue.Redis.{RedisClient, MessageCodec}
use hexagonal_queue.Queue.Rabbitmq
use hexagonal_queue.Queue.Kafka
use hexagonal_queue.Queue.Redis
use hexagonal_queue.Queue.Adapters.{
  AnyAdapter, rabbitmq, kafka, redis, port, close, publish_transaction, publish_message,
  start_consumer, is_connected,
}

module _ {p : Platform} {S T A Body : Type 0} (port : QueuePort p S T A Body) where
  -- A closed adapter publishes nothing that is waited for or addressed, starts no consumer and is not
  -- connected, and none of these calls changes anything.
  pub record ClosedAdapter (a : A) : Type 0 where
    pub publish_transaction :
        (request : TransactionRequest p) → Refused (port.publish_transaction a request)
    pub publish_message :
        (queue : String) (message : Result Body) → Refused (port.publish_message a queue message)
    pub start_consumer :
        (handler : TransactionHandler p S T) (t : S)
        → port.start_consumer a handler t ≡ ((err (new "connection is closed"), a), t)
    pub is_connected : (t : S) → port.is_connected a t ≡ (false, t)

module _ {p : Platform} {S Body : Type 0} (amqp : Amqp S Body) (topics : KafkaClient S Body)
    (client : RedisClient S Body) (codec : Codec p Body) (messages : MessageCodec p Body)
    (tokens : Tokens S) where
  -- Whichever of the three adapters is behind the queue port, and in whatever state it is: once it is
  -- closed, PublishTransaction, PublishMessage and StartConsumer report that the connection is closed
  -- and change nothing, and IsConnected says no.
  pub close-ClosedAdapter :
      {T : Type 0} (a : AnyAdapter) (s : S)
      → ClosedAdapter {T = T}
          (port amqp topics client codec messages tokens)
          (close amqp topics client codec messages tokens a s).0.1
  unfolding close publish_transaction publish_message start_consumer is_connected Rabbitmq.close
      Kafka.close Redis.close Rabbitmq.publish_transaction Kafka.publish_transaction
      Redis.publish_transaction Rabbitmq.publish_message Kafka.publish_message Redis.publish_message
      Rabbitmq.start_consumer Kafka.start_consumer Redis.start_consumer Rabbitmq.is_connected
      Kafka.is_connected Redis.is_connected
  close-ClosedAdapter (rabbitmq a) s = record {
    publish_transaction = λ request t. refl;
    publish_message = λ queue message t. refl;
    start_consumer = λ handler t. refl;
    is_connected = λ t. refl;
  }
  close-ClosedAdapter (kafka a) s = record {
    publish_transaction = λ request t. refl;
    publish_message = λ queue message t. refl;
    start_consumer = λ handler t. refl;
    is_connected = λ t. refl;
  }
  close-ClosedAdapter (redis a) s = record {
    publish_transaction = λ request t. refl;
    publish_message = λ queue message t. refl;
    start_consumer = λ handler t. refl;
    is_connected = λ t. refl;
  }
