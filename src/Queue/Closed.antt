-- ===== src/Queue/Closed.antt =====
-- What the adapters do once they are closed.
use hexagonal_queue.Prelude.{String, ◌≡◌, refl, false, List, Result, err, new}
use hexagonal_queue.Platform.{Platform}
use hexagonal_queue.Models.{TransactionRequest}
use hexagonal_queue.Ports.{Operation}
use hexagonal_queue.Queue.{Codec, Tokens}
use hexagonal_queue.Queue.Amqp.{Amqp}
use hexagonal_queue.Queue.Topics.{KafkaClient}
use hexagonal_queue.Queue.Rabbitmq
use hexagonal_queue.Queue.Kafka
use hexagonal_queue.Queue.Redis

-- The call fails at once, and changes nothing.
abbrev pub Refused : {S A : Type 0} → Operation S A → Type 0
Refused op = (t : _) → op t ≡ (err (new "connection is closed"), t)

module _ {p : Platform} {S Body : Type 0} (codec : Codec p Body) (tokens : Tokens S) where
  -- Once a RabbitMQ adapter is closed, in whatever state it was, it does not publish and starts no
  -- consumer: each of the four calls reports that the connection is closed, and changes nothing; and
  -- it is not connected.
  rabbit_closed :
      (amqp : Amqp S Body) (a : Rabbitmq.Adapter) (s : S) (request : TransactionRequest p)
      (queue : String) (message : Result Body)
      → Refused (
          Rabbitmq.publish_transaction amqp codec tokens
            (Rabbitmq.close amqp codec tokens a s).0
            request)
        × Refused (
            Rabbitmq.publish_transaction_fire_and_forget amqp codec tokens
              (Rabbitmq.close amqp codec tokens a s).0
              request)
        × Refused (
            Rabbitmq.publish_message amqp codec tokens
              (Rabbitmq.close amqp codec tokens a s).0
              queue
              message)
        × Refused
            (Rabbitmq.start_consumer amqp codec tokens (Rabbitmq.close amqp codec tokens a s).0)
        × ((t : S)
            → Rabbitmq.is_connected amqp codec tokens (Rabbitmq.close amqp codec tokens a s).0 t
              ≡ false)
  unfolding Rabbitmq.publish_transaction Rabbitmq.publish_transaction_fire_and_forget
      Rabbitmq.publish_message Rabbitmq.start_consumer Rabbitmq.is_connected Rabbitmq.close
  rabbit_closed amqp a s request queue message =
      (λ t. refl, λ t. refl, λ t. refl, λ t. refl, λ t. refl)

  -- Once a Kafka adapter is closed, in whatever state it was, it does not publish and starts no
  -- consumer: each of the four calls reports that the connection is closed, and changes nothing; and it
  -- is not connected.
  kafka_closed :
      (client : KafkaClient S Body) (a : Kafka.KafkaAdapter) (s : S)
      (request : TransactionRequest p) (topic : String) (message : Result Body)
      → Refused (
          Kafka.publish_transaction client codec tokens
            (Kafka.close client codec tokens a s).0
            request)
        × Refused (
            Kafka.publish_transaction_fire_and_forget client codec tokens
              (Kafka.close client codec tokens a s).0
              request)
        × Refused (
            Kafka.publish_message client codec tokens
              (Kafka.close client codec tokens a s).0
              topic
              message)
        × Refused (Kafka.start_consumer client codec tokens (Kafka.close client codec tokens a s).0)
        × (Kafka.is_connected client codec tokens (Kafka.close client codec tokens a s).0 ≡ false)
  unfolding Kafka.publish_transaction Kafka.publish_transaction_fire_and_forget
      Kafka.publish_message Kafka.start_consumer Kafka.is_connected Kafka.close
  kafka_closed client a s request topic message = (λ t. refl, λ t. refl, λ t. refl, λ t. refl, refl)

  -- Once a Redis adapter is closed, in whatever state it was, PublishTransaction, PublishMessage,
  -- StartConsumer and the two calls for monitoring report that the connection is closed and change
  -- nothing, and IsConnected says no without a ping.
  redis_closed :
      {Stream Group : Type 0} (client : Redis.RedisClient S Body)
      (messages : Redis.MessageCodec p Body) (x_info_stream : String → Operation S Stream)
      (x_info_groups : String → Operation S (List Group)) (a : Redis.RedisAdapter) (s : S)
      (request : TransactionRequest p) (queue : String) (message : Result Body)
      → Refused (
          Redis.publish_transaction client codec messages tokens
            (Redis.close client codec messages tokens a s).0.0
            request)
        × Refused (
            Redis.publish_message client codec messages tokens
              (Redis.close client codec messages tokens a s).0.0
              queue
              message)
        × Refused (
            Redis.start_consumer client codec messages tokens
              (Redis.close client codec messages tokens a s).0.0)
        × Refused (
            Redis.get_stream_info client codec messages tokens x_info_stream
              (Redis.close client codec messages tokens a s).0.0)
        × Refused (
            Redis.get_consumer_group_info client codec messages tokens x_info_groups
              (Redis.close client codec messages tokens a s).0.0)
        × ((t : S)
            → Redis.is_connected client codec messages tokens
                (Redis.close client codec messages tokens a s).0.0
                t
              ≡ (false, t))
  unfolding Redis.publish_transaction Redis.publish_message Redis.start_consumer
      Redis.get_stream_info Redis.get_consumer_group_info Redis.is_connected Redis.close
  redis_closed client messages x_info_stream x_info_groups a s request queue message =
      (λ t. refl, λ t. refl, λ t. refl, λ t. refl, λ t. refl, λ t. refl)
