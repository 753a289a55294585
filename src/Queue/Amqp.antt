-- ===== src/Queue/Amqp.antt =====
-- What the RabbitMQ adapter takes from the AMQP client (github.com/rabbitmq/amqp091-go).
use hexagonal_queue.Prelude.{ℕ, String, Bool, Error}
use hexagonal_queue.Ports.{Operation}

-- `amqp.Publishing`, with the fields that the adapter sets; its timestamp is left out.
pub record Publishing (Body : Type 0) : Type 0 where
  pub kind : String
  pub correlation_id : String
  pub reply_to : String
  pub body : Body
  pub expiration : String

-- `amqp.Delivery`
pub record Delivery (Body : Type 0) : Type 0 where
  pub tag : ℕ
  pub kind : String
  pub correlation_id : String
  pub reply_to : String
  pub body : Body

-- What the `select` of a caller that waits comes to first.
pub data Awaited (Body : Type 0) : Type 0 where
  delivered : Delivery Body → Awaited Body
  timed_out : Awaited Body
  cancelled : Error → Awaited Body

-- The options of `QueueDeclare`.
pub record QueueOptions : Type 0 where
  pub durable : Bool
  pub auto_delete : Bool
  pub exclusive : Bool

-- The calls that the adapter makes.
pub record Amqp (S Body : Type 0) : Type 0 where
  pub dial : String → Operation S (Unit {0})
  pub open_channel : Operation S (Unit {0})
  pub qos : ℕ → Operation S (Unit {0})
  pub queue_declare : String → QueueOptions → Operation S String
  -- queue, consumer and whether deliveries count as acknowledged
  pub consume : String → String → Bool → Operation S (Unit {0})
  pub cancel : String → Operation S (Unit {0})
  -- exchange, routing key
  pub publish : String → String → Publishing Body → Operation S (Unit {0})
  -- of this delivery alone
  pub ack : Delivery Body → Operation S (Unit {0})
  -- the next delivery for a consumer, or the end of a time
  pub await : String → ℕ → S → Awaited Body × S
  pub close_channel : Operation S (Unit {0})
  pub close_connection : Operation S (Unit {0})
  pub connection_is_closed : S → Bool
