-- ===== src/Queue/Topics.antt =====
-- What the Kafka adapter takes from the client (github.com/segmentio/kafka-go).
use hexagonal_queue.Prelude.{ℕ, String, Bool, Option, List, Error}
use hexagonal_queue.Ports.{Operation}

-- `kafka.Header`, with a value that is a text.
pub record Header : Type 0 where
  pub key : String
  pub value : String

-- `kafka.Message`; its time is left out.
pub record KafkaMessage (Body : Type 0) : Type 0 where
  pub key : String
  pub value : Body
  pub headers : List Header

-- `kafka.Writer`, with the fields that tell the adapter's writers apart; all use LeastBytes and wait
-- for one acknowledgement. A batch timeout of 0 is the client's default.
pub record KafkaWriter : Type 0 where
  pub addr : List String
  pub topic : String
  pub batch_size : ℕ
  pub batch_timeout : ℕ
  pub snappy : Bool

-- `kafka.ReaderConfig`; every reader starts from the first offset.
pub record KafkaReader : Type 0 where
  pub brokers : List String
  pub topic : String
  pub group_id : String
  pub min_bytes : ℕ
  pub max_bytes : ℕ
  pub max_wait : ℕ

-- What a listener's reader fetches until it stops, and the error that it stops with, if its context
-- ended between two fetches.
pub record Fetched (Body : Type 0) : Type 0 where
  pub messages : List (KafkaMessage Body)
  pub stop : Option Error

-- The case that a caller's `select` takes. The listener closes both of its channels when it ends, and
-- of two cases that are ready either may be taken.
pub data Chosen : Type 0 where
  response_case : Chosen
  error_case : Chosen
  context_done : Error → Chosen

-- The calls of github.com/segmentio/kafka-go that the adapter makes.
pub record KafkaClient (S Body : Type 0) : Type 0 where
  pub write : KafkaWriter → KafkaMessage Body → Operation S (Unit {0})
  pub close_writer : KafkaWriter → Operation S (Unit {0})
  pub new_reader : KafkaReader → S → S
  -- until the time is over, with the commits of what is fetched
  pub fetch_until : KafkaReader → ℕ → S → Fetched Body × S
  pub commit : KafkaReader → KafkaMessage Body → Operation S (Unit {0})
  pub close_reader : KafkaReader → Operation S (Unit {0})
  pub select : S → Chosen × S
  -- the cancellation of the consumer's context and the wait for its goroutine
  pub stop : KafkaReader → S → S
