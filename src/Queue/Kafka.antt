-- ===== src/Queue/Kafka.antt =====
-- internal/infrastructure/adapters/queue/kafka/adapter.go, over the writers of a Kafka client. The
-- readers enter by the messages that they fetch.
pub mod Books
pub mod Consumer
pub mod Laws
pub mod RoundTrip
use hexagonal_queue.Prelude.{
  ℕ, String, ◌<>◌, Bool, true, not, Option, none, some, List, [], ◌∷◌, Result, ok, err, Error, new,
  wrap, str_eq, if◌then◌else◌, false,
}
use hexagonal_queue.Platform.{Platform}
use hexagonal_queue.Models.{TransactionRequest, TransactionResponse}
use hexagonal_queue.Ports.{Operation}
use hexagonal_queue.Utils.Text.{to_upper}
use hexagonal_queue.Flow.{Flow, next, reply, panic, Action, response, and_then}
use hexagonal_queue.Operation.{pure, fail, ◌>>=◌, ◌>>◌, wrapping, run}
use hexagonal_queue.Queue.Topics.{
  Header, KafkaMessage, KafkaWriter, KafkaReader, Fetched, Chosen, response_case, error_case,
  context_done, KafkaClient,
}
use hexagonal_queue.Queue.{Codec, Tokens, TransactionHandler, dispatch}

pub record KafkaAdapterConfig : Type 0 where
  pub brokers : List String
  pub topic : String
  pub response_topic : String
  pub consumer_group : String
  pub batch_size : ℕ
  pub batch_timeout : ℕ
  pub request_timeout : ℕ

-- The fields of `Adapter`; a consumer is its reader.
pub record KafkaAdapter : Type 0 where
  pub config : KafkaAdapterConfig
  pub writer : KafkaWriter
  pub readers : List (String × KafkaReader)
  pub closed : Bool
  pub consumer : Option KafkaReader

abbrev pub kafka_config : List String → KafkaAdapterConfig
kafka_config brokers = record {
  brokers = brokers;
  topic = "wallet-transactions";
  response_topic = "wallet-responses";
  consumer_group = "wallet-service";
  batch_size = 100;
  batch_timeout = 1000000000;
  request_timeout = 30000000000;
}

abbrev pub setup_writer : KafkaAdapterConfig → KafkaWriter
setup_writer config = record {
  addr = config.brokers;
  topic = config.topic;
  batch_size = config.batch_size;
  batch_timeout = config.batch_timeout;
  snappy = true;
}

abbrev pub new_kafka_adapter : List String → KafkaAdapter
new_kafka_adapter brokers = record {
  config = kafka_config brokers;
  writer = setup_writer (kafka_config brokers);
  readers = [];
  closed = false;
  consumer = none;
}

abbrev pub setup_reader : KafkaAdapterConfig → String → KafkaReader
setup_reader config topic = record {
  brokers = config.brokers;
  topic = topic;
  group_id = config.consumer_group;
  min_bytes = 10000;
  max_bytes = 10000000;
  max_wait = 1000000000;
}

-- The writer of a single message.
abbrev pub single_writer : KafkaAdapterConfig → String → KafkaWriter
single_writer config topic = record {
  addr = config.brokers;
  topic = topic;
  batch_size = 1;
  batch_timeout = 0;
  snappy = false;
}

-- The loops that look for a header; a header that is missing is the empty text.
unfoldable pub header_value : String → List Header → String
header_value key [] = ""
header_value key (header ∷ rest) =
    let found = header_value key rest in if str_eq header.key key then header.value else found

module _ {p : Platform} {S Body : Type 0} (client : KafkaClient S Body) (codec : Codec p Body)
    (tokens : Tokens S) where
  abbrev need_open : KafkaAdapter → Operation S (Unit {0})
  need_open a = if a.closed then fail (new "connection is closed") else pure tt

  abbrev pub header : String → String → Header
  header key value = record { key = key; value = value }

  -- The listener's loop: messages for others and messages that do not decode are passed over.
  abbrev pub listen : String → List (KafkaMessage Body) → Option (TransactionResponse p)
  listen correlation_id [] = none
  listen correlation_id (msg ∷ rest) =
      let later = listen correlation_id rest in
      if str_eq (header_value "correlation_id" msg.headers) correlation_id
      then elim (codec.unmarshal_response msg.value) [ ok r ↦ some r | err e ↦ later ]
      else later

  -- What is received from the two channels: a closed channel gives a zero value.
  abbrev from_responses : Option (TransactionResponse p) → TransactionResponse p
  from_responses (some r) = r
  from_responses none = response 0 ""

  abbrev from_errors : Option (TransactionResponse p) → Option Error → Error
  from_errors none (some e) = wrap "response error: " e
  from_errors _ _ = new "response error: %!w(<nil>)"

  abbrev pub selected :
      Option (TransactionResponse p) → Option Error → Chosen → Result (TransactionResponse p)
  selected r stop response_case = ok (from_responses r)
  selected r stop error_case = err (from_errors r stop)
  selected r stop (context_done e) = err e

  abbrev pub request_message :
      TransactionRequest p → String → String → String → Body → KafkaMessage Body
  request_message request correlation_id response_topic timestamp body = record {
    key = request.username;
    value = body;
    headers =
        header "correlation_id" correlation_id
        ∷ header "reply_to" response_topic
        ∷ header "type" (to_upper p request.action)
        ∷ header "timestamp" timestamp
        ∷ [];
  }

  -- The reader's deferred `Close`.
  abbrev closing_reader : {A : Type 0} → KafkaReader → Operation S A → Operation S A
  closing_reader reader op s = let (r, s') = op s in (r, (client.close_reader reader s').1)

  abbrev pub write_and_wait :
      KafkaAdapter → String → KafkaReader → KafkaMessage Body → Operation S (TransactionResponse p)
  write_and_wait a correlation_id reader message = do
    wrapping "failed to write message: " (client.write a.writer message)
    fetched ← run (client.fetch_until reader a.config.request_timeout)
    chosen ← run client.select
    λ s. (selected (listen correlation_id fetched.messages) fetched.stop chosen, s)

  unfoldable pub publish_transaction :
      KafkaAdapter → TransactionRequest p → Operation S (TransactionResponse p)
  publish_transaction a request = do
    need_open a
    correlation_id ← run (tokens.generate_transaction_id request.username)
    let response_topic : String = a.config.response_topic <> "-" <> correlation_id
    timestamp ← run tokens.unix_time
    body ← wrapping "failed to marshal request: " (λ s. (codec.marshal_request request, s))
    let reader : KafkaReader = setup_reader a.config response_topic
    run (λ s. (tt, client.new_reader reader s))
    closing_reader reader (
        write_and_wait a correlation_id reader
          (request_message request correlation_id response_topic timestamp body))

  unfoldable pub publish_transaction_fire_and_forget :
      KafkaAdapter → TransactionRequest p → Operation S (Unit {0})
  publish_transaction_fire_and_forget a request = do
    need_open a
    correlation_id ← run (tokens.generate_transaction_id request.username)
    timestamp ← run tokens.unix_time
    body ← wrapping "failed to marshal request: " (λ s. (codec.marshal_request request, s))
    let message : KafkaMessage Body = record {
      key = request.username;
      value = body;
      headers =
          header "correlation_id" correlation_id
          ∷ header "type" (to_upper p request.action)
          ∷ header "timestamp" timestamp
          ∷ [];
    }
    wrapping "failed to write message: " (client.write a.writer message)

  -- A message is known by what `json.Marshal` makes of it.
  unfoldable pub publish_message : KafkaAdapter → String → Result Body → Operation S (Unit {0})
  publish_message a topic message = do
    need_open a
    body ← wrapping "failed to marshal message: " (λ s. (message, s))
    let message : KafkaMessage Body = record { key = ""; value = body; headers = [] }
    let writer : KafkaWriter = single_writer a.config topic
    λ s. let (r, s') = client.write writer message s in (r, (client.close_writer writer s').1)

  unfoldable pub start_consumer : KafkaAdapter → Operation S KafkaAdapter
  start_consumer a = do
    need_open a
    let reader : KafkaReader = setup_reader a.config a.config.topic
    λ s. (ok (record a { consumer = some reader }), client.new_reader reader s)

  abbrev stop_reader : Option KafkaReader → S → S
  stop_reader none s = s
  stop_reader (some reader) s = (client.close_reader reader (client.stop reader s)).1

  -- It never fails, and the consumer stays set.
  unfoldable pub stop_consumer : KafkaAdapter → S → S
  stop_consumer a = stop_reader a.consumer

  abbrev close_readers : List (String × KafkaReader) → S → S
  close_readers [] s = s
  close_readers ((topic, reader) ∷ rest) s = close_readers rest (client.close_reader reader s).1

  -- It never fails: the errors are logged.
  unfoldable pub close : KafkaAdapter → S → KafkaAdapter × S
  close a s =
      let s₁ = stop_consumer (record a { closed = true }) s in
      (record a { closed = true }, close_readers a.readers (client.close_writer a.writer s₁).1)

  unfoldable pub is_connected : KafkaAdapter → Bool
  is_connected a = not a.closed
