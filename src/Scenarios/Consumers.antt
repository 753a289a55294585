-- ===== src/Scenarios/Consumers.antt =====
-- The books of ann behind Kafka and Redis: a deposit, then a withdrawal, with clients that forget what
-- they are told.
use hexagonal_queue.Prelude.{
  ℕ, ◌≡◌, refl, true, false, Option, none, some, [], ◌∷◌, ok, arith, List, String, ap,
}
use hexagonal_queue.Prelude.Int.{pos}
use hexagonal_queue.Platform.Exact.{units, units_exact}
use hexagonal_queue.Flow.Ends.{Ends}
use hexagonal_queue.Mongo.Memory.{State, view}
use hexagonal_queue.Queue.Books.{wallet_handler}
use hexagonal_queue.Queue.Topics.{KafkaClient, KafkaMessage, response_case, KafkaReader}
use hexagonal_queue.Queue.Kafka.{KafkaAdapter, new_kafka_adapter}
use hexagonal_queue.Queue.Kafka
use hexagonal_queue.Queue.Kafka.Books.{TopicsApart, kafka_consume_messages-Ledger}
use hexagonal_queue.Queue.Redis.{
  Message, MessageCodec, XMessage, RedisClient, RedisAdapter, redis_config, pop_timeout,
}
use hexagonal_queue.Queue.Redis
use hexagonal_queue.Queue.Redis.Consumer.{Read, streams, nothing_read}
use hexagonal_queue.Queue.Redis.Books.{ListsApart, redis_consume_messages-Ledger}
use hexagonal_queue.Scenarios.Fixture.{books, world, wallet, request_of}
use hexagonal_queue.Scenarios.Member.{wallet_laws, wallet_runtime}
use hexagonal_queue.Scenarios.Ledger.{Kept, started, codec, tokens, asks}

abbrev kafka : KafkaClient State ℕ
kafka = record {
  write = λ w m s. (ok tt, s);
  close_writer = λ w s. (ok tt, s);
  new_reader = λ reader s. s;
  fetch_until = λ reader time s. (record { messages = []; stop = none }, s);
  commit = λ reader m s. (ok tt, s);
  close_reader = λ reader s. (ok tt, s);
  select = λ s. (response_case, s);
  stop = λ reader s. s;
}

kafka_apart : TopicsApart view kafka
kafka_apart = record {
  write_apart = λ w m s. refl;
  close_writer_apart = λ w s. refl;
  commit_apart = λ reader m s. refl;
}

abbrev of_kind : String → ℕ → KafkaMessage ℕ
of_kind kind n = record {
  key = "ann";
  value = n;
  headers =
      record { key = "type"; value = kind } ∷ record { key = "reply_to"; value = "replies" } ∷ [];
}

abbrev kafka_adapter : KafkaAdapter
kafka_adapter = new_kafka_adapter ("localhost:9092" ∷ [])

abbrev reader : KafkaReader
reader = record {
  brokers = "localhost:9092" ∷ [];
  topic = "wallet-transactions";
  group_id = "wallet-service";
  min_bytes = 1;
  max_bytes = 1000;
  max_wait = 0;
}

kafka_consume_messages-Ledger_example :
    Ends
      (λ _ s'. Kept 40 s')
      (λ _ s'. ⊥)
      (λ s'. Kept 40 s')
      (Kafka.Consumer.consume_messages kafka codec tokens kafka_adapter
        (wallet_handler wallet)
        reader
        (of_kind "DEPOSIT" 30 ∷ of_kind "WITHDRAW" 20 ∷ [])
        (world books []))
kafka_consume_messages-Ledger_example =
    kafka_consume_messages-Ledger units_exact wallet view wallet_laws wallet_runtime "ann" "shop"
      kafka codec tokens kafka_apart kafka_adapter reader (λ msg. msg.value)
      (of_kind "DEPOSIT" 30 ∷ of_kind "WITHDRAW" 20 ∷ []) 40 (world books [])
      (asks 30 (omega arith), (asks 20 (omega arith), tt)) (started 90 (omega arith))

abbrev redis : RedisClient State ℕ
redis = record {
  ping = λ s. (ok tt, s);
  init_stream = λ stream s. (ok tt, s);
  group_create = λ stream group s. (none, s);
  add = λ stream body s. (ok tt, s);
  blocking_pop = λ key time s. (pop_timeout, s);
  left_push = λ key body s. (ok tt, s);
  right_push = λ key body s. (ok tt, s);
  expire = λ key time s. (ok tt, s);
  ack = λ stream group id s. s;
  close = λ s. (ok tt, s);
  stop = λ s. s;
}

redis_apart : ListsApart view redis
redis_apart = record {
  right_push_apart = λ key body s. refl;
  expire_apart = λ key time s. refl;
  ack_apart = λ stream group id s. refl;
}

-- Every text is a deposit of so many units.
abbrev message_codec : MessageCodec units ℕ
message_codec = record {
  marshal_message = λ m. ok 0;
  unmarshal_message = λ n. (
    none,
    record {
      id = "m1";
      kind = "DEPOSIT";
      request = request_of (pos n);
      reply_to = "replies";
      correlation_id = "c1";
      timestamp = "0";
    },
  );
}

abbrev redis_adapter : RedisAdapter
redis_adapter = record {
  config = redis_config "localhost:6379" "" (pos 0);
  closed = false;
  has_consumer = true;
}

abbrev entry_of : Option ℕ → XMessage ℕ
entry_of n = record { id = "1-0"; message = n }

abbrev amount_of : XMessage ℕ → ℕ
amount_of msg = elim msg.message [ none ↦ 0 | some n ↦ n ]

abbrev reads : List (Read ℕ)
reads = nothing_read ∷ streams ((entry_of (some 30) ∷ entry_of none ∷ []) ∷ []) ∷ []

thirty : (body : ℕ) → ◌≡◌ {A = Option ℕ} (some 30) (some body) → body ≡ 30
thirty body h = ground arith

redis_consume_messages-Ledger_example :
    Ends
      (λ _ s'. Kept 40 s')
      (λ _ s'. ⊥)
      (λ s'. Kept 40 s')
      (Redis.Consumer.consume_messages redis codec message_codec tokens
        (wallet_handler wallet)
        redis_adapter
        reads
        (world books []))
redis_consume_messages-Ledger_example =
    redis_consume_messages-Ledger units_exact wallet view wallet_laws wallet_runtime "ann" "shop"
      redis codec message_codec tokens redis_apart redis_adapter amount_of reads 40 (world books [])
      ((λ body h. (ap pos (thirty body h), omega (arith, thirty body h))), ((λ body h. cc), tt))
      (started 70 (omega arith))
