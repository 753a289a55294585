-- ===== src/Scenarios/Replies.antt =====
-- A message to the Kafka adapter and one to the Redis adapter, over clients that record what they
-- are told.
use hexagonal_queue.Prelude.{ℕ, String, refl, inr, List, [], ◌∷◌, ◌++◌, none, some, ok}
use hexagonal_queue.Prelude.Int.{pos}
use hexagonal_queue.Platform.Exact.{units}
use hexagonal_queue.Flow.{next, panic, response}
use hexagonal_queue.Queue.{Codec, Tokens, TransactionHandler}
use hexagonal_queue.Queue.Topics.{KafkaMessage, KafkaClient, response_case}
use hexagonal_queue.Queue.Kafka.{KafkaAdapter, new_kafka_adapter}
use hexagonal_queue.Queue.Kafka.Laws.{KafkaLaws, Written, handle_message-Written}
use hexagonal_queue.Queue.Redis.{MessageCodec, XMessage, RedisClient, pop_timeout}
use hexagonal_queue.Queue.Redis.Laws.{RedisLaws, Pushed, handle_message-Pushed}
use hexagonal_queue.Queue.Kafka.Consumer
use hexagonal_queue.Queue.Redis.Consumer as RedisConsumer
use hexagonal_queue.Scenarios.Fixture.{request_of}

-- A body is the status of a response.
abbrev codec : Codec units ℕ
codec = record {
  marshal_request = λ r. ok 0;
  unmarshal_request = λ _. ok (request_of (pos 30));
  marshal_response = λ r. ok r.status;
  unmarshal_response = λ n. ok (response n "");
}

module _ (S : Type 0) where
  abbrev tokens : Tokens S
  tokens = record {
    generate_transaction_id = λ name s. (name, s);
    generate_uuid = λ s. ("0b6f", s);
    unix_time = λ s. ("0", s);
  }

  abbrev handler : TransactionHandler units S (Unit {0})
  handler = record {
    handle_deposit = λ c r s. (next (response 200 "Deposit successful"), s);
    handle_withdraw = λ c r s. (next (response 200 "Withdraw successful"), s);
    handle_create_member = λ c r s. (panic, s);
  }

abbrev Topics : Type 0
Topics = List (String × KafkaMessage ℕ)

abbrev kafka : KafkaClient Topics ℕ
kafka = record {
  write = λ w m s. (ok tt, s ++ ((w.topic, m) ∷ []));
  close_writer = λ w s. (ok tt, s);
  new_reader = λ reader s. s;
  fetch_until = λ reader time s. (record { messages = []; stop = none }, s);
  commit = λ reader m s. (ok tt, s);
  close_reader = λ reader s. (ok tt, s);
  select = λ s. (response_case, s);
  stop = λ reader s. s;
}

abbrev kafka_laws : KafkaLaws (λ (s : Topics). s) kafka (handler Topics)
kafka_laws = record {
  write_written = λ w m s. inr refl;
  close_written = λ w s. refl;
  deposit_written = λ c r s. refl;
  withdraw_written = λ c r s. refl;
  create_member_written = λ c r s. refl;
}

abbrev incoming : KafkaMessage ℕ
incoming = record {
  key = "ann";
  value = 0;
  headers =
      record { key = "type"; value = "DEPOSIT" }
      ∷ record { key = "reply_to"; value = "replies" }
      ∷ [];
}

abbrev adapter : KafkaAdapter
adapter = new_kafka_adapter ("localhost:9092" ∷ [])

handle_message-Written_example :
    Written
      (λ (s : Topics). s)
      incoming
      []
      (Consumer.handle_message kafka codec (tokens Topics) adapter (handler Topics) incoming []).1
handle_message-Written_example =
    handle_message-Written (λ (s : Topics). s) kafka codec (tokens Topics) (handler Topics)
      kafka_laws adapter incoming []

abbrev Lists : Type 0
Lists = List (String × ℕ)

abbrev redis : RedisClient Lists ℕ
redis = record {
  ping = λ s. (ok tt, s);
  init_stream = λ stream s. (ok tt, s);
  group_create = λ stream group s. (none, s);
  add = λ stream body s. (ok tt, s);
  blocking_pop = λ key time s. (pop_timeout, s);
  left_push = λ key body s. (ok tt, s);
  right_push = λ key body s. (ok tt, s ++ ((key, body) ∷ []));
  expire = λ key time s. (ok tt, s);
  ack = λ stream group id s. s;
  close = λ s. (ok tt, s);
  stop = λ s. s;
}

abbrev redis_laws : RedisLaws (λ (s : Lists). s) redis (handler Lists)
redis_laws = record {
  push_pushed = λ key b s. inr refl;
  expire_pushed = λ key time s. refl;
  deposit_pushed = λ c r s. refl;
  withdraw_pushed = λ c r s. refl;
  create_member_pushed = λ c r s. refl;
}

-- Every body is a deposit.
abbrev message_codec : MessageCodec units ℕ
message_codec = record {
  marshal_message = λ m. ok 1;
  unmarshal_message = λ b. (
    none,
    record {
      id = "c1";
      kind = "deposit";
      request = request_of (pos 30);
      reply_to = "q1";
      correlation_id = "c1";
      timestamp = "0";
    },
  );
}

abbrev queued : XMessage ℕ
queued = record { id = "1-0"; message = some 1 }

handle_message-Pushed_example :
    Pushed
      (λ (s : Lists). s)
      codec
      "q1"
      []
      (RedisConsumer.handle_message redis codec message_codec
        (tokens Lists)
        (handler Lists)
        queued
        []).1
handle_message-Pushed_example =
    handle_message-Pushed (λ (s : Lists). s) redis codec message_codec (tokens Lists)
      (handler Lists) redis_laws queued 1 [] refl
