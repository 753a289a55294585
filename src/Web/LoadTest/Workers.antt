-- ===== src/Web/LoadTest/Workers.antt =====
-- What a worker of a load test does with a job: `publishWorker`, `kafkaPublishWorker` and
-- `publishRedisWorker` of internal/infrastructure/web. The loop around it is in Pool.antt, with the
-- metrics that it keeps; errors are only logged.
use hexagonal_queue.Prelude.{ℕ, String, ◌<>◌, Result, ok, err}
use hexagonal_queue.Platform.{Platform}
use hexagonal_queue.Models.{TransactionRequest, TransactionResponse}
use hexagonal_queue.Ports.{Operation}
use hexagonal_queue.Queue.{QueuePort}

-- `one` is the constant 1.00, `digits` is `fmt.Sprintf("%d")`.
module _ {p : Platform} (one : p.Float) (digits : ℕ → String) where
  abbrev pub load_test_request : String → ℕ → TransactionRequest p
  load_test_request prefix job_id = record {
    parent_token = "admin";
    token = "1";
    username = "admin";
    action = "DEPOSIT";
    type_name = "DEPOSIT";
    amount = one;
    channel = "test";
    description = prefix <> digits job_id;
    lang = "";
  }

  module _ {S T A Body : Type 0} (queue_port : QueuePort p S T A Body) (a : A) where
    abbrev pub publish_worker : ℕ → Operation S (Unit {0})
    publish_worker job_id =
        queue_port.publish_transaction_fire_and_forget a (load_test_request "load-test-" job_id)

    abbrev pub kafka_publish_worker : ℕ → Operation S (Unit {0})
    kafka_publish_worker job_id =
        queue_port.publish_transaction_fire_and_forget a
          (load_test_request "kafka-load-test-" job_id)

  -- The response is dropped.
  abbrev dropped : {S : Type 0} → Result (TransactionResponse p) × S → Result (Unit {0}) × S
  dropped (ok _, s) = (ok tt, s)
  dropped (err e, s) = (err e, s)

  -- The Redis load test calls `PublishTransaction` of its adapter.
  abbrev pub publish_redis_worker :
      {S : Type 0}
      → (TransactionRequest p → Operation S (TransactionResponse p))
      → ℕ
      → Operation S (Unit {0})
  publish_redis_worker publish_transaction job_id s =
      dropped (publish_transaction (load_test_request "redis-load-test-" job_id) s)
