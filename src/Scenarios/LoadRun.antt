-- ===== src/Scenarios/LoadRun.antt =====
-- A Kafka load test of one message with one worker, over a queue that counts what it is told.
use hexagonal_queue.Prelude.{
  ℕ, suc, ◌+◌, ◌*◌, ◌≤◌, ◌≡◌, refl, true, false, [], ◌∷◌, ok, length, arith, ◌/◌, String,
}
use hexagonal_queue.Ports.{Operation}
use hexagonal_queue.Web.LoadTest.{all_queued, SendingEnd}
use hexagonal_queue.Web.LoadTest.Pool.{
  Pool, new_pool, sends, ends, takes, publishes, leaves, finished, stopped, SendsOnClosed, send_job,
  publish_job, record_publish,
}
use hexagonal_queue.Web.LoadTest.Pool.Books.{SentBy}
use hexagonal_queue.Web.LoadTest.Kafka.{
  KafkaTest, KafkaReach, here, next, works, meets, closes_jobs, joins, stops_monitor,
  kafka_load_test,
}
use hexagonal_queue.Prelude.Int.{pos}
use hexagonal_queue.Platform.Exact.{units}
use hexagonal_queue.Flow.{response}
use hexagonal_queue.Queue.{QueuePort}
use hexagonal_queue.Web.LoadTest.Workers.{kafka_publish_worker}
use hexagonal_queue.Web.LoadTest.Stats.{
  Measures, calculate_rabbitmq_stats, calculate_kafka_stats, calculate_redis_stats,
}
use hexagonal_queue.Web.LoadTest.Stats.Bounds.{Summarised, calculate_stats-Summarised}
use hexagonal_queue.Web.LoadTest.Kafka.Progress.{steps_of, kafka_load_test_ends}
use hexagonal_queue.Web.LoadTest.Kafka.Safety.{kafka_test_replied}

-- A queue that counts what is published.
abbrev pub counting : QueuePort units ℕ (Unit {0}) (Unit {0}) ℕ
counting = record {
  publish_transaction = λ a request s. (ok (response 200 ""), suc s);
  publish_transaction_fire_and_forget = λ a request s. (ok tt, suc s);
  publish_message = λ a queue message s. (ok tt, suc s);
  start_consumer = λ a handler s. ((ok tt, a), s);
  stop_consumer = λ a s. (ok tt, s);
  close = λ a s. ((ok tt, a), s);
  is_connected = λ a s. (true, s);
}

abbrev pub digits : ℕ → String
digits n = "0"

abbrev kafka_worker : ℕ → Operation ℕ (Unit {0})
kafka_worker = kafka_publish_worker (pos 100000000) digits counting tt

-- What is left of the pool when the message is out.
abbrev pub emptied : Pool ℕ
emptied = record {
  messages_sent = 1;
  sender = stopped all_queued;
  jobs = [];
  jobs_closed = true;
  idle = 0;
  held = [];
  metrics = record {
    published_count = 1;
    publish_errors = 0;
    publish_latencies = 7 ∷ [];
    samples = [];
  };
  broker = 1;
}

abbrev kafka_end : KafkaTest ℕ
kafka_end = record { pool = emptied; monitoring = false; phase = finished }

kafka_run : KafkaReach kafka_worker 1 2 (kafka_load_test 1 0) kafka_end
unfolding kafka_load_test new_pool send_job publish_job record_publish
kafka_run =
    next
      (next
        (next
          (next
            (next
              (next
                (next
                  (next
                    (next here (works _ (sends refl (omega arith) refl (omega arith) refl) refl))
                    (works _ (takes 0 [] (omega arith) refl refl) refl))
                  (works _ (publishes 0 [] [] 7 refl refl) refl))
                (works _ (ends refl (omega arith) refl) refl))
              (meets all_queued refl refl refl))
            (closes_jobs refl refl))
          (works _ (leaves (omega arith) refl refl refl) refl))
        (joins refl (refl, refl) refl))
      (stops_monitor refl refl refl)

kafka_test_replied_example :
    (end : SendingEnd) × (stopped all_queued ≡ stopped end)
    × (emptied.metrics.published_count + 0 ≡ 1)
    × (length emptied.metrics.publish_latencies ≡ 1)
    × SentBy end 1 1
    × (false ≡ false)
kafka_test_replied_example =
    kafka_test_replied kafka_worker 1 1 2 0 kafka_end (omega arith) kafka_run refl

kafka_load_test_ends_example :
    (steps_of kafka_worker 1 2 kafka_run ≤ 4 * 1 + 1 + 6)
    × (¬ SendsOnClosed 1 emptied)
    × (r' : KafkaTest ℕ) × KafkaReach kafka_worker 1 2 kafka_end r'
    × (r'.phase ≡ finished)
kafka_load_test_ends_example = kafka_load_test_ends kafka_worker 1 2 1 0 kafka_end kafka_run

-- Rates in units, rounded down.
abbrev measures : Measures units
measures = record {
  ratio = λ a b. a;
  percent = λ a b. pos (100 * a / b);
  per_second = λ a d. pos a;
  duration_text = λ d. "9ns";
}

calculate_stats-Summarised_example :
    let rabbit = calculate_rabbitmq_stats measures 9 emptied.metrics in
    let kafka = calculate_kafka_stats measures 9 emptied.metrics in
    let redis = calculate_redis_stats measures 9 emptied.metrics in
    Summarised rabbit.avg_publish_latency rabbit.max_publish_latency (7 ∷ [])
    × Summarised kafka.avg_publish_latency kafka.max_publish_latency (7 ∷ [])
    × Summarised redis.avg_publish_latency redis.max_publish_latency (7 ∷ [])
calculate_stats-Summarised_example = calculate_stats-Summarised units measures 9 emptied.metrics
