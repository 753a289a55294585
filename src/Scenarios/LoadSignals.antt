-- ===== src/Scenarios/LoadSignals.antt =====
-- RabbitMQ and Redis load tests of one message with one worker: whole runs, and runs that lose the
-- signal.
use hexagonal_queue.Prelude.{
  ℕ, suc, ◌+◌, ◌≡◌, ◌≢◌, refl, true, false, [], ◌∷◌, ok, length, arith, inl,
}
use hexagonal_queue.Ports.{Operation}
use hexagonal_queue.Web.LoadTest.{all_queued, SendingEnd}
use hexagonal_queue.Web.LoadTest.Pool.{
  new_pool, sends, ends, takes, publishes, leaves, finished, waiting, closing, draining, stopped,
  send_job, publish_job, record_publish,
}
use hexagonal_queue.Web.LoadTest.Pool.Books.{SentBy}
use hexagonal_queue.Prelude.Int.{pos}
use hexagonal_queue.Platform.Exact.{units}
use hexagonal_queue.Flow.{response}
use hexagonal_queue.Web.LoadTest.Workers.{publish_worker, publish_redis_worker}
use hexagonal_queue.Web.LoadTest.Rabbitmq.{RabbitTest, RabbitReach, queue_test_rabbitmq}
use hexagonal_queue.Web.LoadTest.Rabbitmq
use hexagonal_queue.Web.LoadTest.Rabbitmq.Safety.{rabbit_test_replied, LostSignal-never_replies}
use hexagonal_queue.Web.LoadTest.Redis.{RedisTest, RedisReach, test_redis}
use hexagonal_queue.Web.LoadTest.Redis
use hexagonal_queue.Web.LoadTest.Redis.Safety.{redis_test_replied, lost_signal_waits}
use hexagonal_queue.Scenarios.LoadRun.{counting, digits, emptied}

abbrev rabbit_worker : ℕ → Operation ℕ (Unit {0})
rabbit_worker = publish_worker (pos 100000000) digits counting tt

abbrev redis_worker : ℕ → Operation ℕ (Unit {0})
redis_worker =
    publish_redis_worker {p = units} (pos 100000000) digits
      (λ request s. (ok (response 200 ""), suc s))

abbrev rabbit_end : RabbitTest ℕ
rabbit_end = record {
  pool = emptied;
  signals = 0;
  done_closed = true;
  monitoring = true;
  phase = finished;
}

rabbit_run : RabbitReach rabbit_worker 1 1 (queue_test_rabbitmq 1 0) rabbit_end
unfolding queue_test_rabbitmq new_pool send_job publish_job record_publish
rabbit_run =
    Rabbitmq.next
      (Rabbitmq.next
        (Rabbitmq.next
          (Rabbitmq.next
            (Rabbitmq.next
              (Rabbitmq.next
                (Rabbitmq.next
                  (Rabbitmq.next
                    (Rabbitmq.next
                      (Rabbitmq.next Rabbitmq.here
                        (Rabbitmq.works _ (sends refl (omega arith) refl (omega arith) refl) refl))
                      (Rabbitmq.works _ (takes 0 [] (omega arith) refl refl) refl))
                    (Rabbitmq.works _ (ends refl (omega arith) refl) refl))
                  (Rabbitmq.works _ (publishes 0 [] [] 7 refl refl) refl))
                (Rabbitmq.signals all_queued refl refl refl refl))
              (Rabbitmq.receives refl refl refl))
            (Rabbitmq.closes_jobs refl refl))
          (Rabbitmq.works _ (leaves (omega arith) refl refl refl) refl))
        (Rabbitmq.joins refl (refl, refl) refl))
      (Rabbitmq.closes_done refl refl refl)

rabbit_test_replied_example :
    (end : SendingEnd) × (stopped all_queued ≡ stopped end)
    × (emptied.metrics.published_count + 0 ≡ 1)
    × (length emptied.metrics.publish_latencies ≡ 1)
    × SentBy end 1 1
rabbit_test_replied_example =
    rabbit_test_replied rabbit_worker 1 1 1 0 rabbit_end (omega arith) rabbit_run refl

-- The handler gives up at once, and closes the channel of the jobs.
abbrev given_up : RabbitTest ℕ
given_up = record {
  pool = new_pool 1 0;
  signals = 0;
  done_closed = true;
  monitoring = true;
  phase = closing;
}

gave_up : RabbitReach rabbit_worker 1 1 (queue_test_rabbitmq 1 0) given_up
unfolding queue_test_rabbitmq
gave_up = Rabbitmq.next Rabbitmq.here (Rabbitmq.gives_up refl refl refl)

abbrev cut_off : RabbitTest ℕ
cut_off = record given_up { pool = record (new_pool 1 0) { jobs_closed = true }; phase = draining }

LostSignal-never_replies_example : cut_off.phase ≢ finished
LostSignal-never_replies_example =
    LostSignal-never_replies rabbit_worker 1 1 1 0 given_up cut_off gave_up (inl (refl, refl))
      (Rabbitmq.next Rabbitmq.here (Rabbitmq.closes_jobs refl refl))

abbrev redis_end : RedisTest ℕ
redis_end = record { pool = emptied; signals = 0; monitoring = true; phase = finished }

redis_run : RedisReach redis_worker 1 1 (test_redis 1 0) redis_end
unfolding test_redis new_pool send_job publish_job record_publish
redis_run =
    Redis.next
      (Redis.next
        (Redis.next
          (Redis.next
            (Redis.next
              (Redis.next
                (Redis.next
                  (Redis.next
                    (Redis.next Redis.here
                      (Redis.works _ (sends refl (omega arith) refl (omega arith) refl) refl))
                    (Redis.works _ (takes 0 [] (omega arith) refl refl) refl))
                  (Redis.works _ (ends refl (omega arith) refl) refl))
                (Redis.works _ (publishes 0 [] [] 7 refl refl) refl))
              (Redis.signals all_queued refl refl refl))
            (Redis.receives refl refl refl))
          (Redis.closes_jobs refl refl))
        (Redis.works _ (leaves (omega arith) refl refl refl) refl))
      (Redis.joins refl (refl, refl) refl)

redis_test_replied_example :
    (end : SendingEnd) × (stopped all_queued ≡ stopped end)
    × (emptied.metrics.published_count + 0 ≡ 1)
    × (length emptied.metrics.publish_latencies ≡ 1)
    × SentBy end 1 1
    × (true ≡ true)
    × (redis_end.signals ≡ 0)
redis_test_replied_example =
    redis_test_replied redis_worker 1 1 1 0 redis_end (omega arith) redis_run refl

-- The loop has sent the one job and its signal, and the monitor has received it.
abbrev signal_lost : RedisTest ℕ
signal_lost = record {
  pool = record (new_pool 1 0) { messages_sent = 1; sender = stopped all_queued; jobs = 0 ∷ [] };
  signals = 0;
  monitoring = false;
  phase = waiting;
}

lost_run : RedisReach redis_worker 1 1 (test_redis 1 0) signal_lost
unfolding test_redis new_pool send_job
lost_run =
    Redis.next
      (Redis.next
        (Redis.next
          (Redis.next Redis.here
            (Redis.works _ (sends refl (omega arith) refl (omega arith) refl) refl))
          (Redis.works _ (ends refl (omega arith) refl) refl))
        (Redis.signals all_queued refl refl refl))
      (Redis.stops_monitor refl refl refl)

lost_signal_waits_example : signal_lost.phase ≡ waiting
lost_signal_waits_example =
    lost_signal_waits redis_worker 1 1 1 0 signal_lost signal_lost lost_run refl refl Redis.here
