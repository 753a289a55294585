-- ===== src/Web/LoadTest/Pool.antt =====
-- What the three load tests of internal/infrastructure/web share (test_rabbitmq.go, test_kafka.go,
-- test_redis.go): the channel of the jobs, the goroutine that fills it, the workers that empty it and
-- the metrics under their mutex. A goroutine runs between two operations on a channel or on the
-- metrics without being seen, so each step below is one such operation; the scheduler picks the next.
pub mod Books
pub mod Work
use hexagonal_queue.Prelude.{
  ℕ, suc, ◌+◌, ◌-◌, ◌≤◌, ◌<◌, ◌≡◌, Bool, true, false, List, [], ◌∷◌, ◌++◌, Result, ok, err, length,
}
use hexagonal_queue.Prelude.Int.{ℤ}
use hexagonal_queue.Ports.{Operation}
use hexagonal_queue.Web.LoadTest.{SendingEnd, all_queued, time_limit}

-- `RabbitMQLoadMetrics`, `KafkaLoadMetrics` and `RedisLoadMetrics`; `samples` holds the depths, the
-- lags or the lengths that the monitor has read.
pub record LoadMetrics : Type 0 where
  pub published_count : ℕ
  pub publish_errors : ℕ
  pub publish_latencies : List ℕ
  pub samples : List ℤ

-- Where the loop that hands out the jobs stands: in its rounds, before `done <- true`, or over.
pub data Sender : Type 0 where
  sending : Sender
  signalling : SendingEnd → Sender
  stopped : SendingEnd → Sender

-- Whether the loop has returned.
abbrev pub is_over : Sender → Bool
is_over sending = false
is_over (signalling _) = false
is_over (stopped _) = true

-- `idle` workers wait for a job, the others hold the jobs `held` that they publish; those that left
-- their loop have called `wg.Done()` and are not counted.
pub record Pool (S : Type 0) : Type 0 where
  pub messages_sent : ℕ
  pub sender : Sender
  pub jobs : List ℕ
  pub jobs_closed : Bool
  pub idle : ℕ
  pub held : List ℕ
  pub metrics : LoadMetrics
  pub broker : S

-- Where the handler that runs the test stands: before the signal of the loop, before `close(jobs)`,
-- in `wg.Wait()`, before it stops the monitor, after its reply, or in a panic.
pub data Phase : Type 0 where
  waiting closing draining stopping finished panicked : Phase

-- The end of a worker's round: one more error, or one more message with its latency.
unfoldable pub record_publish : Result (Unit {0}) → ℕ → LoadMetrics → LoadMetrics
record_publish (err e) latency m = record m { publish_errors = suc m.publish_errors }
record_publish (ok _) latency m = record m {
  published_count = suc m.published_count;
  publish_latencies = m.publish_latencies ++ (latency ∷ []);
}

unfoldable pub record_sample : ℤ → LoadMetrics → LoadMetrics
record_sample depth m = record m { samples = m.samples ++ (depth ∷ []) }

module _ {S : Type 0} where
  unfoldable pub new_pool : ℕ → S → Pool S
  new_pool worker_pool s = record {
    messages_sent = 0;
    sender = sending;
    jobs = [];
    jobs_closed = false;
    idle = worker_pool;
    held = [];
    metrics = record {
      published_count = 0;
      publish_errors = 0;
      publish_latencies = [];
      samples = [];
    };
    broker = s;
  }

  -- `wg.Wait()` returns.
  abbrev pub Joined : Pool S → Type 0
  Joined q = (q.idle ≡ 0) × (q.held ≡ [])

  -- `jobs <- i` and `messagesSent++`
  unfoldable pub send_job : Pool S → Pool S
  send_job q = record q {
    messages_sent = suc q.messages_sent;
    jobs = q.jobs ++ (q.messages_sent ∷ []);
  }

  -- The round of a worker on job `i`, of which `rest` is what the other workers hold.
  unfoldable pub publish_job : (ℕ → Operation S (Unit {0})) → ℕ → List ℕ → ℕ → Pool S → Pool S
  publish_job publish i rest latency q =
      let (result, s') = publish i q.broker in
      record q {
        idle = suc q.idle;
        held = rest;
        metrics = record_publish result latency q.metrics;
        broker = s';
      }

  unfoldable pub sample_depth : ℤ → Pool S → Pool S
  sample_depth depth q = record q { metrics = record_sample depth q.metrics }

-- The loop may next send on a closed channel, and the program would end in a panic.
abbrev pub SendsOnClosed : {S : Type 0} → ℕ → Pool S → Type 0
SendsOnClosed num q = (q.sender ≡ sending) × (q.messages_sent < num) × (q.jobs_closed ≡ true)

-- The steps of the loop up to its signal and of the workers, with `num` messages to send over a
-- channel that holds `capacity`.
pub data PoolStep {S : Type 0} (publish : ℕ → Operation S (Unit {0})) (num capacity : ℕ)
    (q q' : Pool S) : Type 0 where
  sends :
      q.sender ≡ sending
      → q.messages_sent < num
      → q.jobs_closed ≡ false
      → length q.jobs < capacity
      → q' ≡ send_job q
      → PoolStep publish num capacity q q'
  times_out :
      q.sender ≡ sending
      → q.messages_sent < num
      → q' ≡ record q { sender = signalling time_limit }
      → PoolStep publish num capacity q q'
  ends :
      q.sender ≡ sending
      → num ≤ q.messages_sent
      → q' ≡ record q { sender = signalling all_queued }
      → PoolStep publish num capacity q q'
  takes :
      (i : ℕ) (rest : List ℕ)
      → 1 ≤ q.idle
      → q.jobs ≡ i ∷ rest
      → q' ≡ record q { jobs = rest; idle = q.idle - 1; held = i ∷ q.held }
      → PoolStep publish num capacity q q'
  publishes :
      (i : ℕ) (before after : List ℕ) (latency : ℕ)
      → q.held ≡ before ++ (i ∷ after)
      → q' ≡ publish_job publish i (before ++ after) latency q
      → PoolStep publish num capacity q q'
  leaves :
      1 ≤ q.idle
      → q.jobs ≡ []
      → q.jobs_closed ≡ true
      → q' ≡ record q { idle = q.idle - 1 }
      → PoolStep publish num capacity q q'
