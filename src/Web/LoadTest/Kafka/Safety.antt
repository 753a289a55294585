-- ===== src/Web/LoadTest/Kafka/Safety.antt =====
-- What every state of a Kafka load test that can be reached keeps.
use hexagonal_queue.Prelude.{ℕ, ◌+◌, ◌≤◌, ◌≡◌, refl, true, false, arith, length}
use hexagonal_queue.Prelude.Int.{ℤ}
use hexagonal_queue.Ports.{Operation}
use hexagonal_queue.Web.LoadTest.{SendingEnd}
use hexagonal_queue.Web.LoadTest.Pool.{
  stopped, is_over, Phase, waiting, closing, draining, stopping, finished, panicked, Pool, Joined,
  new_pool, sample_depth, PoolStep,
}
use hexagonal_queue.Web.LoadTest.Pool.Books.{
  PoolInv, PoolStep-PoolInv, PoolStep-frame, new_pool-PoolInv, close_jobs-PoolInv,
  signalled-PoolInv, sample_depth-PoolInv, Joined-settled, SentBy, ended_by,
}
use hexagonal_queue.Web.LoadTest.Kafka.{
  KafkaTest, kafka_load_test, KafkaStep, works, meets, closes_jobs, joins, stops_monitor, samples,
  KafkaReach, here, next, get_kafka_consumer_lag,
}

module _ {S : Type 0} where
  -- What the handler knows at each of its points.
  abbrev pub Stage : Phase → KafkaTest S → Type 0
  Stage waiting r =
      (r.pool.jobs_closed ≡ false) × (is_over r.pool.sender ≡ false) × (r.monitoring ≡ true)
  Stage closing r =
      (r.pool.jobs_closed ≡ false) × (is_over r.pool.sender ≡ true) × (r.monitoring ≡ true)
  Stage draining r =
      (r.pool.jobs_closed ≡ true) × (is_over r.pool.sender ≡ true) × (r.monitoring ≡ true)
  Stage stopping r =
      (r.pool.jobs_closed ≡ true)
      × (is_over r.pool.sender ≡ true)
      × (r.monitoring ≡ true)
      × Joined r.pool
  Stage finished r =
      (r.pool.jobs_closed ≡ true)
      × (is_over r.pool.sender ≡ true)
      × (r.monitoring ≡ false)
      × Joined r.pool
  Stage panicked r = ⊥

  pub record KafkaInv (num workers : ℕ) (r : KafkaTest S) : Type 0 where
    pub pool : PoolInv num workers r.pool
    pub stage : Stage r.phase r

module _ {S : Type 0} (publish : ℕ → Operation S (Unit {0})) (num workers capacity : ℕ) where
  kafka_load_test-KafkaInv : (s : S) → KafkaInv num workers (kafka_load_test workers s)
  unfolding kafka_load_test new_pool
  kafka_load_test-KafkaInv s = record {
    pool = new_pool-PoolInv num workers s;
    stage = (refl, refl, refl);
  }

  works-Stage :
      (r : KafkaTest S) (q : Pool S) (phase : Phase)
      → PoolStep publish num capacity r.pool q
      → Stage phase r
      → Stage phase (record r { pool = q })
  works-Stage r q phase step v =
      let (closed, over, joined) = PoolStep-frame publish num capacity r.pool q step in
      ground (arith, closed, over, joined)

  samples-Stage :
      (r : KafkaTest S) (lag : ℤ) (phase : Phase)
      → Stage phase r
      → Stage phase (record r { pool = sample_depth lag r.pool })
  unfolding sample_depth
  samples-Stage r lag phase v = ground arith

  pub KafkaStep-KafkaInv :
      (r r' : KafkaTest S)
      → KafkaStep publish num capacity r r'
      → KafkaInv num workers r
      → KafkaInv num workers r'
  KafkaStep-KafkaInv r r' (works q step e) v = rw e (record {
    pool = PoolStep-PoolInv num workers publish capacity r.pool q step v.pool;
    stage = works-Stage r q r.phase step v.stage;
  })
  KafkaStep-KafkaInv r r' (meets end signal at e) v =
      let p = signalled-PoolInv num workers r.pool end v.pool signal in rw e (ground arith)
  KafkaStep-KafkaInv r r' (closes_jobs at e) v =
      let p = close_jobs-PoolInv num workers r.pool v.pool in rw e (ground arith)
  KafkaStep-KafkaInv r r' (joins at joined e) v = rw e (ground arith)
  KafkaStep-KafkaInv r r' (stops_monitor at on e) v = rw e (ground arith)
  KafkaStep-KafkaInv r r' (samples on e) v = rw e (record {
    pool = sample_depth-PoolInv num workers get_kafka_consumer_lag r.pool v.pool;
    stage = samples-Stage r get_kafka_consumer_lag r.phase v.stage;
  })

  pub KafkaReach-KafkaInv :
      {r r' : KafkaTest S}
      → KafkaReach publish num capacity r r'
      → KafkaInv num workers r
      → KafkaInv num workers r'
  KafkaReach-KafkaInv here v = v
  KafkaReach-KafkaInv (next reach step) v =
      KafkaStep-KafkaInv _ _ step (KafkaReach-KafkaInv reach v)

  pub started-KafkaInv :
      (s : S) (r : KafkaTest S)
      → KafkaReach publish num capacity (kafka_load_test workers s) r
      → KafkaInv num workers r
  started-KafkaInv s r reach = KafkaReach-KafkaInv reach (kafka_load_test-KafkaInv s)

  -- When the Kafka load test replies, in whatever order its goroutines ran and whichever messages
  -- failed: the loop has ended, every job that it sent was published or has failed, each of the
  -- published with one latency, and the monitor has stopped. If the loop ended as complete, that makes
  -- all the messages of the test. There is at least one worker.
  pub kafka_test_replied :
      (s : S) (r : KafkaTest S)
      → 1 ≤ workers
      → KafkaReach publish num capacity (kafka_load_test workers s) r
      → r.phase ≡ finished
      → (end : SendingEnd) × (r.pool.sender ≡ stopped end)
        × (r.pool.metrics.published_count + r.pool.metrics.publish_errors ≡ r.pool.messages_sent)
        × (length r.pool.metrics.publish_latencies ≡ r.pool.metrics.published_count)
        × SentBy end num r.pool.messages_sent
        × (r.monitoring ≡ false)
  kafka_test_replied s r some_worker reach done =
      let v = started-KafkaInv s r reach in
      let stage = v.stage in
      let (closed, over, off, joined) : Stage finished r = rw done at stage in
      let (end, is, sent) = ended_by r.pool.sender num r.pool.messages_sent over v.pool.complete in
      (
        end,
        is,
        Joined-settled num workers r.pool v.pool some_worker joined,
        v.pool.timed,
        sent,
        off,
      )
