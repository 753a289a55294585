-- ===== src/Web/LoadTest/Rabbitmq/Safety.antt =====
-- What the RabbitMQ load test keeps, and when it cannot reply.
use hexagonal_queue.Prelude.{ℕ, ◌+◌, ◌≤◌, ◌≡◌, ◌≢◌, ◌⊎◌, refl, Bool, true, false, length, arith}
use hexagonal_queue.Prelude.Int.{ℤ}
use hexagonal_queue.Ports.{Operation}
use hexagonal_queue.Web.LoadTest.{SendingEnd}
use hexagonal_queue.Web.LoadTest.Pool.{
  stopped, is_over, Phase, waiting, closing, draining, stopping, finished, panicked, Pool, Joined,
  new_pool, sample_depth, PoolStep,
}
use hexagonal_queue.Web.LoadTest.Pool.Books.{
  PoolInv, PoolStep-PoolInv, PoolStep-frame, new_pool-PoolInv, close_jobs-PoolInv,
  signalled-PoolInv, sample_depth-PoolInv, Joined-settled, SentBy, ended_by,
}
use hexagonal_queue.Web.LoadTest.Rabbitmq.{
  RabbitTest, queue_test_rabbitmq, RabbitStep, works, signals, receives, gives_up, closes_jobs,
  joins, closes_done, panics, samples, takes_signal, sees_end, RabbitReach, here, next,
}

module _ {S : Type 0} where
  -- The handler has the signal, and the monitor runs on; or it has given up and closed `done`.
  abbrev Past : RabbitTest S → Type 0
  Past r =
      ((r.done_closed ≡ false)
        × (is_over r.pool.sender ≡ true)
        × (r.signals ≡ 0)
        × (r.monitoring ≡ true))
      ⊎ (r.done_closed ≡ true)

  -- The loop gives its signal once; it is in the channel, or the monitor has taken it.
  abbrev Open : Bool → RabbitTest S → Type 0
  Open false r = (r.signals ≡ 0) × (r.monitoring ≡ true)
  Open true r =
      ((r.signals ≡ 1) × (r.monitoring ≡ true)) ⊎ ((r.signals ≡ 0) × (r.monitoring ≡ false))

  abbrev Stage : Phase → RabbitTest S → Type 0
  Stage waiting r =
      (r.pool.jobs_closed ≡ false) × (r.done_closed ≡ false) × Open (is_over r.pool.sender) r
  Stage closing r = (r.pool.jobs_closed ≡ false) × Past r
  Stage draining r = (r.pool.jobs_closed ≡ true) × Past r
  Stage stopping r = Past r × Joined r.pool
  Stage finished r = (r.done_closed ≡ true) × (is_over r.pool.sender ≡ true) × Joined r.pool
  Stage panicked r = r.done_closed ≡ true

  pub record RabbitInv (num workers : ℕ) (r : RabbitTest S) : Type 0 where
    pub pool : PoolInv num workers r.pool
    pub stage : Stage r.phase r

module _ {S : Type 0} (publish : ℕ → Operation S (Unit {0})) (num workers capacity : ℕ) where
  queue_test_rabbitmq-RabbitInv : (s : S) → RabbitInv num workers (queue_test_rabbitmq workers s)
  unfolding queue_test_rabbitmq new_pool
  queue_test_rabbitmq-RabbitInv s = record {
    pool = new_pool-PoolInv num workers s;
    stage = (refl, refl, (refl, refl));
  }

  works-RabbitInv :
      (r : RabbitTest S) (q : Pool S)
      → PoolStep publish num capacity r.pool q
      → RabbitInv num workers r
      → RabbitInv num workers (record r { pool = q })
  works-RabbitInv r q step v =
      let p = PoolStep-PoolInv num workers publish capacity r.pool q step v.pool in
      let (closed, over, joined) = PoolStep-frame publish num capacity r.pool q step in
      ground (arith, closed, over, joined, p)

  samples-RabbitInv :
      (r : RabbitTest S) (depth : ℤ)
      → RabbitInv num workers r
      → RabbitInv num workers (record r { pool = sample_depth depth r.pool })
  unfolding sample_depth
  samples-RabbitInv r depth v =
      let p = sample_depth-PoolInv num workers depth r.pool v.pool in ground (arith, p)

  RabbitStep-RabbitInv :
      (r r' : RabbitTest S)
      → RabbitStep publish num capacity r r'
      → RabbitInv num workers r
      → RabbitInv num workers r'
  RabbitStep-RabbitInv r r' (works q step e) v = rw e (works-RabbitInv r q step v)
  RabbitStep-RabbitInv r r' (signals end signal alive empty e) v =
      let p = signalled-PoolInv num workers r.pool end v.pool signal in rw e (ground arith)
  RabbitStep-RabbitInv r r' (receives at one e) v = rw e (ground arith)
  RabbitStep-RabbitInv r r' (gives_up at alive e) v = rw e (ground arith)
  RabbitStep-RabbitInv r r' (closes_jobs at e) v =
      let p = close_jobs-PoolInv num workers r.pool v.pool in rw e (ground arith)
  RabbitStep-RabbitInv r r' (joins at joined e) v = rw e (ground arith)
  RabbitStep-RabbitInv r r' (closes_done at alive e) v = rw e (ground arith)
  RabbitStep-RabbitInv r r' (panics at shut e) v = rw e (ground arith)
  RabbitStep-RabbitInv r r' (samples depth on e) v = rw e (samples-RabbitInv r depth v)
  RabbitStep-RabbitInv r r' (takes_signal on one e) v = rw e (ground arith)
  RabbitStep-RabbitInv r r' (sees_end on empty shut e) v = rw e (ground arith)

  started-RabbitInv :
      (s : S) {r : RabbitTest S}
      → RabbitReach publish num capacity (queue_test_rabbitmq workers s) r
      → RabbitInv num workers r
  started-RabbitInv s here = queue_test_rabbitmq-RabbitInv s
  started-RabbitInv s (next reach step) = RabbitStep-RabbitInv _ _ step (started-RabbitInv s reach)

  -- When the RabbitMQ load test replies, in whatever order its goroutines ran and whichever messages
  -- failed: the loop has ended and every job that it sent was published or has failed, each of the
  -- published with one latency. If the loop ended as complete, that makes all the messages of the
  -- test. There is at least one worker.
  pub rabbit_test_replied :
      (s : S) (r : RabbitTest S)
      → 1 ≤ workers
      → RabbitReach publish num capacity (queue_test_rabbitmq workers s) r
      → r.phase ≡ finished
      → (end : SendingEnd) × (r.pool.sender ≡ stopped end)
        × (r.pool.metrics.published_count + r.pool.metrics.publish_errors ≡ r.pool.messages_sent)
        × (length r.pool.metrics.publish_latencies ≡ r.pool.metrics.published_count)
        × SentBy end num r.pool.messages_sent
  rabbit_test_replied s r some_worker reach done =
      let v = started-RabbitInv s reach in
      let stage = v.stage in
      let over : is_over r.pool.sender ≡ true = ground arith in
      let joined : Joined r.pool = ground arith in
      let (end, is, sent) = ended_by r.pool.sender num r.pool.messages_sent over v.pool.complete in
      (end, is, Joined-settled num workers r.pool v.pool some_worker joined, v.pool.timed, sent)

  abbrev IsLost : RabbitTest S → Type 0
  IsLost r =
      (r.phase ≢ finished)
      × ((r.done_closed ≡ true)
          ⊎ ((r.phase ≡ waiting)
              × (r.monitoring ≡ false)
              × (r.signals ≡ 0)
              × (is_over r.pool.sender ≡ true)))

  RabbitStep-IsLost :
      (r r' : RabbitTest S) → RabbitStep publish num capacity r r' → IsLost r → IsLost r'
  RabbitStep-IsLost r r' (works q step e) lost =
      let (closed, over, joined) = PoolStep-frame publish num capacity r.pool q step in
      rw e (ground (arith, over))
  RabbitStep-IsLost r r' (signals end signal alive empty e) lost = rw e (ground arith)
  RabbitStep-IsLost r r' (receives at one e) lost = rw e (ground arith)
  RabbitStep-IsLost r r' (gives_up at alive e) lost = rw e (ground arith)
  RabbitStep-IsLost r r' (closes_jobs at e) lost = rw e (ground arith)
  RabbitStep-IsLost r r' (joins at joined e) lost = rw e (ground arith)
  RabbitStep-IsLost r r' (closes_done at alive e) lost = rw e (ground arith)
  RabbitStep-IsLost r r' (panics at shut e) lost = rw e (ground arith)
  RabbitStep-IsLost r r' (samples depth on e) lost = rw e (ground arith)
  RabbitStep-IsLost r r' (takes_signal on one e) lost = rw e (ground arith)
  RabbitStep-IsLost r r' (sees_end on empty shut e) lost = rw e (ground arith)

  RabbitReach-IsLost :
      {r r' : RabbitTest S} → RabbitReach publish num capacity r r' → IsLost r → IsLost r'
  RabbitReach-IsLost here lost = lost
  RabbitReach-IsLost (next reach step) lost =
      RabbitStep-IsLost _ _ step (RabbitReach-IsLost reach lost)

  -- The handler has given up on the signal, or the monitor has received it before the handler did.
  abbrev pub LostSignal : RabbitTest S → Type 0
  LostSignal r =
      ((r.phase ≡ closing) × (r.done_closed ≡ true))
      ⊎ ((r.phase ≡ waiting) × (r.monitoring ≡ false))

  -- Once the handler of the RabbitMQ load test has given up on the signal that all jobs are sent, or
  -- the monitor has received it before the handler did, the test never replies, whatever the
  -- goroutines do after.
  pub LostSignal-never_replies :
      (s : S) (r r' : RabbitTest S)
      → RabbitReach publish num capacity (queue_test_rabbitmq workers s) r
      → LostSignal r
      → RabbitReach publish num capacity r r'
      → r'.phase ≢ finished
  LostSignal-never_replies s r r' reach lost on =
      let v = started-RabbitInv s reach in
      let stage = v.stage in
      let is_lost : IsLost r = ground arith in (RabbitReach-IsLost on is_lost).0
