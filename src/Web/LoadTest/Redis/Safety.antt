-- ===== src/Web/LoadTest/Redis/Safety.antt =====
-- What the Redis load test keeps, and who takes the one signal.
use hexagonal_queue.Prelude.{ℕ, ◌+◌, ◌≤◌, ◌≡◌, refl, Bool, true, false, length, arith, ◌⊎◌}
use hexagonal_queue.Prelude.Int.{ℤ}
use hexagonal_queue.Ports.{Operation}
use hexagonal_queue.Web.LoadTest.{SendingEnd}
use hexagonal_queue.Web.LoadTest.Pool.{
  stopped, is_over, Phase, waiting, closing, draining, stopping, finished, panicked, Pool, Joined,
  new_pool, sample_depth, PoolStep,
}
use hexagonal_queue.Web.LoadTest.Pool.Books.{
  PoolInv, PoolStep-PoolInv, PoolStep-frame, new_pool-PoolInv, close_jobs-PoolInv,
  signalled-PoolInv, sample_depth-PoolInv, Joined-settled, SentBy, ended_by,
}
use hexagonal_queue.Web.LoadTest.Redis.{
  RedisTest, test_redis, RedisStep, works, signals, receives, closes_jobs, joins, samples,
  stops_monitor, RedisReach, here, next,
}

-- The handler has received its signal.
abbrev is_past : Phase → Bool
is_past waiting = false
is_past closing = true
is_past draining = true
is_past stopping = true
is_past finished = true
is_past panicked = true

-- The loop gives its signal once; it is in the channel, or one of the two has taken it.
abbrev Signal : Bool → ℕ → Bool → Bool → Type 0
Signal false n on taken = (n ≡ 0) × (on ≡ true) × (taken ≡ false)
Signal true n on true = (n ≡ 0) × (on ≡ true)
Signal true n on false = ((n ≡ 1) × (on ≡ true)) ⊎ ((n ≡ 0) × (on ≡ false))

module _ {S : Type 0} where
  abbrev Stage : Phase → RedisTest S → Type 0
  Stage waiting r = r.pool.jobs_closed ≡ false
  Stage closing r = r.pool.jobs_closed ≡ false
  Stage draining r = r.pool.jobs_closed ≡ true
  Stage stopping r = ⊥
  Stage finished r = Joined r.pool
  Stage panicked r = ⊥

  pub record RedisInv (num workers : ℕ) (r : RedisTest S) : Type 0 where
    pub pool : PoolInv num workers r.pool
    pub signal : Signal (is_over r.pool.sender) r.signals r.monitoring (is_past r.phase)
    pub stage : Stage r.phase r

taken-Signal :
    (over on : Bool) (n : ℕ) → Signal over n on true → (over ≡ true) × (n ≡ 0) × (on ≡ true)
taken-Signal true on n v = (refl, v.0, v.1)
taken-Signal false on n v = ground arith

monitor-Signal :
    (over on : Bool) (n : ℕ) → on ≡ false → Signal over n on false → (over ≡ true) × (n ≡ 0)
monitor-Signal true on n off v = ground arith
monitor-Signal false on n off v = ground arith

module _ {S : Type 0} (publish : ℕ → Operation S (Unit {0})) (num workers capacity : ℕ) where
  test_redis-RedisInv : (s : S) → RedisInv num workers (test_redis workers s)
  unfolding test_redis new_pool
  test_redis-RedisInv s = record {
    pool = new_pool-PoolInv num workers s;
    signal = (refl, refl, refl);
    stage = refl;
  }

  works-RedisInv :
      (r : RedisTest S) (q : Pool S)
      → PoolStep publish num capacity r.pool q
      → RedisInv num workers r
      → RedisInv num workers (record r { pool = q })
  works-RedisInv r q step v =
      let p = PoolStep-PoolInv num workers publish capacity r.pool q step v.pool in
      let (closed, over, joined) = PoolStep-frame publish num capacity r.pool q step in
      ground (arith, closed, over, joined, p)

  samples-RedisInv :
      (r : RedisTest S) (stream_length : ℤ)
      → RedisInv num workers r
      → RedisInv num workers (record r { pool = sample_depth stream_length r.pool })
  unfolding sample_depth
  samples-RedisInv r stream_length v =
      let p = sample_depth-PoolInv num workers stream_length r.pool v.pool in ground (arith, p)

  RedisStep-RedisInv :
      (r r' : RedisTest S)
      → RedisStep publish num capacity r r'
      → RedisInv num workers r
      → RedisInv num workers r'
  RedisStep-RedisInv r r' (works q step e) v = rw e (works-RedisInv r q step v)
  RedisStep-RedisInv r r' (signals end signal empty e) v =
      let p = signalled-PoolInv num workers r.pool end v.pool signal in rw e (ground arith)
  RedisStep-RedisInv r r' (receives at one e) v = rw e (ground arith)
  RedisStep-RedisInv r r' (closes_jobs at e) v =
      let p = close_jobs-PoolInv num workers r.pool v.pool in rw e (ground arith)
  RedisStep-RedisInv r r' (joins at joined e) v = rw e (ground arith)
  RedisStep-RedisInv r r' (samples stream_length on e) v = rw e (samples-RedisInv r stream_length v)
  RedisStep-RedisInv r r' (stops_monitor on one e) v = rw e (ground arith)

  RedisReach-RedisInv :
      {r r' : RedisTest S}
      → RedisReach publish num capacity r r'
      → RedisInv num workers r
      → RedisInv num workers r'
  RedisReach-RedisInv here v = v
  RedisReach-RedisInv (next reach step) v =
      RedisStep-RedisInv _ _ step (RedisReach-RedisInv reach v)

  -- When the Redis load test replies, in whatever order its goroutines ran and whichever messages
  -- failed: the loop has ended, every job that it sent was published or has failed, each of the
  -- published with one latency; but the monitor is still running, and no signal is left for it. If
  -- the loop ended as complete, that makes all the messages of the test. There is at least one worker.
  pub redis_test_replied :
      (s : S) (r : RedisTest S)
      → 1 ≤ workers
      → RedisReach publish num capacity (test_redis workers s) r
      → r.phase ≡ finished
      → (end : SendingEnd) × (r.pool.sender ≡ stopped end)
        × (r.pool.metrics.published_count + r.pool.metrics.publish_errors ≡ r.pool.messages_sent)
        × (length r.pool.metrics.publish_latencies ≡ r.pool.metrics.published_count)
        × SentBy end num r.pool.messages_sent
        × (r.monitoring ≡ true)
        × (r.signals ≡ 0)
  redis_test_replied s r some_worker reach done =
      let v = RedisReach-RedisInv reach (test_redis-RedisInv s) in
      let stage = v.stage in
      let joined : Joined r.pool = rw done at stage in
      let signal = v.signal in
      let taken : Signal (is_over r.pool.sender) r.signals r.monitoring true = rw done at signal in
      let (over, none_left, on) =
        taken-Signal (is_over r.pool.sender) r.monitoring r.signals taken in
      let (end, is, sent) = ended_by r.pool.sender num r.pool.messages_sent over v.pool.complete in
      (
        end,
        is,
        Joined-settled num workers r.pool v.pool some_worker joined,
        v.pool.timed,
        sent,
        on,
        none_left,
      )

  abbrev IsLost : RedisTest S → Type 0
  IsLost r =
      (r.phase ≡ waiting)
      × (r.monitoring ≡ false)
      × (r.signals ≡ 0)
      × (is_over r.pool.sender ≡ true)

  RedisStep-IsLost :
      (r r' : RedisTest S) → RedisStep publish num capacity r r' → IsLost r → IsLost r'
  RedisStep-IsLost r r' (works q step e) lost =
      let (closed, over, joined) = PoolStep-frame publish num capacity r.pool q step in
      rw e (ground (arith, over))
  RedisStep-IsLost r r' (signals end signal empty e) lost = rw e (ground arith)
  RedisStep-IsLost r r' (receives at one e) lost = rw e (ground arith)
  RedisStep-IsLost r r' (closes_jobs at e) lost = rw e (ground arith)
  RedisStep-IsLost r r' (joins at joined e) lost = rw e (ground arith)
  RedisStep-IsLost r r' (samples stream_length on e) lost = rw e (ground arith)
  RedisStep-IsLost r r' (stops_monitor on one e) lost = rw e (ground arith)

  RedisReach-IsLost :
      {r r' : RedisTest S} → RedisReach publish num capacity r r' → IsLost r → IsLost r'
  RedisReach-IsLost here lost = lost
  RedisReach-IsLost (next reach step) lost =
      RedisStep-IsLost _ _ step (RedisReach-IsLost reach lost)

  -- Once the monitor of the Redis load test has received the signal that all jobs are sent, before
  -- the handler did, the handler waits for it for ever, whatever the goroutines do after.
  pub lost_signal_waits :
      (s : S) (r r' : RedisTest S)
      → RedisReach publish num capacity (test_redis workers s) r
      → r.phase ≡ waiting
      → r.monitoring ≡ false
      → RedisReach publish num capacity r r'
      → r'.phase ≡ waiting
  lost_signal_waits s r r' reach at off on =
      let v = RedisReach-RedisInv reach (test_redis-RedisInv s) in
      let signal = v.signal in
      let free : Signal (is_over r.pool.sender) r.signals r.monitoring false = rw at at signal in
      let (over, none_left) =
        monitor-Signal (is_over r.pool.sender) r.monitoring r.signals off free in
      (RedisReach-IsLost on (at, off, none_left, over)).0
