-- ===== src/Web/LoadTest/Redis.antt =====
-- The Redis load test of internal/infrastructure/web/test_redis.go: `testRedis` with the loop, the
-- workers and the monitor that it starts. The channel `done` holds one value; the handler and the
-- monitor both receive from it.
pub mod Safety
use hexagonal_queue.Prelude.{ℕ, ◌≡◌, Bool, true, false}
use hexagonal_queue.Prelude.Int.{ℤ}
use hexagonal_queue.Ports.{Operation}
use hexagonal_queue.Web.LoadTest.{SendingEnd}
use hexagonal_queue.Web.LoadTest.Pool.{
  signalling, stopped, Phase, waiting, closing, draining, finished, Pool, Joined, new_pool,
  sample_depth, PoolStep,
}

-- `signals` counts the values in `done`.
pub record RedisTest (S : Type 0) : Type 0 where
  pub pool : Pool S
  pub signals : ℕ
  pub monitoring : Bool
  pub phase : Phase

-- The source's numbers, 1000000 messages (`numMessages`), room for as many jobs and 10 workers
-- (`workerPool`), are arguments here.
--
-- With everything started, and the handler before `<-done`.
unfoldable pub test_redis : {S : Type 0} → ℕ → S → RedisTest S
test_redis workers s = record {
  pool = new_pool workers s;
  signals = 0;
  monitoring = true;
  phase = waiting;
}

pub data RedisStep {S : Type 0} (publish : ℕ → Operation S (Unit {0})) (num capacity : ℕ)
    (r r' : RedisTest S) : Type 0 where
  works :
      (q : Pool S)
      → PoolStep publish num capacity r.pool q
      → r' ≡ record r { pool = q }
      → RedisStep publish num capacity r r'
  -- `done <- true`
  signals :
      (end : SendingEnd)
      → r.pool.sender ≡ signalling end
      → r.signals ≡ 0
      → r' ≡ record r { pool = record r.pool { sender = stopped end }; signals = 1 }
      → RedisStep publish num capacity r r'
  -- `<-done` in the handler
  receives :
      r.phase ≡ waiting
      → r.signals ≡ 1
      → r' ≡ record r { signals = 0; phase = closing }
      → RedisStep publish num capacity r r'
  closes_jobs :
      r.phase ≡ closing
      → r' ≡ record r { pool = record r.pool { jobs_closed = true }; phase = draining }
      → RedisStep publish num capacity r r'
  -- after `wg.Wait()` the handler replies
  joins :
      r.phase ≡ draining
      → Joined r.pool
      → r' ≡ record r { phase = finished }
      → RedisStep publish num capacity r r'
  -- a look of the monitor at the length of the stream; if it fails, nothing happens
  samples :
      (stream_length : ℤ)
      → r.monitoring ≡ true
      → r' ≡ record r { pool = sample_depth stream_length r.pool }
      → RedisStep publish num capacity r r'
  -- `<-done` in the monitor
  stops_monitor :
      r.monitoring ≡ true
      → r.signals ≡ 1
      → r' ≡ record r { signals = 0; monitoring = false }
      → RedisStep publish num capacity r r'

pub data RedisReach {S : Type 0} (publish : ℕ → Operation S (Unit {0})) (num capacity : ℕ)
    (r : RedisTest S) : RedisTest S → Type 0 where
  here : RedisReach publish num capacity r r
  next :
      {r' r'' : RedisTest S}
      → RedisReach publish num capacity r r'
      → RedisStep publish num capacity r' r''
      → RedisReach publish num capacity r r''
