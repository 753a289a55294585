-- ===== src/Web/LoadTest/Rabbitmq.antt =====
-- The RabbitMQ load test: `QueueTestRabbitmqDepositHandler` of internal/infrastructure/web/handlers.go
-- with the loop, the workers and the monitor of test_rabbitmq.go that it starts. The channel `done`
-- holds one value; the handler and the monitor both receive from it, and the handler closes it.
pub mod Safety
use hexagonal_queue.Prelude.{ℕ, ◌≡◌, Bool, true, false}
use hexagonal_queue.Prelude.Int.{ℤ}
use hexagonal_queue.Ports.{Operation}
use hexagonal_queue.Web.LoadTest.{SendingEnd}
use hexagonal_queue.Web.LoadTest.Pool.{
  signalling, stopped, Phase, waiting, closing, draining, stopping, finished, panicked, Pool,
  Joined, new_pool, sample_depth, PoolStep,
}

-- `signals` counts the values in `done`.
pub record RabbitTest (S : Type 0) : Type 0 where
  pub pool : Pool S
  pub signals : ℕ
  pub done_closed : Bool
  pub monitoring : Bool
  pub phase : Phase

-- The source's numbers, 1000 messages (`numMessages`), room for as many jobs and 2 workers
-- (`workerPool`), are arguments here.
--
-- With everything started, and the handler before its `select`.
unfoldable pub queue_test_rabbitmq : {S : Type 0} → ℕ → S → RabbitTest S
queue_test_rabbitmq workers s = record {
  pool = new_pool workers s;
  signals = 0;
  done_closed = false;
  monitoring = true;
  phase = waiting;
}

pub data RabbitStep {S : Type 0} (publish : ℕ → Operation S (Unit {0})) (num capacity : ℕ)
    (r r' : RabbitTest S) : Type 0 where
  works :
      (q : Pool S)
      → PoolStep publish num capacity r.pool q
      → r' ≡ record r { pool = q }
      → RabbitStep publish num capacity r r'
  -- `done <- true`
  signals :
      (end : SendingEnd)
      → r.pool.sender ≡ signalling end
      → r.done_closed ≡ false
      → r.signals ≡ 0
      → r' ≡ record r { pool = record r.pool { sender = stopped end }; signals = 1 }
      → RabbitStep publish num capacity r r'
  -- the two cases of the `select` in the handler
  receives :
      r.phase ≡ waiting
      → r.signals ≡ 1
      → r' ≡ record r { signals = 0; phase = closing }
      → RabbitStep publish num capacity r r'
  gives_up :
      r.phase ≡ waiting
      → r.done_closed ≡ false
      → r' ≡ record r { done_closed = true; phase = closing }
      → RabbitStep publish num capacity r r'
  closes_jobs :
      r.phase ≡ closing
      → r' ≡ record r { pool = record r.pool { jobs_closed = true }; phase = draining }
      → RabbitStep publish num capacity r r'
  joins :
      r.phase ≡ draining
      → Joined r.pool
      → r' ≡ record r { phase = stopping }
      → RabbitStep publish num capacity r r'
  -- `close(done)` before the reply, of a channel that is open or closed
  closes_done :
      r.phase ≡ stopping
      → r.done_closed ≡ false
      → r' ≡ record r { done_closed = true; phase = finished }
      → RabbitStep publish num capacity r r'
  panics :
      r.phase ≡ stopping
      → r.done_closed ≡ true
      → r' ≡ record r { phase = panicked }
      → RabbitStep publish num capacity r r'
  -- a look of the monitor at the depth of the queue, -1 if it fails
  samples :
      (depth : ℤ)
      → r.monitoring ≡ true
      → r' ≡ record r { pool = sample_depth depth r.pool }
      → RabbitStep publish num capacity r r'
  -- `<-done` in the monitor: a value that is left, or the end of a closed channel
  takes_signal :
      r.monitoring ≡ true
      → r.signals ≡ 1
      → r' ≡ record r { signals = 0; monitoring = false }
      → RabbitStep publish num capacity r r'
  sees_end :
      r.monitoring ≡ true
      → r.signals ≡ 0
      → r.done_closed ≡ true
      → r' ≡ record r { monitoring = false }
      → RabbitStep publish num capacity r r'

pub data RabbitReach {S : Type 0} (publish : ℕ → Operation S (Unit {0})) (num capacity : ℕ)
    (r : RabbitTest S) : RabbitTest S → Type 0 where
  here : RabbitReach publish num capacity r r
  next :
      {r' r'' : RabbitTest S}
      → RabbitReach publish num capacity r r'
      → RabbitStep publish num capacity r' r''
      → RabbitReach publish num capacity r r''
