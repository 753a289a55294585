-- ===== src/Web/LoadTest/Pool/Books.antt =====
-- Every job handed out is in the channel, in the hands of a worker, published or failed.
use hexagonal_queue.Prelude.{
  ℕ, suc, ◌+◌, ◌≤◌, ◌<◌, ◌≡◌, refl, true, false, List, [], ◌∷◌, ◌++◌, Result-cases, inl, inr,
  length, length-append, arith,
}
use hexagonal_queue.Ports.{Operation}
use hexagonal_queue.Web.LoadTest.{SendingEnd, all_queued, time_limit}
use hexagonal_queue.Web.LoadTest.Pool.{
  Sender, sending, signalling, stopped, Pool, record_publish, record_sample, new_pool, send_job,
  publish_job, sample_depth, PoolStep, sends, times_out, ends, takes, publishes, leaves, ℤ, Joined,
  is_over,
}

-- How many of `num` jobs a loop that ended so has sent.
abbrev pub SentBy : SendingEnd → ℕ → ℕ → Type 0
SentBy all_queued num sent = sent ≡ num
SentBy time_limit num sent = sent ≤ num

abbrev pub Complete : Sender → ℕ → ℕ → Type 0
Complete sending num sent = sent ≤ num
Complete (signalling end) num sent = SentBy end num sent
Complete (stopped end) num sent = SentBy end num sent

pub ended_by :
    (sender : Sender) (num sent : ℕ)
    → is_over sender ≡ true
    → Complete sender num sent
    → (end : SendingEnd) × (sender ≡ stopped end) × SentBy end num sent
ended_by sending num sent over v = cc
ended_by (signalling end) num sent over v = cc
ended_by (stopped end) num sent over v = (end, refl, v)

pub record PoolInv {S : Type 0} (num workers : ℕ) (q : Pool S) : Type 0 where
  pub kept :
      q.messages_sent
      ≡ length q.jobs + length q.held + q.metrics.published_count + q.metrics.publish_errors
  pub timed : length q.metrics.publish_latencies ≡ q.metrics.published_count
  pub within : q.idle + length q.held ≤ workers
  pub complete : Complete q.sender num q.messages_sent
  -- a worker leaves only when no job is left and no other can follow
  pub drained : q.idle + length q.held < workers → (q.jobs ≡ []) × (q.jobs_closed ≡ true)

module _ {S : Type 0} (num workers : ℕ) where
  pub new_pool-PoolInv : (s : S) → PoolInv num workers (new_pool workers s)
  unfolding new_pool
  new_pool-PoolInv s = record {
    kept = omega arith;
    timed = refl;
    within = omega arith;
    complete = omega arith;
    drained = λ less. ground arith;
  }

  send_job-PoolInv :
      (q : Pool S)
      → PoolInv num workers q
      → q.sender ≡ sending
      → q.messages_sent < num
      → q.jobs_closed ≡ false
      → PoolInv num workers (send_job q)
  unfolding send_job
  send_job-PoolInv q v at_work left alive =
      ground (arith, length-append q.jobs (q.messages_sent ∷ []))

  publish_job-PoolInv :
      (publish : ℕ → Operation S (Unit {0})) (q : Pool S) (i latency : ℕ) (before after : List ℕ)
      → PoolInv num workers q
      → q.held ≡ before ++ (i ∷ after)
      → PoolInv num workers (publish_job publish i (before ++ after) latency q)
  unfolding publish_job record_publish
  publish_job-PoolInv publish q i latency before after v in_hand =
      let taken : length q.held ≡ length before + suc (length after) =
        rw in_hand (length-append before (i ∷ after)) in
      let less = length-append before after in
      let timed = length-append q.metrics.publish_latencies (latency ∷ []) in
      elim (Result-cases (publish i q.broker).0) [
        | inl (a, e) ↦ rw e (ground (arith, taken, less, timed))
        | inr (a, e) ↦ rw e (ground (arith, taken, less, timed))
      ]

  -- Whatever step the scheduler picks.
  pub PoolStep-PoolInv :
      (publish : ℕ → Operation S (Unit {0})) (capacity : ℕ) (q q' : Pool S)
      → PoolStep publish num capacity q q'
      → PoolInv num workers q
      → PoolInv num workers q'
  PoolStep-PoolInv publish capacity q q' (sends at_work left alive room e) v =
      rw e (send_job-PoolInv q v at_work left alive)
  PoolStep-PoolInv publish capacity q q' (times_out at_work left e) v = rw e (ground arith)
  PoolStep-PoolInv publish capacity q q' (ends at_work over e) v = rw e (ground arith)
  PoolStep-PoolInv publish capacity q q' (takes i rest free waiting e) v = rw e (ground arith)
  PoolStep-PoolInv publish capacity q q' (publishes i before after latency in_hand e) v =
      rw e (publish_job-PoolInv publish q i latency before after v in_hand)
  PoolStep-PoolInv publish capacity q q' (leaves free none_left closed e) v = rw e (ground arith)

  -- What the handler and the monitor do to it.
  pub close_jobs-PoolInv :
      (q : Pool S) → PoolInv num workers q → PoolInv num workers (record q { jobs_closed = true })
  close_jobs-PoolInv q v = ground arith

  pub signalled-PoolInv :
      (q : Pool S) (end : SendingEnd)
      → PoolInv num workers q
      → q.sender ≡ signalling end
      → PoolInv num workers (record q { sender = stopped end })
  signalled-PoolInv q end v at_signal = ground arith

  pub sample_depth-PoolInv :
      (depth : ℤ) (q : Pool S) → PoolInv num workers q → PoolInv num workers (sample_depth depth q)
  unfolding sample_depth record_sample
  sample_depth-PoolInv depth q v = ground arith

  -- Once all workers have left, each job handed out was published or has failed.
  pub Joined-settled :
      (q : Pool S)
      → PoolInv num workers q
      → 1 ≤ workers
      → Joined q
      → q.metrics.published_count + q.metrics.publish_errors ≡ q.messages_sent
  Joined-settled q v some_worker joined = ground arith

-- What no step of the loop or of a worker changes: the loop does not return before its signal is
-- taken, and after the last worker has left none comes back.
pub PoolStep-frame :
    {S : Type 0} (publish : ℕ → Operation S (Unit {0})) (num capacity : ℕ) (q q' : Pool S)
    → PoolStep publish num capacity q q'
    → (q'.jobs_closed ≡ q.jobs_closed)
      × (is_over q'.sender ≡ is_over q.sender)
      × (Joined q → Joined q')
unfolding send_job publish_job
PoolStep-frame publish num capacity q q' (sends at_work left alive room e) = rw e (ground arith)
PoolStep-frame publish num capacity q q' (times_out at_work left e) = rw e (ground arith)
PoolStep-frame publish num capacity q q' (ends at_work over e) = rw e (ground arith)
PoolStep-frame publish num capacity q q' (takes i rest free left e) = rw e (ground arith)
PoolStep-frame publish num capacity q q' (publishes i [] after latency in_hand e) =
    rw e (ground arith)
PoolStep-frame publish num capacity q q' (publishes i (x ∷ before) after latency in_hand e) =
    rw e (ground arith)
PoolStep-frame publish num capacity q q' (leaves free none_left closed e) = rw e (ground arith)
