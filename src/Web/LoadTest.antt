-- ===== src/Web/LoadTest.antt =====
-- The loop that hands out the jobs of a load test, in internal/infrastructure/web/test_rabbitmq.go and
-- in the same words in test_kafka.go and test_redis.go. The clock enters as the answers to `timeout`:
-- whether a `select` takes that case.
pub mod Sending
pub mod Pool
pub mod Stats
pub mod Workers
pub mod Kafka
pub mod Rabbitmq
pub mod Redis
use hexagonal_queue.Prelude.{
  ℕ, zero, suc, ◌+◌, ◌-◌, Bool, true, false, Option, none, some, List, [], ◌∷◌, ◌++◌, ltb,
  if◌then◌else◌,
}

-- Why the loop ended: every job was sent, or the time was over. Both signal `done` once.
pub data SendingEnd : Type 0 where
  all_queued : SendingEnd
  time_limit : SendingEnd

module _ {S : Type 0} (timeout : S → Bool × S) where
  -- The inner loop: at most `n` jobs from `i` on; with whether the time was over.
  abbrev pub send_batch : ℕ → ℕ → S → List ℕ × Bool × S
  send_batch zero i s = ([], false, s)
  send_batch (suc n) i s =
      let (late, s') = timeout s in
      let (jobs, over, s'') = send_batch n (suc i) s' in
      if late then ([], true, s') else (i ∷ jobs, over, s'')

  -- `batchEnd - messagesSent`
  abbrev pub batch_length : ℕ → ℕ → ℕ → ℕ
  batch_length num_messages batch_size sent =
      let batch_end = sent + batch_size in
      (if ltb num_messages batch_end then num_messages else batch_end) - sent

  abbrev pub then_send :
      List ℕ → Option (List ℕ × SendingEnd × S) → Option (List ℕ × SendingEnd × S)
  then_send jobs none = none
  then_send jobs (some (rest, end, s)) = some (jobs ++ rest, end, s)

  -- The outer loop, with fuel for its rounds: the jobs sent, in order.
  unfoldable pub send_jobs_batched : ℕ → ℕ → ℕ → ℕ → S → Option (List ℕ × SendingEnd × S)
  send_jobs_batched zero num_messages batch_size sent s = none
  send_jobs_batched (suc fuel) num_messages batch_size sent s =
      let (late, s') = timeout s in
      let (jobs, over, s'') = send_batch (batch_length num_messages batch_size sent) sent s' in
      let rest =
        send_jobs_batched fuel num_messages batch_size
          (sent + batch_length num_messages batch_size sent) s'' in
      if ltb sent num_messages
      then (if late
          then some ([], time_limit, s')
          else if over
          then some (jobs, time_limit, s'')
          else then_send jobs rest)
      else some ([], all_queued, s)
