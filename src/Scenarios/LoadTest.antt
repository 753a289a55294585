-- ===== src/Scenarios/LoadTest.antt =====
-- Ten jobs in batches of four, with a clock that runs down.
use hexagonal_queue.Prelude.{ℕ, suc, zero, Bool, true, false, arith}
use hexagonal_queue.Web.LoadTest.{send_jobs_batched}
use hexagonal_queue.Web.LoadTest.Sending.{Finished, send_jobs_batched_ends}

-- The time is over after as many looks at the clock as it shows.
abbrev clock : ℕ → Bool × ℕ
clock zero = (true, 0)
clock (suc n) = (false, n)

send_jobs_batched_ends_example : Finished clock 10 0 (send_jobs_batched clock 11 10 4 0 7)
send_jobs_batched_ends_example =
    send_jobs_batched_ends clock 10 10 4 0 7 (omega arith) (omega arith) (omega arith)
