-- ===== src/Web/LoadTest/Pool/Work.antt =====
-- How much is left to do for the loop and the workers of a load test: every step of theirs makes it
-- less.
use hexagonal_queue.Prelude.{
  ℕ, suc, ◌+◌, ◌-◌, ◌*◌, ◌≤◌, ◌<◌, ◌≡◌, refl, true, List, [], ◌∷◌, length, length-append, ltb,
  Bool-cases, inl, inr, ◌⊎◌, arith,
}
use hexagonal_queue.Ports.{Operation}
use hexagonal_queue.Web.LoadTest.Pool.{
  Sender, sending, signalling, stopped, Pool, Joined, send_job, publish_job, PoolStep, sends,
  times_out, ends, takes, publishes, leaves,
}

abbrev pub sender_work : Sender → ℕ
sender_work sending = 2
sender_work (signalling _) = 1
sender_work (stopped _) = 0

-- A job is sent, taken and published, and a worker leaves.
abbrev pub pool_work : {S : Type 0} → ℕ → Pool S → ℕ
pool_work num q =
    4 * (num - q.messages_sent)
    + 3 * length q.jobs
    + 2 * length q.held
    + q.idle
    + sender_work q.sender

List-cases : {A : Type 0} (xs : List A) → (xs ≡ []) ⊎ ((x : A) × (rest : List A) × (xs ≡ x ∷ rest))
List-cases [] = inl refl
List-cases (x ∷ rest) = inr (x, rest, refl)

-- Nobody is left, someone holds a job, someone can take one, or someone finds none.
worker_cases :
    {S : Type 0} (q : Pool S)
    → Joined q
      ⊎ (((i : ℕ) × (rest : List ℕ) × (q.held ≡ i ∷ rest))
          ⊎ (((1 ≤ q.idle) × (i : ℕ) × (rest : List ℕ) × (q.jobs ≡ i ∷ rest))
              ⊎ ((1 ≤ q.idle) × (q.jobs ≡ []))))
worker_cases q = elim (List-cases q.held) [
  | inr held ↦ inr (inl held)
  | inl none_held ↦ elim (Bool-cases (ltb 0 q.idle)) [
    | inr none_idle ↦ inl (ground arith, none_held)
    | inl free ↦ elim (List-cases q.jobs) [
      | inr (i, rest, queued) ↦ inr (inr (inl (ground arith, i, rest, queued)))
      | inl none_left ↦ inr (inr (inr (ground arith, none_left)))
    ]
  ]
]

module _ {S : Type 0} (publish : ℕ → Operation S (Unit {0})) (num capacity : ℕ) where
  pub PoolStep-works :
      (q q' : Pool S) → PoolStep publish num capacity q q' → pool_work num q' < pool_work num q
  unfolding send_job publish_job
  PoolStep-works q q' (sends at_work left alive room e) =
      let one = length-append q.jobs (q.messages_sent ∷ []) in rw e (ground (arith, one))
  PoolStep-works q q' (times_out at_work left e) = rw e (ground arith)
  PoolStep-works q q' (ends at_work over e) = rw e (ground arith)
  PoolStep-works q q' (takes i rest free left e) = rw e (ground arith)
  PoolStep-works q q' (publishes i before after latency in_hand e) =
      let taken : length q.held ≡ length before + suc (length after) =
        rw in_hand (length-append before (i ∷ after)) in
      let less = length-append before after in rw e (ground (arith, taken, less))
  PoolStep-works q q' (leaves free none_left closed e) = rw e (ground arith)

  -- While workers are in their loops and no more jobs come, one of them can go on.
  pub busy-PoolStep :
      (q : Pool S)
      → q.jobs_closed ≡ true
      → Joined q ⊎ ((q' : Pool S) × PoolStep publish num capacity q q')
  busy-PoolStep q closed = elim (worker_cases q) [
    | inl joined ↦ inl joined
    | inr (inl (i, rest, in_hand)) ↦ inr (_, publishes i [] rest 0 in_hand refl)
    | inr (inr (inl (free, i, rest, queued))) ↦ inr (_, takes i rest free queued refl)
    | inr (inr (inr (free, none_left))) ↦ inr (_, leaves free none_left closed refl)
  ]
