-- ===== src/Web/LoadTest/Kafka/Progress.antt =====
-- The Kafka load test never gets stuck, and comes to its reply.
use hexagonal_queue.Prelude.{
  ℕ, zero, suc, ◌+◌, ◌*◌, ◌≤◌, ◌≡◌, ◌⊎◌, inl, inr, refl, true, false, ltb, Bool-cases, arith,
}
use hexagonal_queue.Ports.{Operation}
use hexagonal_queue.Web.LoadTest.Pool.{
  Sender, sending, signalling, stopped, is_over, Phase, waiting, closing, draining, stopping,
  finished, panicked, SendsOnClosed, new_pool, sample_depth, times_out, ends,
}
use hexagonal_queue.Web.LoadTest.Pool.Work.{pool_work, PoolStep-works, busy-PoolStep}
use hexagonal_queue.Web.LoadTest.Kafka.{
  KafkaTest, kafka_load_test, KafkaStep, works, meets, closes_jobs, joins, stops_monitor, samples,
  KafkaReach, here, next,
}
use hexagonal_queue.Web.LoadTest.Kafka.Safety.{
  KafkaInv, Stage, KafkaStep-KafkaInv, started-KafkaInv,
}

abbrev handler_work : Phase → ℕ
handler_work waiting = 4
handler_work closing = 3
handler_work draining = 2
handler_work stopping = 1
handler_work finished = 0
handler_work panicked = 0

module _ {S : Type 0} (publish : ℕ → Operation S (Unit {0})) (num capacity : ℕ) where
  abbrev work : KafkaTest S → ℕ
  work r = pool_work num r.pool + handler_work r.phase

  -- A step of the loop, of a worker or of the handler, and not a look of the monitor.
  abbrev cost : {r r' : KafkaTest S} → KafkaStep publish num capacity r r' → ℕ
  cost (works _ _ _) = 1
  cost (meets _ _ _ _) = 1
  cost (closes_jobs _ _) = 1
  cost (joins _ _ _) = 1
  cost (stops_monitor _ _ _) = 1
  cost (samples _ _) = 0

  -- The steps of a run but those that only read the lag.
  abbrev pub steps_of : {r r' : KafkaTest S} → KafkaReach publish num capacity r r' → ℕ
  steps_of here = 0
  steps_of (next reach step) = steps_of reach + cost step

  KafkaStep-work :
      (r r' : KafkaTest S) (step : KafkaStep publish num capacity r r')
      → work r' + cost step ≤ work r
  unfolding sample_depth
  KafkaStep-work r r' (works q step e) =
      let less = PoolStep-works publish num capacity r.pool q step in rw e (ground (arith, less))
  KafkaStep-work r r' (meets end signal at e) = rw e (ground arith)
  KafkaStep-work r r' (closes_jobs at e) = rw e (ground arith)
  KafkaStep-work r r' (joins at joined e) = rw e (ground arith)
  KafkaStep-work r r' (stops_monitor at on e) = rw e (ground arith)
  KafkaStep-work r r' (samples on e) = rw e (ground arith)

  KafkaReach-work :
      {r r' : KafkaTest S} (reach : KafkaReach publish num capacity r r')
      → work r' + steps_of reach ≤ work r
  KafkaReach-work here = omega arith
  KafkaReach-work (next reach step) = omega (arith, KafkaReach-work reach, KafkaStep-work _ _ step)

  abbrev GoesOn : KafkaTest S → Type 0
  GoesOn r = (r' : KafkaTest S) × (step : KafkaStep publish num capacity r r') × (cost step ≡ 1)

  waiting-GoesOn :
      (r : KafkaTest S) (sender : Sender)
      → r.phase ≡ waiting
      → r.pool.sender ≡ sender
      → is_over sender ≡ false
      → GoesOn r
  waiting-GoesOn r sending at is over = elim (Bool-cases (ltb r.pool.messages_sent num)) [
    | inl left ↦ (_, works _ (times_out is (ground arith) refl) refl, refl)
    | inr none_left ↦ (_, works _ (ends is (ground arith) refl) refl, refl)
  ]
  waiting-GoesOn r (signalling end) at is over = (_, meets end is at refl, refl)
  waiting-GoesOn r (stopped end) at is over = cc

  draining-GoesOn : (r : KafkaTest S) → r.phase ≡ draining → r.pool.jobs_closed ≡ true → GoesOn r
  draining-GoesOn r at closed = elim (busy-PoolStep publish num capacity r.pool closed) [
    | inl joined ↦ (_, joins at joined refl, refl)
    | inr (q, step) ↦ (_, works q step refl, refl)
  ]

  -- At each point but the last, some goroutine can go on.
  phase-GoesOn :
      (r : KafkaTest S) (phase : Phase)
      → r.phase ≡ phase
      → Stage phase r
      → (phase ≡ finished) ⊎ GoesOn r
  phase-GoesOn r waiting at v = inr (waiting-GoesOn r r.pool.sender at refl v.1)
  phase-GoesOn r closing at v = inr (_, closes_jobs at refl, refl)
  phase-GoesOn r draining at v = inr (draining-GoesOn r at v.0)
  phase-GoesOn r stopping at v = inr (_, stops_monitor at v.2 refl, refl)
  phase-GoesOn r finished at v = inl refl
  phase-GoesOn r panicked at v = absurd v

  abbrev Finishable : KafkaTest S → Type 0
  Finishable r = (r' : KafkaTest S) × KafkaReach publish num capacity r r' × (r'.phase ≡ finished)

  first :
      {r r' r'' : KafkaTest S}
      → KafkaStep publish num capacity r r'
      → KafkaReach publish num capacity r' r''
      → KafkaReach publish num capacity r r''
  first step here = next here step
  first step (next reach last) = next (first step reach) last

  KafkaInv-Finishable :
      (workers fuel : ℕ) (r : KafkaTest S) → work r ≤ fuel → KafkaInv num workers r → Finishable r
  KafkaInv-Finishable workers zero r enough v = elim (phase-GoesOn r r.phase refl v.stage) [
    | inl done ↦ (r, here, done)
    | inr (r', step, costs) ↦ let less = KafkaStep-work r r' step in ground arith
  ]
  KafkaInv-Finishable workers (suc fuel) r enough v = elim (phase-GoesOn r r.phase refl v.stage) [
    | inl done ↦ (r, here, done)
    | inr (r', step, costs) ↦
        let less = KafkaStep-work r r' step in
        let (r'', reach, done) =
          KafkaInv-Finishable workers fuel r' (ground arith)
            (KafkaStep-KafkaInv publish num workers capacity r r' step v) in
        (r'', first step reach, done)
  ]

  never_on_closed : (phase : Phase) (r : KafkaTest S) → Stage phase r → ¬ SendsOnClosed num r.pool
  never_on_closed phase r v (at_work, left, closed) = ground arith

  -- The Kafka load test ends, in whatever order its goroutines run and whichever messages fail: after
  -- any run from its start, which has at most 4 * num + workers + 6 steps besides the looks of the
  -- monitor, the loop is not about to send on a closed channel, and the test can go on to its reply.
  pub kafka_load_test_ends :
      (workers : ℕ) (s : S) (r : KafkaTest S)
      (reach : KafkaReach publish num capacity (kafka_load_test workers s) r)
      → (steps_of reach ≤ 4 * num + workers + 6)
        × (¬ SendsOnClosed num r.pool)
        × (r' : KafkaTest S) × KafkaReach publish num capacity r r'
        × (r'.phase ≡ finished)
  unfolding kafka_load_test new_pool
  kafka_load_test_ends workers s r reach =
      let v = started-KafkaInv publish num workers capacity s r reach in
      let bound = KafkaReach-work reach in
      let (r', on, done) = KafkaInv-Finishable workers (work r) r (omega arith) v in
      (ground (arith, bound), never_on_closed r.phase r v.stage, r', on, done)
