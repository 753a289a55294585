-- ===== src/Web/LoadTest/Sending.antt =====
-- The loop ends, and sends each job at most once, in order.
use hexagonal_queue.Prelude.{
  Bool-cases, inl, inr, ℕ, zero, suc, ◌+◌, ◌≤◌, ◌≡◌, refl, ap, Bool, true, false, Option, some,
  List, [], ◌∷◌, ◌++◌, ltb, if◌then◌else◌, arith,
}
use hexagonal_queue.Web.LoadTest.{
  SendingEnd, all_queued, time_limit, send_batch, batch_length, then_send, send_jobs_batched,
}

-- `k` numbers from `i` on.
abbrev pub count_from : ℕ → ℕ → List ℕ
count_from i zero = []
count_from i (suc k) = i ∷ count_from (suc i) k

count_from-append : (i a b : ℕ) → count_from i a ++ count_from (i + a) b ≡ count_from i (a + b)
count_from-append i zero b =
    let at_start : i + 0 ≡ i = omega arith in
    let nothing : 0 + b ≡ b = omega arith in rw (at_start, nothing) refl
count_from-append i (suc a) b =
    let on : i + suc a ≡ suc i + a = omega arith in
    let one_more : suc a + b ≡ suc (a + b) = omega arith in
    rw (on, one_more) (ap (λ l. i ∷ l) (count_from-append (suc i) a b))

batch_length-bounds :
    {S : Type 0} (timeout : S → Bool × S) (num batch sent : ℕ)
    → 1 ≤ batch
    → ltb sent num ≡ true
    → (1 ≤ batch_length timeout num batch sent) × (sent + batch_length timeout num batch sent ≤ num)
batch_length-bounds timeout num batch sent some_jobs left = (ground arith, ground arith)

module _ {S : Type 0} (timeout : S → Bool × S) where
  -- A batch is cut short only by the time.
  send_batch-counts :
      (n i : ℕ) (s : S)
      → (k : ℕ) × (k ≤ n)
        × ((send_batch timeout n i s).0 ≡ count_from i k)
        × ((send_batch timeout n i s).1 ≡ false → k ≡ n)
  send_batch-counts zero i s = (0, omega arith, refl, λ _. refl)
  send_batch-counts (suc n) i s = elim (Bool-cases (timeout s).0) [
    | inl late ↦ rw late (0, omega arith, refl, λ q. cc)
    | inr early ↦
        let (k, small, counted, whole) = send_batch-counts n (suc i) (timeout s).1 in
        rw early (suc k, omega (arith, small), ap (λ l. i ∷ l) counted, λ q. omega (arith, whole q))
  ]

  -- The loop came to an end: it sent the jobs from `sent` on, in order, up to a number that is at most
  -- `num`, and is `num` if it ended as complete.
  abbrev pub Finished : ℕ → ℕ → Option (List ℕ × SendingEnd × S) → Type 0
  Finished num sent out =
      (k : ℕ) × (end : SendingEnd) × (s' : S) × (out ≡ some (count_from sent k, end, s'))
      × (sent + k ≤ num)
      × (end ≡ all_queued → sent + k ≡ num)

  cut_short :
      (num sent k : ℕ) (jobs : List ℕ) (s' : S)
      → jobs ≡ count_from sent k
      → sent + k ≤ num
      → Finished num sent (some (jobs, time_limit, s'))
  cut_short num sent k jobs s' counted within =
      (k, time_limit, s', ap (λ l. some (l, time_limit, s')) counted, within, λ q. cc)

  went_on :
      (num sent k : ℕ) (jobs : List ℕ) (rest : Option (List ℕ × SendingEnd × S))
      → jobs ≡ count_from sent k
      → Finished num (sent + k) rest
      → Finished num sent (then_send timeout jobs rest)
  went_on num sent k jobs rest counted (k', end, s', is, within, whole) = (
    k + k',
    end,
    s',
    rw (is, counted) (ap (λ l. some (l, end, s')) (count_from-append sent k k')),
    omega (arith, within),
    λ q. omega (arith, whole q),
  )

  -- One round: late, cut short in its batch, or gone on from.
  a_round :
      (num sent len : ℕ) (late over : Bool) (jobs : List ℕ) (s' s'' : S)
      (rest : Option (List ℕ × SendingEnd × S))
      → sent + len ≤ num
      → (k : ℕ) × (k ≤ len) × (jobs ≡ count_from sent k) × (over ≡ false → k ≡ len)
      → Finished num (sent + len) rest
      → Finished num sent (
          if late
          then some ([], time_limit, s')
          else if over
          then some (jobs, time_limit, s'')
          else then_send timeout jobs rest)
  a_round num sent len true over jobs s' s'' rest fits counted later =
      cut_short num sent 0 [] s' refl (omega (arith, fits))
  a_round num sent len false true jobs s' s'' rest fits (k, small, counted, whole) later =
      cut_short num sent k jobs s'' counted (omega (arith, fits, small))
  a_round num sent len false false jobs s' s'' rest fits (k, small, counted, whole) later =
      let same : k ≡ len = whole refl in went_on num sent k jobs rest counted (rw same later)

  -- With batches of at least one job, the loop always ends, after at most as many rounds as jobs are
  -- left, whatever the clock says: it sends jobs from the first on, each once and in order, and if it
  -- reports that all are queued, then all of them.
  pub send_jobs_batched_ends :
      (fuel num batch sent : ℕ) (s : S)
      → 1 ≤ batch
      → sent ≤ num
      → num ≤ sent + fuel
      → Finished num sent (send_jobs_batched timeout (suc fuel) num batch sent s)
  unfolding send_jobs_batched
  send_jobs_batched_ends zero num batch sent s some_jobs within enough =
      let over : ltb sent num ≡ false = ground arith in
      rw over (0, all_queued, s, refl, omega (arith, within), λ _. omega (arith, within, enough))
  send_jobs_batched_ends (suc fuel) num batch sent s some_jobs within enough =
      elim (Bool-cases (ltb sent num)) [
        | inr over ↦ rw over (0, all_queued, s, refl, omega (arith, within), λ _. ground arith)
        | inl left ↦
            let len = batch_length timeout num batch sent in
            let (moves, fits) = batch_length-bounds timeout num batch sent some_jobs left in
            let x = send_batch timeout len sent (timeout s).1 in
            rw left (
              a_round num sent len (timeout s).0 x.1 x.0 (timeout s).1 x.2
                (send_jobs_batched timeout (suc fuel) num batch (sent + len) x.2) fits
                (send_batch-counts len sent (timeout s).1)
                (send_jobs_batched_ends fuel num batch (sent + len) x.2 some_jobs fits
                  (omega (arith, enough, moves))))
      ]
