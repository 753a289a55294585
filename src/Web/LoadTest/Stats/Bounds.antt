-- ===== src/Web/LoadTest/Stats/Bounds.antt =====
-- What the latencies of a reply say about those that were measured.
use hexagonal_queue.Prelude.{
  ℕ, suc, ◌+◌, ◌*◌, ◌/◌, ◌≤◌, ◌≡◌, refl, inl, inr, List, [], ◌∷◌, All, ltb, length, if◌then◌else◌,
  arith, ◌⊎◌, Bool, true, false, sym,
}
use native.Mathlib.Nat.{div-le_of_le-mul}
use mathlib.Core.Path.{subst}
use hexagonal_queue.Ports.Store.{Elem}
use hexagonal_queue.Platform.{Platform}
use hexagonal_queue.Web.LoadTest.Pool.{LoadMetrics}
use hexagonal_queue.Web.LoadTest.Stats.{
  latency_loop, latency_stats, Measures, calculate_rabbitmq_stats, calculate_kafka_stats,
  calculate_redis_stats,
}

-- The test that the loop makes, on any number it may come out with.
step_bounds :
    (total largest x n m t : ℕ)
    → (if ltb largest x then x else largest) ≤ m
    → t ≤ total + x + n * m
    → (largest ≤ m) × (x ≤ m) × (t ≤ total + suc n * m)
step_bounds total largest x n m t grown small =
    let one_more : suc n * m ≡ m + n * m = omega arith in
    let here : (largest ≤ m) × (x ≤ m) = ground arith in
    (here.0, here.1, omega (arith, small, one_more, here.1))

latency_loop-bounds :
    (total largest : ℕ) (xs : List ℕ)
    → (largest ≤ (latency_loop total largest xs).1)
      × All (λ x. x ≤ (latency_loop total largest xs).1) xs
      × ((latency_loop total largest xs).0 ≤ total + length xs * (latency_loop total largest xs).1)
latency_loop-bounds total largest [] = (omega arith, tt, omega arith)
latency_loop-bounds total largest (x ∷ xs) =
    let next = if ltb largest x then x else largest in
    let out = latency_loop (total + x) next xs in
    let (grown, all, small) = latency_loop-bounds (total + x) next xs in
    let (above, here, sum) = step_bounds total largest x (length xs) out.1 out.0 grown small in
    (above, (here, all), sum)

attained_step :
    (b : Bool) (x largest m : ℕ) (xs : List ℕ)
    → (m ≡ (if b then x else largest)) ⊎ Elem m xs
    → (m ≡ largest) ⊎ ((m ≡ x) ⊎ Elem m xs)
attained_step true x largest m xs (inl h) = inr (inl h)
attained_step false x largest m xs (inl h) = inl h
attained_step b x largest m xs (inr h) = inr (inr h)

-- The number of the loop that is largest was there from the start, or is one of the list.
latency_loop-attained :
    (total largest : ℕ) (xs : List ℕ)
    → ((latency_loop total largest xs).1 ≡ largest) ⊎ Elem (latency_loop total largest xs).1 xs
latency_loop-attained total largest [] = inl refl
latency_loop-attained total largest (x ∷ xs) =
    attained_step (ltb largest x) x largest (latency_loop total largest (x ∷ xs)).1 xs
      (latency_loop-attained (total + x) (if ltb largest x then x else largest) xs)

-- The largest of the numbers, or 0 if there are none, with an average that is not above it.
abbrev pub Summarised : ℕ → ℕ → List ℕ → Type 0
Summarised average largest xs =
    (average ≤ largest) × All (λ x. x ≤ largest) xs × ((largest ≡ 0) ⊎ Elem largest xs)

latency_stats-Summarised : (xs : List ℕ) → Summarised (latency_stats xs).0 (latency_stats xs).1 xs
latency_stats-Summarised [] = (omega arith, tt, inl refl)
latency_stats-Summarised (x ∷ xs) =
    let (above, all, small) = latency_loop-bounds 0 0 (x ∷ xs) in
    let out = latency_loop 0 0 (x ∷ xs) in
    let not_none : ltb 0 (suc (length xs)) ≡ true = ground arith in
    let within : out.0 ≤ suc (length xs) * out.1 = omega (arith, small) in
    let whole : latency_stats (x ∷ xs) ≡ (out.0 / suc (length xs), out.1) = rw not_none refl in
    subst (λ o. Summarised o.0 o.1 (x ∷ xs)) (sym whole)
      (div-le_of_le-mul (suc (length xs)) within, all, latency_loop-attained 0 0 (x ∷ xs))

-- In the reply of each of the three load tests, the largest latency is that of one of the messages
-- that were published, or 0 if there are none, and no latency is above it; the average is not above it
-- either.
pub calculate_stats-Summarised :
    (p : Platform) (measures : Measures p) (duration : ℕ) (metrics : LoadMetrics)
    → let rabbit = calculate_rabbitmq_stats measures duration metrics in
      let kafka = calculate_kafka_stats measures duration metrics in
      let redis = calculate_redis_stats measures duration metrics in
      Summarised rabbit.avg_publish_latency rabbit.max_publish_latency metrics.publish_latencies
      × Summarised kafka.avg_publish_latency kafka.max_publish_latency metrics.publish_latencies
      × Summarised redis.avg_publish_latency redis.max_publish_latency metrics.publish_latencies
unfolding calculate_rabbitmq_stats calculate_kafka_stats calculate_redis_stats
calculate_stats-Summarised p measures duration metrics =
    let all = latency_stats-Summarised metrics.publish_latencies in (all, all, all)
