-- ===== src/Web/LoadTest/Stats.antt =====
-- The statistics of the three load tests (test_rabbitmq.go, test_kafka.go, test_redis.go of
-- internal/infrastructure/web) and the thresholds of their monitors. The divisions of float64 and the
-- text of a duration are the platform's; sums of int64 do not overflow here.
pub mod Bounds
use hexagonal_queue.Prelude.{
  ℕ, suc, ◌+◌, ◌/◌, String, Bool, List, [], ◌∷◌, ltb, leb, length, if◌then◌else◌,
}
use hexagonal_queue.Prelude.Int.{ℤ, pos, ltb_ℤ, leb_ℤ, ◌+ℤ◌}
use hexagonal_queue.Platform.{Platform}
use hexagonal_queue.Web.LoadTest.Pool.{LoadMetrics}

-- The loop over the latencies: their sum and the largest.
abbrev pub latency_loop : ℕ → ℕ → List ℕ → ℕ × ℕ
latency_loop total largest [] = (total, largest)
latency_loop total largest (lat ∷ rest) =
    latency_loop (total + lat) (if ltb largest lat then lat else largest) rest

-- The average and the largest latency.
abbrev pub latency_stats : List ℕ → ℕ × ℕ
latency_stats latencies =
    let (total, largest) = latency_loop 0 0 latencies in
    if ltb 0 (length latencies) then (total / length latencies, largest) else (0, 0)

-- The loop over the samples of the monitor.
abbrev pub sample_loop : ℤ → ℤ → List ℤ → ℤ × ℤ
sample_loop total largest [] = (total, largest)
sample_loop total largest (depth ∷ rest) =
    sample_loop (total +ℤ depth) (if ltb_ℤ largest depth then depth else largest) rest

module _ (p : Platform) where
  pub record Measures : Type 0 where
    -- float64(a) / float64(b), and 100 times that
    pub ratio : ℤ → ℤ → p.Float
    pub percent : ℕ → ℕ → p.Float
    -- float64(a) / d.Seconds() and d.String()
    pub per_second : ℕ → ℕ → p.Float
    pub duration_text : ℕ → String

  -- `RabbitMQLoadStats`, `KafkaLoadStats` and `RedisLoadStats`; `avg_sample` and `max_sample` stand for
  -- the depth of the queue, the lag and the length of the stream.
  pub record LoadStats : Type 0 where
    pub duration : String
    pub messages_published : ℕ
    pub publish_errors : ℕ
    pub publish_rate : p.Float
    pub avg_publish_latency : ℕ
    pub max_publish_latency : ℕ
    pub avg_sample : p.Float
    pub max_sample : ℤ
    pub success_rate : p.Float

module _ {p : Platform} (measures : Measures p) where
  abbrev pub sample_stats : List ℤ → p.Float × ℤ
  sample_stats samples =
      let (total, largest) = sample_loop (pos 0) (pos 0) samples in
      if ltb 0 (length samples)
      then (measures.ratio total (pos (length samples)), largest)
      else (p.nought, pos 0)

  abbrev pub stats_with : p.Float → ℕ → LoadMetrics → LoadStats p
  stats_with success_rate duration metrics =
      let (avg_latency, max_latency) = latency_stats metrics.publish_latencies in
      let (avg_sample, max_sample) = sample_stats metrics.samples in
      record {
        duration = measures.duration_text duration;
        messages_published = metrics.published_count;
        publish_errors = metrics.publish_errors;
        publish_rate = measures.per_second metrics.published_count duration;
        avg_publish_latency = avg_latency;
        max_publish_latency = max_latency;
        avg_sample = avg_sample;
        max_sample = max_sample;
        success_rate = success_rate;
      }

  -- After a run of `duration` nanoseconds. The rate of success of RabbitMQ is computed without a look
  -- at the number of messages.
  unfoldable pub calculate_rabbitmq_stats : ℕ → LoadMetrics → LoadStats p
  calculate_rabbitmq_stats duration metrics =
      let total_messages = metrics.published_count + metrics.publish_errors in
      stats_with (measures.percent metrics.published_count total_messages) duration metrics

  unfoldable pub calculate_kafka_stats : ℕ → LoadMetrics → LoadStats p
  calculate_kafka_stats duration metrics =
      let total_messages = metrics.published_count + metrics.publish_errors in
      stats_with
        (if ltb 0 total_messages
          then measures.percent metrics.published_count total_messages
          else p.nought)
        duration metrics

  unfoldable pub calculate_redis_stats : ℕ → LoadMetrics → LoadStats p
  calculate_redis_stats duration metrics =
      let total_messages = metrics.published_count + metrics.publish_errors in
      stats_with
        (if ltb 0 total_messages
          then measures.percent metrics.published_count total_messages
          else p.nought)
        duration metrics

-- `getKafkaHealthStatus` and `getRedisStreamStatus`; the largest value seen so far is not used.
unfoldable pub get_kafka_health_status : ℤ → ℤ → String
get_kafka_health_status current_lag max_lag =
    if leb_ℤ (pos 100000) current_lag
    then "🚨"
    else if leb_ℤ (pos 50000) current_lag
    then "🔴"
    else if leb_ℤ (pos 10000) current_lag
    then "🟡"
    else if leb_ℤ (pos 5000) current_lag
    then "🟠"
    else if leb_ℤ (pos 1000) current_lag
    then "🔵"
    else "🟢"

unfoldable pub get_redis_stream_status : ℤ → ℤ → String
get_redis_stream_status current_length max_length =
    if leb_ℤ (pos 1000000) current_length
    then "🚨"
    else if leb_ℤ (pos 500000) current_length
    then "🔴"
    else if leb_ℤ (pos 100000) current_length
    then "🟡"
    else if leb_ℤ (pos 50000) current_length
    then "🟠"
    else if leb_ℤ (pos 10000) current_length
    then "🔵"
    else "🟢"
