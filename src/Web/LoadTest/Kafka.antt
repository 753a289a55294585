-- ===== src/Web/LoadTest/Kafka.antt =====
-- The Kafka load test of internal/infrastructure/web/test_kafka.go: `KafkaLoadTest` with the loop,
-- the workers and the monitor that it starts. Its two channels hold nothing, so a value passes from
-- one goroutine to the other in one step; the monitor has a channel of its own.
pub mod Safety
pub mod Progress
use hexagonal_queue.Prelude.{
  ℕ, ◌*◌, ◌≡◌, Bool, true, false, String, Option, none, some, List, [], str_eq, if◌then◌else◌,
}
use hexagonal_queue.Prelude.Int.{ℤ, pos, pos_part}
use hexagonal_queue.Ports.{Operation}
use hexagonal_queue.Web.LoadTest.{SendingEnd}
use hexagonal_queue.Web.LoadTest.Pool.{
  Sender, signalling, stopped, Phase, waiting, closing, draining, stopping, finished, Pool, Joined,
  new_pool, sample_depth, PoolStep,
}

-- What the query may set; the rate and the duration only set the clock.
pub record KafkaSettings : Type 0 where
  pub num_workers : ℤ
  pub num_messages : ℤ
  pub batch_size : ℤ

-- A parameter that is there is read by `fmt.Sscanf`, which may leave the default as it is.
abbrev pub scan_param : (String → ℤ → ℤ) → String → ℤ → ℤ
scan_param sscanf text default = if str_eq text "" then default else sscanf text default

unfoldable pub kafka_settings : (String → String) → (String → ℤ → ℤ) → KafkaSettings
kafka_settings query sscanf = record {
  num_workers = scan_param sscanf (query "workers") (pos 3);
  num_messages = scan_param sscanf (query "messages") (pos 1000000);
  batch_size = pos 10000;
}

-- `getKafkaConsumerLag`
abbrev pub get_kafka_consumer_lag : ℤ
get_kafka_consumer_lag = pos 0

pub record KafkaTest (S : Type 0) : Type 0 where
  pub pool : Pool S
  pub monitoring : Bool
  pub phase : Phase

module _ {S : Type 0} where
  -- With everything started, and the handler before `<-done`. A number below zero counts no further
  -- than zero in the loops that it bounds.
  unfoldable pub kafka_load_test : ℕ → S → KafkaTest S
  kafka_load_test workers s = record {
    pool = new_pool workers s;
    monitoring = true;
    phase = waiting;
  }

  abbrev pub kafka_closed_jobs : KafkaTest S → KafkaTest S
  kafka_closed_jobs r = record r { pool = record r.pool { jobs_closed = true }; phase = draining }

pub data KafkaStep {S : Type 0} (publish : ℕ → Operation S (Unit {0})) (num capacity : ℕ)
    (r r' : KafkaTest S) : Type 0 where
  works :
      (q : Pool S)
      → PoolStep publish num capacity r.pool q
      → r' ≡ record r { pool = q }
      → KafkaStep publish num capacity r r'
  -- `done <- true` and `<-done`
  meets :
      (end : SendingEnd)
      → r.pool.sender ≡ signalling end
      → r.phase ≡ waiting
      → r' ≡ record r { pool = record r.pool { sender = stopped end }; phase = closing }
      → KafkaStep publish num capacity r r'
  closes_jobs : r.phase ≡ closing → r' ≡ kafka_closed_jobs r → KafkaStep publish num capacity r r'
  joins :
      r.phase ≡ draining
      → Joined r.pool
      → r' ≡ record r { phase = stopping }
      → KafkaStep publish num capacity r r'
  -- `monitorDone <- true` and `<-done` in the monitor; the handler then replies
  stops_monitor :
      r.phase ≡ stopping
      → r.monitoring ≡ true
      → r' ≡ record r { monitoring = false; phase = finished }
      → KafkaStep publish num capacity r r'
  samples :
      r.monitoring ≡ true
      → r' ≡ record r { pool = sample_depth get_kafka_consumer_lag r.pool }
      → KafkaStep publish num capacity r r'

pub data KafkaReach {S : Type 0} (publish : ℕ → Operation S (Unit {0})) (num capacity : ℕ)
    (r : KafkaTest S) : KafkaTest S → Type 0 where
  here : KafkaReach publish num capacity r r
  next :
      {r' r'' : KafkaTest S}
      → KafkaReach publish num capacity r r'
      → KafkaStep publish num capacity r' r''
      → KafkaReach publish num capacity r r''
