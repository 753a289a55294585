-- ===== src/Config.antt =====
-- internal/infrastructure/config/config.go: the types of the configuration, and what the program takes
-- from the environment and from the packages `strconv`, `strings` and `time`.
pub mod Load
pub mod Laws
use hexagonal_queue.Prelude.{String, Bool, List, Result}
use hexagonal_queue.Prelude.Int.{ℤ}

-- A `time.Duration` is its nanoseconds.
pub record ServerConfig : Type 0 where
  pub port : String
  pub host : String
  pub read_timeout : ℤ
  pub write_timeout : ℤ
  pub idle_timeout : ℤ

pub record MongoDbConfig : Type 0 where
  pub uri : String
  pub database : String

pub record DatabaseConfig : Type 0 where
  pub mongodb : MongoDbConfig

pub record RabbitMqConfig : Type 0 where
  pub uri : String
  pub queue_name : String
  pub exchange : String
  pub routing_key : String
  pub consumer_tag : String
  pub prefetch_count : ℤ
  pub reconnect_delay : ℤ
  pub request_timeout : ℤ

pub record KafkaConfig : Type 0 where
  pub brokers : List String
  pub topic : String
  pub response_topic : String
  pub consumer_group : String
  pub batch_size : ℤ
  pub batch_timeout : ℤ
  pub request_timeout : ℤ

pub record RedisConfig : Type 0 where
  pub addr : String
  pub password : String
  pub db : ℤ
  pub queue_name : String
  pub response_queue_name : String
  pub consumer_group : String
  pub block_time : ℤ
  pub request_timeout : ℤ
  pub max_retries : ℤ

pub record QueueConfig : Type 0 where
  pub provider : String
  pub rabbitmq : RabbitMqConfig
  pub kafka : KafkaConfig
  pub redis : RedisConfig

pub record CacheConfig : Type 0 where
  pub enabled : Bool
  pub addr : String
  pub password : String
  pub db : ℤ
  pub ttl : ℤ

pub record LoggingConfig : Type 0 where
  pub level : String
  pub format : String

pub record Config : Type 0 where
  pub server : ServerConfig
  pub database : DatabaseConfig
  pub queue : QueueConfig
  pub cache : CacheConfig
  pub logging : LoggingConfig

-- `os.Getenv` and the functions of the standard library that read its texts.
pub record Environment : Type 0 where
  pub getenv : String → String
  pub atoi : String → Result ℤ
  pub parse_bool_text : String → Result Bool
  pub parse_duration_text : String → Result ℤ
  pub split : String → String → List String
  pub join : List String → String → String
