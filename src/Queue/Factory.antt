-- ===== src/Queue/Factory.antt =====
-- internal/infrastructure/adapters/queue/factory.go: which adapter is made, with the constructors of
-- the adapters as parameters.
use hexagonal_queue.Prelude.{String, List, [], ◌∷◌, ◌<>◌, new, str_eq, if◌then◌else◌}
use hexagonal_queue.Prelude.Int.{ℤ}
use hexagonal_queue.Ports.{Operation}
use hexagonal_queue.Operation.{pure, fail, ◌>>=◌, wrapping}
use hexagonal_queue.Config.{Config}

-- What the three `NewAdapter` return, as queue ports.
pub record Makers (S Port : Type 0) : Type 0 where
  pub rabbitmq : String → Operation S Port
  pub kafka : List String → Operation S Port
  pub redis : String → String → ℤ → Operation S Port

module _ {S Port : Type 0} (makers : Makers S Port) (config : Config) where
  abbrev pub by_name : String → Operation S Port
  by_name provider =
      if str_eq "rabbitmq" provider
      then makers.rabbitmq config.queue.rabbitmq.uri
      else if str_eq "kafka" provider
      then makers.kafka config.queue.kafka.brokers
      else if str_eq "redis" provider
      then makers.redis config.queue.redis.addr config.queue.redis.password config.queue.redis.db
      else fail (new ("unsupported queue provider: " <> provider))

  unfoldable pub create_queue_adapter : String → Operation S Port
  create_queue_adapter provider =
      by_name (if str_eq provider "" then config.queue.provider else provider)

  unfoldable pub get_supported_providers : List String
  get_supported_providers = "rabbitmq" ∷ "kafka" ∷ "redis" ∷ []

  abbrev create_each : List String → Operation S (List (String × Port))
  create_each [] = pure []
  create_each (provider ∷ rest) = do
    adapter ←
        wrapping ("failed to create " <> provider <> " adapter: ") (create_queue_adapter provider)
    adapters ← create_each rest
    pure ((provider, adapter) ∷ adapters)

  -- The map as an association list.
  unfoldable pub create_all_adapters : Operation S (List (String × Port))
  unfolding get_supported_providers
  create_all_adapters = create_each get_supported_providers
