-- ===== src/Programs/Laws.antt =====
-- How the programs come up.
use hexagonal_queue.Prelude.{
  String, ◌≡◌, refl, inl, inr, Bool-cases, true, Result, Result-cases, ok, err, ok-injective, ◌>>=◌,
  str_eq, arith, if◌then◌else◌, sym, same_text,
}
use mathlib.Core.Path.{subst}
use hexagonal_queue.Ports.{Operation}
use hexagonal_queue.Platform.{Platform}
use hexagonal_queue.Config.{Environment, Config, QueueConfig}
use hexagonal_queue.Config.Load.{load, validate, in_context, contains, valid_providers}
use hexagonal_queue.Queue.Factory.{Makers, by_name, create_queue_adapter}

-- What the constructor that belongs to a name does with the parameters of a configuration.
pub data Chosen {S Port : Type 0} (makers : Makers S Port) (c : Config) (name : String)
    (made : Operation S Port) : Type 0 where
  chosen_rabbitmq :
      name ≡ "rabbitmq" → made ≡ makers.rabbitmq c.queue.rabbitmq.uri → Chosen makers c name made
  chosen_kafka :
      name ≡ "kafka" → made ≡ makers.kafka c.queue.kafka.brokers → Chosen makers c name made
  chosen_redis :
      name ≡ "redis"
      → made ≡ makers.redis c.queue.redis.addr c.queue.redis.password c.queue.redis.db
      → Chosen makers c name made

module _ (p : Platform) (env : Environment) where
  in_context-validate :
      (c' c : Config) → in_context p env c' (validate p env c') ≡ ok c → validate p env c ≡ ok tt
  in_context-validate c' c h = elim (Result-cases (validate p env c')) [
    | inl (tt, valid) ↦ subst (λ x. validate p env x ≡ ok tt) (ok-injective (rw valid at h)) valid
    | inr (e, invalid) ↦ let bad = rw invalid at h in cc
  ]

  bound-validate :
      (q : Result QueueConfig) (config : QueueConfig → Config) (c : Config)
      → (q >>= λ queue. in_context p env (config queue) (validate p env (config queue))) ≡ ok c
      → validate p env c ≡ ok tt
  bound-validate (ok queue) config c h = in_context-validate (config queue) c h
  bound-validate (err e) config c h = cc

  load-validate : (c : Config) → load p env ≡ ok c → validate p env c ≡ ok tt
  unfolding load
  load-validate c h = bound-validate _ _ c h

  validate-contains :
      (c : Config) → validate p env c ≡ ok tt → contains valid_providers c.queue.provider ≡ true
  unfolding validate
  validate-contains c h = ground arith

  -- An empty name stands for the configured one.
  same_provider : (name : String) → (if str_eq name "" then name else name) ≡ name
  same_provider name = ground arith

  module _ {S Port : Type 0} (makers : Makers S Port) where
    by_name-supported :
        (c : Config) (name : String)
        → contains valid_providers name ≡ true
        → Chosen makers c name (by_name makers c name)
    by_name-supported c name known = elim (Bool-cases (str_eq "rabbitmq" name)) [
      | inl h ↦ chosen_rabbitmq (sym (same_text _ _ h)) (rw h refl)
      | inr no_rabbit ↦ elim (Bool-cases (str_eq "kafka" name)) [
        | inl h ↦ chosen_kafka (sym (same_text _ _ h)) (rw (no_rabbit, h) refl)
        | inr no_kafka ↦
            let last : str_eq "redis" name ≡ true = ground (arith, known, no_rabbit, no_kafka) in
            chosen_redis (sym (same_text _ _ last)) (rw (no_rabbit, no_kafka, last) refl)
      ]
    ]

    -- A configuration that loads names a provider that the factory supports: CreateQueueAdapter calls,
    -- for rabbitmq, the constructor of RabbitMQ with the URI, for kafka that of Kafka with the brokers,
    -- for redis that of Redis with the address, the password and the database, and never reports an
    -- unsupported provider.
    pub create_queue_adapter_supported :
        (c : Config)
        → load p env ≡ ok c
        → Chosen makers c c.queue.provider (create_queue_adapter makers c c.queue.provider)
    unfolding create_queue_adapter
    create_queue_adapter_supported c h =
        let known = validate-contains c (load-validate c h) in
        rw (same_provider c.queue.provider) (by_name-supported c c.queue.provider known)
