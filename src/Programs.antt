-- ===== src/Programs.antt =====
-- cmd/server/main.go and cmd/consumer/main.go: how the parts are put together. `log.Fatalf` is the end
-- of a program with an error, after which no deferred call is made.
pub mod Laws
use hexagonal_queue.Prelude.{String, Result, ok, err, wrap}
use hexagonal_queue.Platform.{Platform}
use hexagonal_queue.Models.{TransactionRequest, TransactionResponse}
use hexagonal_queue.Ports.{Operation, Runtime}
use hexagonal_queue.Operation.{pure, ◌>>=◌, ◌>>◌, wrapping, attempt, run}
use hexagonal_queue.Config.{Environment, Config}
use hexagonal_queue.Config.Load.{load}
use hexagonal_queue.Mongo.Driver.{Driver}
use hexagonal_queue.Mongo.Adapter.{mongo_repository}
use hexagonal_queue.Mongo.Adapter.Connection.{new_mongo_adapter, close}
use hexagonal_queue.Wallet.{WalletUseCase, new_wallet_use_case}
use hexagonal_queue.Queue.{TransactionHandler}
use hexagonal_queue.Queue.{QueuePort}
use hexagonal_queue.Queue.Factory.{Makers, create_queue_adapter}
use hexagonal_queue.Queue.Books.{wallet_handler}
use hexagonal_queue.Web.Server.{HttpServer, Ended, start}

module _ {p : Platform} {S T Port Body : Type 0} (env : Environment)
    (load_env : Operation S (Unit {0})) (driver : Driver p S T) (runtime : Runtime S)
    (makers : Makers S Port) (port : QueuePort p S T Port Body) where
  pub record Parts : Type 0 where
    pub config : Config
    pub queue_adapter : Port
    pub wallet_use_case : WalletUseCase p S T

  -- What both programs begin with. A file `.env` that does not load is only logged.
  unfoldable pub build : Operation S Parts
  build = do
    attempt load_env
    config ← wrapping "Failed to load configuration: " (λ s. (load p env, s))
    let mongodb = config.database.mongodb
    wrapping "Failed to connect to database: "
        (new_mongo_adapter driver mongodb.uri mongodb.database)
    queue_adapter ←
        wrapping "Failed to initialize queue adapter: "
          (create_queue_adapter makers config config.queue.provider)
    pure (record {
      config = config;
      queue_adapter = queue_adapter;
      wallet_use_case = new_wallet_use_case (mongo_repository driver runtime) runtime;
    })

  -- The deferred calls, in their order.
  abbrev shut : Parts → S → S
  shut parts s = (close driver (port.close parts.queue_adapter s).1).1

  abbrev served : Parts → Result (Unit {0}) × S → Result (Unit {0}) × S
  served parts (ok _, s) = (ok tt, shut parts s)
  served parts (err e, s) = (err (wrap "Server failed to start: " e), s)

  -- The publisher, until its HTTP server ends.
  unfoldable pub server_main : (HttpServer → S → Ended × S) → Operation S (Unit {0})
  server_main listen_and_serve = do
    parts ← build
    λ s. served parts (start listen_and_serve parts.config.server.port s)

  -- The consumer: an error of `StartConsumer` is logged; then the program waits for a signal, and
  -- `until_signal` is what happens meanwhile.
  unfoldable pub consumer_main : (S → S) → Operation S (Unit {0})
  consumer_main until_signal = do
    parts ← build
    started ← run (port.start_consumer parts.queue_adapter (wallet_handler parts.wallet_use_case))
    λ s. (ok tt, shut (record parts { queue_adapter = started.1 }) (until_signal s))
