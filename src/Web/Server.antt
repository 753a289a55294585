-- ===== src/Web/Server.antt =====
-- internal/infrastructure/web/server.go: the routes and the middleware. The framework matches a
-- request against the routes; what the handlers take from it is read by the framework too.
use hexagonal_queue.Prelude.{
  String, List, [], ◌∷◌, ◌<>◌, Result, ok, err, Error, wrap, str_eq, if◌then◌else◌, ℕ, ◌++◌,
}
use hexagonal_queue.Prelude.Int.{ℤ}
use hexagonal_queue.Platform.{Platform}
use hexagonal_queue.Models.{TransactionRequest, TransactionResponse}
use hexagonal_queue.Ports.{Operation}
use hexagonal_queue.Flow.{Action, pure, next, Flow, and_then}
use hexagonal_queue.Wallet.{WalletUseCase}
use hexagonal_queue.Web.{
  Reply, QueueTestRequest, no_body, deposit_handler, withdraw_handler, check_balance_handler,
  check_multiple_balances_handler, create_member_handler, get_transaction_history_handler,
  queue_deposit_handler, queue_test_handler, health_handler, queues_health_handler,
  get_metrics_handler,
}

-- The handlers that the routes name.
pub data Endpoint : Type 0 where
  health : Endpoint
  queues_health : Endpoint
  get_metrics : Endpoint
  deposit : Endpoint
  withdraw : Endpoint
  check_balance : Endpoint
  check_multiple_balances : Endpoint
  create_member : Endpoint
  get_transaction_history : Endpoint
  queue_deposit : Endpoint
  queue_test : Endpoint

-- A handler of this model, or the name of one of the three load tests.
pub data Target : Type 0 where
  endpoint : Endpoint → Target
  load_test : String → Target

pub record Route : Type 0 where
  pub method : String
  pub path : String
  pub target : Target

abbrev pub get_route : String → Target → Route
get_route path target = record { method = "GET"; path = path; target = target }

abbrev pub post_route : String → Target → Route
post_route path target = record { method = "POST"; path = path; target = target }

-- `router.Group`
abbrev pub group : String → List Route → List Route
group prefix [] = []
group prefix (route ∷ rest) = record route { path = prefix <> route.path } ∷ group prefix rest

abbrev pub wallet_routes : List Route
wallet_routes =
    post_route "/deposit" (endpoint deposit)
    ∷ post_route "/withdraw" (endpoint withdraw)
    ∷ post_route "/balance" (endpoint check_balance)
    ∷ post_route "/balances" (endpoint check_multiple_balances)
    ∷ post_route "/member" (endpoint create_member)
    ∷ get_route "/history/:username" (endpoint get_transaction_history)
    ∷ group "/queue" (post_route "/deposit" (endpoint queue_deposit) ∷ [])

abbrev pub test_routes : List Route
test_routes =
    post_route "/queue" (endpoint queue_test)
    ∷ post_route "/queue/rabbitmq/deposit" (load_test "QueueTestRabbitmqDepositHandler")
    ∷ get_route "/kafka/load" (load_test "KafkaLoadTest")
    ∷ post_route "/queue/redis/deposit" (load_test "testRedis")
    ∷ []

unfoldable pub setup_routes : List Route
setup_routes =
    get_route "/health" (endpoint health)
    ∷ get_route "/health/queues" (endpoint queues_health)
    ∷ get_route "/metrics" (endpoint get_metrics)
    ∷ group "/api/v1" (group "/wallet" wallet_routes ++ group "/test" test_routes)

-- What the framework has read of a request: the header `Authorization`, the parameter `username`, the
-- number of the query `limit`, and the body, as each handler binds it.
pub record Request (p : Platform) : Type 0 where
  pub authorization : String
  pub username : String
  pub limit : Result ℤ
  pub transaction : Result (TransactionRequest p)
  pub balance : Result String
  pub balances : Result (List String)
  pub queue_test : Result (QueueTestRequest p)

abbrev pub cors_headers : List (String × String)
cors_headers =
    ("Access-Control-Allow-Origin", "*")
    ∷ ("Access-Control-Allow-Credentials", "true")
    ∷ (
      "Access-Control-Allow-Headers",
      "Content-Type, Content-Length, Accept-Encoding, X-CSRF-Token, Authorization, accept, origin, Cache-Control, X-Requested-With",
    )
    ∷ ("Access-Control-Allow-Methods", "POST, OPTIONS, GET, PUT, DELETE")
    ∷ []

module _ {p : Platform} {S : Type 0} where
  -- The middleware sets the headers, then ends a preflight request or goes on.
  unfoldable pub cors_middleware :
      String → Action p S (Reply p) → Action p S (List (String × String) × Reply p)
  cors_middleware method rest s =
      if str_eq method "OPTIONS"
      then (next (cors_headers, record { code = 204; body = no_body }), s)
      else and_then (rest s) (λ reply. pure (cors_headers, reply))

  module _ {T : Type 0} (uc : WalletUseCase p S T)
      (publish_transaction : TransactionRequest p → Operation S (TransactionResponse p)) where
    -- `queue_deposit_handler` cannot panic.
    abbrev pub published_reply : Reply p × S → Flow p (Reply p) × S
    published_reply (reply, s) = (next reply, s)

    unfoldable pub handle : Endpoint → Request p → Action p S (Reply p)
    handle health r = pure health_handler
    handle queues_health r = pure queues_health_handler
    handle get_metrics r = pure get_metrics_handler
    handle deposit r = deposit_handler uc r.authorization r.transaction
    handle withdraw r = withdraw_handler uc r.authorization r.transaction
    handle check_balance r = check_balance_handler uc r.authorization r.balance
    handle check_multiple_balances r = check_multiple_balances_handler uc r.authorization r.balances
    handle create_member r = create_member_handler uc r.authorization r.transaction
    handle get_transaction_history r =
        pure (get_transaction_history_handler r.username r.authorization r.limit)
    handle queue_deposit r =
        λ s. published_reply (queue_deposit_handler publish_transaction r.transaction s)
    handle queue_test r = queue_test_handler uc r.queue_test

    -- A request that a route's handler of this model is found for.
    unfoldable pub serve :
        String → Endpoint → Request p → Action p S (List (String × String) × Reply p)
    serve method target r = cors_middleware method (handle target r)

-- `http.Server`, its times in nanoseconds.
pub record HttpServer : Type 0 where
  pub addr : String
  pub handler : List Route
  pub read_timeout : ℕ
  pub write_timeout : ℕ
  pub idle_timeout : ℕ

-- How `ListenAndServe` ends.
pub data Ended : Type 0 where
  no_error : Ended
  server_closed : Ended
  broken : Error → Ended

abbrev pub started : Ended → Result (Unit {0})
started no_error = ok tt
started server_closed = ok tt
started (broken e) = err (wrap "failed to start server: " e)

-- `Start`, over `ListenAndServe`: it runs until the server ends.
unfoldable pub start :
    {S : Type 0} → (HttpServer → S → Ended × S) → String → S → Result (Unit {0}) × S
start listen_and_serve port s =
    let (ended, s') =
      listen_and_serve
        (record {
          addr = ":" <> port;
          handler = setup_routes;
          read_timeout = 15000000000;
          write_timeout = 15000000000;
          idle_timeout = 60000000000;
        })
        s in
    (started ended, s')
