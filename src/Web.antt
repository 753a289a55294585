-- ===== src/Web.antt =====
-- internal/infrastructure/web/handlers.go: the HTTP handlers of the wallet. The framework (gin) gives
-- the request: the body that `ShouldBindJSON` read or its error, the header `Authorization`, the
-- parameters; a reply is its status code and its body.
pub mod Laws
pub mod Server
pub mod Books
pub mod LoadTest
use hexagonal_queue.Prelude.{
  ℕ, String, Bool, true, false, not, ◌||◌, List, Result, ok, err, Error, str_eq, leb, if◌then◌else◌,
}
use hexagonal_queue.Prelude.Int.{ℤ, pos, ltb_ℤ, leb_ℤ}
use hexagonal_queue.Platform.{Platform}
use hexagonal_queue.Models.{TransactionRequest, TransactionResponse}
use hexagonal_queue.Ports.{Context, background, Operation}
use hexagonal_queue.Flow.{Action, pure, ◌>>=◌, next}
use hexagonal_queue.Wallet.{WalletUseCase}
use hexagonal_queue.Wallet.Movement.{handle_deposit, handle_withdraw}
use hexagonal_queue.Wallet.Member.{handle_create_member}
use hexagonal_queue.Wallet.Balance.{handle_balance_check, get_multiple_balances}

-- `gin.H`: an object, whose values are texts, numbers and objects.
mutual
  pub data Json : Type 0 where
    text : String → Json
    number : ℕ → Json
    object : Fields → Json

  pub data Fields : Type 0 where
    end : Fields
    field : String → Json → Fields → Fields

module _ (p : Platform) where
  -- What the handlers write: a status with a message, one with the error's text, the response of a
  -- use case, that of a test run, a page of the history, or a fixed object.
  pub data Body : Type 0 where
    notice : ℕ → String → Body
    failure : ℕ → String → Error → Body
    result : TransactionResponse p → Body
    test_result : String → String → TransactionResponse p → Body
    history : String → ℤ → Body
    fixed : Fields → Body
    no_body : Body

  pub record Reply : Type 0 where
    pub code : ℕ
    pub body : Body

  -- The body of `QueueTestHandler`.
  pub record QueueTestRequest : Type 0 where
    pub provider : String
    pub username : String
    pub action : String
    pub amount : p.Float

-- `limit`, from the query's text as `Atoi` reads it.
unfoldable pub history_limit : Result ℤ → ℤ
history_limit (err e) = pos 10
history_limit (ok limit) =
    let limit = if leb_ℤ limit (pos 0) then pos 10 else limit in
    if ltb_ℤ (pos 100) limit then pos 100 else limit

module _ {p : Platform} where
  abbrev pub bad_request : Error → Reply p
  bad_request e = record { code = 400; body = failure 400 "Invalid request format" e }

  abbrev pub unauthorized : Reply p
  unauthorized = record { code = 401; body = notice 401 "Authorization header is required" }

  -- `statusCode := ...; if response.Status >= 400 { statusCode = int(response.Status) }`
  abbrev pub status_code : ℕ → TransactionResponse p → ℕ
  status_code usual response = if leb 400 response.status then response.status else usual

  abbrev pub result_reply : ℕ → TransactionResponse p → Reply p
  result_reply usual response = record { code = status_code usual response; body = result response }

  module _ {S T : Type 0} (uc : WalletUseCase p S T) where
    -- The common course of the handlers: a body that was read, a header, then the use case.
    abbrev pub authorized :
        {A : Type 0}
        → ℕ
        → (A → Action p S (TransactionResponse p))
        → String
        → Result A
        → Action p S (Reply p)
    authorized usual use_case authorization (err e) = pure (bad_request e)
    authorized usual use_case authorization (ok a) =
        if str_eq authorization ""
        then pure unauthorized
        else (use_case a >>= λ response. pure (result_reply usual response))

    unfoldable pub deposit_handler : String → Result (TransactionRequest p) → Action p S (Reply p)
    deposit_handler authorization =
        authorized 200
          (λ request.
            handle_deposit uc background
              (record request { action = "DEPOSIT"; parent_token = authorization }))
          authorization

    unfoldable pub withdraw_handler : String → Result (TransactionRequest p) → Action p S (Reply p)
    withdraw_handler authorization =
        authorized 200
          (λ request.
            handle_withdraw uc background
              (record request { action = "WITHDRAW"; parent_token = authorization }))
          authorization

    unfoldable pub check_balance_handler : String → Result String → Action p S (Reply p)
    check_balance_handler authorization =
        authorized 200 (λ username. handle_balance_check uc background username authorization)
          authorization

    unfoldable pub check_multiple_balances_handler :
        String → Result (List String) → Action p S (Reply p)
    check_multiple_balances_handler authorization =
        authorized 200 (λ usernames. get_multiple_balances uc background usernames authorization)
          authorization

    unfoldable pub create_member_handler :
        String → Result (TransactionRequest p) → Action p S (Reply p)
    create_member_handler authorization =
        authorized 201
          (λ request.
            handle_create_member uc background
              (record request { action = "ADD_MEMBER"; parent_token = authorization }))
          authorization

    abbrev pub test_transaction : QueueTestRequest p → TransactionRequest p
    test_transaction request = record {
      parent_token = "test-parent-token";
      token = "test-user-token";
      username = request.username;
      action = request.action;
      type_name = request.action;
      amount = request.amount;
      channel = "test-api";
      description = "Queue test transaction";
      lang = "en";
    }

    abbrev pub tested :
        QueueTestRequest p → Action p S (TransactionResponse p) → Action p S (Reply p)
    tested request use_case = do
      response ← use_case
      pure (record {
        code = status_code 200 response;
        body = test_result request.provider request.action response;
      })

    abbrev pub run_test : QueueTestRequest p → Action p S (Reply p)
    run_test request =
        if str_eq request.action "deposit"
        then tested request (handle_deposit uc background (test_transaction request))
        else if str_eq request.action "withdraw"
        then tested request (handle_withdraw uc background (test_transaction request))
        else if str_eq request.action "add_member"
        then tested request (handle_create_member uc background (test_transaction request))
        else pure (record {
          code = 400;
          body = notice 400 "Invalid action. Must be: deposit, withdraw, add_member";
        })

    unfoldable pub queue_test_handler : Result (QueueTestRequest p) → Action p S (Reply p)
    queue_test_handler (err e) = pure (bad_request e)
    queue_test_handler (ok request) = run_test request

  unfoldable pub get_transaction_history_handler : String → String → Result ℤ → Reply p
  get_transaction_history_handler username authorization limit =
      if str_eq username ""
      then record { code = 400; body = notice 400 "Username is required" }
      else if str_eq authorization ""
      then unauthorized
      else record { code = 200; body = history username (history_limit limit) }

  -- `QueueDepositHandler`, over `PublishTransaction` of a queue port.
  abbrev published : Result (TransactionResponse p) → Reply p
  published (ok response) = record { code = 200; body = result response }
  published (err e) = record { code = 500; body = failure 500 "Failed to publish transaction" e }

  unfoldable pub queue_deposit_handler :
      {S : Type 0}
      → (TransactionRequest p → Operation S (TransactionResponse p))
      → Result (TransactionRequest p)
      → S
      → Reply p × S
  queue_deposit_handler publish_transaction (err e) s = (bad_request e, s)
  queue_deposit_handler publish_transaction (ok request) s =
      let (r, s') = publish_transaction request s in (published r, s')

  unfoldable pub health_handler : Reply p
  health_handler = record {
    code = 200;
    body = fixed (
        field "status" (text "healthy")
          (field "service" (text "hexagonal-queue-wallet") (field "version" (text "1.0.0") end)));
  }

  unfoldable pub queues_health_handler : Reply p
  queues_health_handler =
      let available : Json = object (field "status" (text "available") end) in
      record {
        code = 200;
        body = fixed (
            field "status" (text "healthy") (
              field "queues"
                (object (
                  field "rabbitmq" available
                    (field "kafka" available (field "redis" available end))))
                end));
      }

  unfoldable pub get_metrics_handler : Reply p
  get_metrics_handler =
      let connected : Json = text "connected" in
      let queue_health : Json =
        object
          (field "rabbitmq" connected (field "kafka" connected (field "redis" connected end))) in
      record {
        code = 200;
        body = fixed (
            field "service" (text "hexagonal-queue-wallet") (
              field "metrics"
                (object (
                  field "total_transactions" (number 0) (
                    field "active_connections" (number 0) (field "queue_health" queue_health end))))
                end));
      }
