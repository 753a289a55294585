-- ===== src/Wallet/Movement.antt =====
-- `HandleDeposit`, `HandleWithdraw`, `processDeposit` and `processWithdraw` of wallet_usecase.go.
pub mod Posted
pub mod Process
pub mod Laws
pub mod Credit
pub mod Booked
use hexagonal_queue.Prelude.{String, ◌<>◌, error_text, ◌==◌, if◌then◌else◌}
use hexagonal_queue.Platform.{Platform}
use hexagonal_queue.Models.{WalletStatement, TransactionRequest, TransactionResponse, moved}
use hexagonal_queue.Utils.Decimal.{convert_decimal128_to_float, float_of_decimal128}
use hexagonal_queue.Service.{
  validate_deposit_request, validate_withdraw_request, create_deposit_statement,
  create_withdraw_statement, validate_balance_consistency,
}
use hexagonal_queue.Ports.{Context, session}
use hexagonal_queue.Flow.{Action, pure, ◌>>=◌, ◌>>◌, call, try, check, deref, attempt, response}
use hexagonal_queue.Wallet.{WalletUseCase, stamp}

module _ {p : Platform} {S T : Type 0} (uc : WalletUseCase p S T) where
  open uc use {wallet_repo as repo}

  -- The last lines of `processDeposit` and `processWithdraw`.
  abbrev pub movement_data :
      TransactionRequest p → WalletStatement p → String → TransactionResponse p
  movement_data request statement message =
      let before_balance = float_of_decimal128 p statement.before_credit in
      let after_balance = float_of_decimal128 p statement.after_credit in
      record {
        status = 200;
        message = message;
        payload = moved (record {
          username = request.username;
          current_balance = after_balance;
          before_balance = before_balance;
          after_balance = after_balance;
        });
      }

  unfoldable pub process_deposit :
      Context T → TransactionRequest p → Action p S (TransactionResponse p)
  process_deposit ctx request = call do
    user ←
        try (repo.get_user_by_username ctx request.username request.parent_token)
          (λ _. response 404 "User not found")
    account_balance ←
        try (repo.get_account_balance ctx request.username request.parent_token)
          (λ _. response 404 "Account balance not found")
    last_statement ←
        try (repo.get_last_wallet_statement ctx request.username request.parent_token)
          (λ _. response 500 "Failed to get wallet statement")
    check (validate_balance_consistency p account_balance.balance last_statement.after_credit)
        (λ _. response 500 "Balance inconsistency detected")
    user ← deref user
    at ← stamp uc
    statement ←
        check (create_deposit_statement p at request account_balance.balance user)
          (λ e. response 500 ("Failed to create deposit statement: " <> error_text e))
    try (repo.create_wallet_statement ctx statement)
        (λ _. response 500 "Failed to save wallet statement")
    try
        (repo.update_account_balance ctx request.username request.parent_token
          statement.after_credit)
        (λ _. response 500 "Failed to update account balance")
    pure (movement_data request statement "Deposit successful")

  unfoldable pub process_withdraw :
      Context T → TransactionRequest p → Action p S (TransactionResponse p)
  process_withdraw ctx request = call do
    user ←
        try (repo.get_user_by_username ctx request.username request.parent_token)
          (λ _. response 404 "User not found")
    account_balance ←
        try (repo.get_account_balance ctx request.username request.parent_token)
          (λ _. response 404 "Account balance not found")
    last_statement ←
        try (repo.get_last_wallet_statement ctx request.username request.parent_token)
          (λ _. response 500 "Failed to get wallet statement")
    check (validate_balance_consistency p account_balance.balance last_statement.after_credit)
        (λ _. response 500 "Balance inconsistency detected")
    user ← deref user
    at ← stamp uc
    statement ←
        check (create_withdraw_statement p at request account_balance.balance user)
          (λ e. response 400 ("Failed to create withdraw statement: " <> error_text e))
    try (repo.create_wallet_statement ctx statement)
        (λ _. response 500 "Failed to save wallet statement")
    try
        (repo.update_account_balance ctx request.username request.parent_token
          statement.after_credit)
        (λ _. response 500 "Failed to update account balance")
    pure (movement_data request statement "Withdraw successful")

  abbrev pub commit_with : T → TransactionResponse p → Action p S (TransactionResponse p)
  commit_with tx done = do
    try (repo.commit tx) (λ _. response 500 "Failed to commit transaction")
    pure done

  abbrev pub abort_with : T → TransactionResponse p → Action p S (TransactionResponse p)
  abort_with tx done = do attempt (repo.abort tx); pure done

  -- The end of both handlers: a response with status 200 is committed, any other aborts.
  abbrev pub finish : T → TransactionResponse p → Action p S (TransactionResponse p)
  finish tx done = if done.status == 200 then commit_with tx done else abort_with tx done

  unfoldable pub handle_deposit :
      Context T → TransactionRequest p → Action p S (TransactionResponse p)
  handle_deposit ctx request = call do
    check (validate_deposit_request p request) (λ e. response 400 (error_text e))
    tx ← try (repo.start_transaction ctx) (λ _. response 500 "Failed to start database transaction")
    finish tx (← process_deposit (session tx) request)

  unfoldable pub handle_withdraw :
      Context T → TransactionRequest p → Action p S (TransactionResponse p)
  handle_withdraw ctx request = call do
    account_balance ←
        try (repo.get_account_balance ctx request.username request.parent_token)
          (λ _. response 404 "User not found")
    current_balance ←
        check (convert_decimal128_to_float p account_balance.balance)
          (λ _. response 500 "Failed to process balance")
    check (validate_withdraw_request p request current_balance) (λ e. response 400 (error_text e))
    tx ← try (repo.start_transaction ctx) (λ _. response 500 "Failed to start database transaction")
    finish tx (← process_withdraw (session tx) request)
