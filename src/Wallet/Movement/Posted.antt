-- ===== src/Wallet/Movement/Posted.antt =====
-- What a posted movement is, and the body that `processDeposit` and `processWithdraw` share.
use hexagonal_queue.Prelude.{ℕ, String, ◌≡◌, some, Result, ok, Error}
use hexagonal_queue.Platform.{Platform}
use hexagonal_queue.Models.{
  User, AccountBalance, WalletStatement, TransactionRequest, TransactionResponse,
}
use hexagonal_queue.Service.{Stamp, validate_balance_consistency}
use hexagonal_queue.Ports.{Context}
use hexagonal_queue.Ports.Store.{Store, find_user, find_balance, IsLast, set_balance, add_statement}
use hexagonal_queue.Flow.{Action, pure, ◌>>=◌, ◌>>◌, call, try, check, deref, response}
use hexagonal_queue.Wallet.{WalletUseCase, stamp}
use hexagonal_queue.Wallet.Movement.{movement_data}

-- How a statement is made: `CreateDepositStatement` or `CreateWithdrawStatement`.
abbrev pub Maker : Platform → Type 0
Maker p = Stamp → TransactionRequest p → p.Decimal → User → Result (WalletStatement p)

module _ {p : Platform} where
  -- From the documents `before` one movement was posted, and nothing else was changed: the statement
  -- made from the user and from the balance that were found, whose last statement agreed with the
  -- balance, was added, and its credit after was stored as the balance.
  pub record Posted (make : Maker p) (request : TransactionRequest p) (before after : Store p)
      : Type 0 where
    pub user : User
    pub account : AccountBalance p
    pub last : WalletStatement p
    pub at : Stamp
    pub statement : WalletStatement p
    pub time : ℕ
    pub user_found : find_user request.username request.parent_token before ≡ some user
    pub account_found : find_balance request.username request.parent_token before ≡ some account
    pub last_found : IsLast request.username request.parent_token before last
    pub consistent : validate_balance_consistency p account.balance last.after_credit ≡ ok tt
    pub made : make at request account.balance user ≡ ok statement
    pub stored :
        after
        ≡ set_balance request.username request.parent_token statement.after_credit time
            (add_statement statement before)

  -- The maker dates and numbers the statement by its stamp.
  pub record IsStamped (make : Maker p) : Type 0 where
    pub id_of :
        (at : Stamp) (req : TransactionRequest p) (d : p.Decimal) (u : User)
        (st : WalletStatement p)
        → make at req d u ≡ ok st
        → st.id ≡ at.object_id
    pub time_of :
        (at : Stamp) (req : TransactionRequest p) (d : p.Decimal) (u : User)
        (st : WalletStatement p)
        → make at req d u ≡ ok st
        → st.datetime ≡ at.time

module _ {p : Platform} {S T : Type 0} (uc : WalletUseCase p S T) (make : Maker p)
    (failure : Error → TransactionResponse p) (message : String) where
  open uc use {wallet_repo as repo}

  -- The body that the two methods share.
  abbrev pub process : Context T → TransactionRequest p → Action p S (TransactionResponse p)
  process ctx request = call do
    user ←
        try (repo.get_user_by_username ctx request.username request.parent_token)
          (λ _. response 404 "User not found")
    account_balance ←
        try (repo.get_account_balance ctx request.username request.parent_token)
          (λ _. response 404 "Account balance not found")
    last_statement ←
        try (repo.get_last_wallet_statement ctx request.username request.parent_token)
          (λ _. response 500 "Failed to get wallet statement")
    check (validate_balance_consistency p account_balance.balance last_statement.after_credit)
        (λ _. response 500 "Balance inconsistency detected")
    user ← deref user
    at ← stamp uc
    statement ← check (make at request account_balance.balance user) failure
    try (repo.create_wallet_statement ctx statement)
        (λ _. response 500 "Failed to save wallet statement")
    try
        (repo.update_account_balance ctx request.username request.parent_token
          statement.after_credit)
        (λ _. response 500 "Failed to update account balance")
    pure (movement_data uc request statement message)

  abbrev pub post :
      Context T
      → TransactionRequest p
      → AccountBalance p
      → User
      → Action p S (TransactionResponse p)
  post ctx request account_balance user = do
    at ← stamp uc
    statement ← check (make at request account_balance.balance user) failure
    try (repo.create_wallet_statement ctx statement)
        (λ _. response 500 "Failed to save wallet statement")
    try
        (repo.update_account_balance ctx request.username request.parent_token
          statement.after_credit)
        (λ _. response 500 "Failed to update account balance")
    pure (movement_data uc request statement message)
