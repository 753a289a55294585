-- ===== src/Wallet/Member.antt =====
-- `HandleCreateMember` of wallet_usecase.go.
pub mod Laws
use hexagonal_queue.Prelude.{Option, none, some, Result, ok, err, error_text}
use hexagonal_queue.Platform.{Platform}
use hexagonal_queue.Models.{User, AccountBalance, TransactionRequest, TransactionResponse, member}
use hexagonal_queue.Utils.Text.{validate_username}
use hexagonal_queue.Ports.{Context}
use hexagonal_queue.Flow.{Action, next, reply, pure, ◌>>=◌, ◌>>◌, call, try, check, run, response}
use hexagonal_queue.Wallet.{WalletUseCase, stamp}

module _ {p : Platform} {S T : Type 0} (uc : WalletUseCase p S T) where
  open uc use {wallet_repo as repo, runtime}

  -- `existingUser, err := ...; if err == nil && existingUser != nil { return 409 }`
  abbrev pub refuse_existing : Result (Option User) → Action p S (Unit {0})
  refuse_existing (ok (some _)) s = (reply (response 409 "User already exists"), s)
  refuse_existing (ok none) s = (next tt, s)
  refuse_existing (err _) s = (next tt, s)

  -- `if parentUser == nil { return 404 }`
  abbrev pub need_parent : Option User → Action p S User
  need_parent none s = (reply (response 404 "Parent user not found"), s)
  need_parent (some parent) s = (next parent, s)

  -- The rest, with the parent found.
  abbrev pub enrol : Context T → TransactionRequest p → User → Action p S (TransactionResponse p)
  enrol ctx request parent_user = do
    uuid ← run runtime.generate_uuid
    at ← stamp uc
    updated ← run runtime.now
    let user : User = record {
      id = at.object_id;
      username = request.username;
      parent_token = parent_user.token;
      token = uuid;
      type_member = "member";
      status = 1;
      created_at = at.time;
      updated_at = updated;
    }
    try (repo.create_user ctx user) (λ _. response 500 "Failed to create user")
    at ← stamp uc
    updated ← run runtime.now
    let balance : AccountBalance p = record {
      id = at.object_id;
      username = request.username;
      parent_token = request.parent_token;
      token = request.token;
      balance = p.new_decimal128 0 0;
      status = 1;
      created_at = at.time;
      updated_at = updated;
    }
    try (repo.create_account_balance ctx balance)
        (λ _. response 500 "Failed to create account balance")
    created ← run runtime.now
    pure (record {
      status = 200;
      message = "Member created successfully";
      payload = member (record { date_time = created; username = request.username });
    })

  unfoldable pub handle_create_member :
      Context T → TransactionRequest p → Action p S (TransactionResponse p)
  handle_create_member ctx request = call do
    check (validate_username request.username) (λ e. response 400 (error_text e))
    existing_user ← run (repo.get_user_by_username ctx request.username request.parent_token)
    refuse_existing existing_user
    found ←
        try (repo.get_user_by_token ctx request.parent_token)
          (λ _. response 500 "Failed to get parent user")
    enrol ctx request (← need_parent found)
