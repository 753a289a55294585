-- ===== src/Mongo/Adapter.antt =====
-- The operations of `MongoAdapter`, over a driver.
pub mod Connection
use hexagonal_queue.Prelude.{
  ℕ, String, Bool, true, not, ◌&&◌, Option, none, some, List, [], ◌∷◌, Result, ok, err, new, wrap,
  str_eq, ◌==◌, if◌then◌else◌,
}
use hexagonal_queue.Prelude.Int.{ℤ}
use hexagonal_queue.Platform.{Platform}
use hexagonal_queue.Models.{User, AccountBalance, WalletStatement}
use hexagonal_queue.Ports.{Context, session, Operation, WalletRepository, Runtime}
use hexagonal_queue.Ports.Store.{is_in}
use hexagonal_queue.Operation.{pure, fail, ◌>>=◌, ◌>>◌, wrapping, run}
use hexagonal_queue.Mongo.Driver.{
  Found, document, no_documents, failed, Sort, unsorted, descending, Collection, Driver,
}

abbrev pub id_in : ℕ → List ℕ → Bool
id_in n [] = Bool.false
id_in n (x ∷ xs) = let rest = id_in n xs in if n == x then true else rest

module _ {S : Type 0} where
  -- A document that may be missing, as `(nil, nil)`.
  abbrev pub optional : {A : Type 0} → String → Found A × S → Result (Option A) × S
  optional message (document a, s) = (ok (some a), s)
  optional message (no_documents, s) = (ok none, s)
  optional message (failed e, s) = (err (wrap message e), s)

  -- A document that must be there.
  abbrev pub required : {A : Type 0} → String → String → Found A × S → Result A × S
  required missing message (document a, s) = (ok a, s)
  required missing message (no_documents, s) = (err (new missing), s)
  required missing message (failed e, s) = (err (wrap message e), s)

  abbrev pub or_default : {A : Type 0} → A → String → Found A × S → Result A × S
  or_default a message (document d, s) = (ok d, s)
  or_default a message (no_documents, s) = (ok a, s)
  or_default a message (failed e, s) = (err (wrap message e), s)

  -- `if result.MatchedCount == 0 { return fmt.Errorf(...) }`
  abbrev pub need_match : String → ℕ → Operation S (Unit {0})
  need_match missing matched s = (if matched == 0 then err (new missing) else ok tt, s)

-- The loop over a cursor that stops at the first document that does not decode.
abbrev pub decode_all : {A : Type 0} → String → List (Result A) → Result (List A)
decode_all message [] = ok []
decode_all message (err e ∷ rest) = err (wrap message e)
decode_all message (ok a ∷ rest) = elim (decode_all message rest) [
  | ok xs ↦ ok (a ∷ xs)
  | err e ↦ err e
]

-- The loop over a cursor that skips documents that do not decode.
abbrev pub decode_some : {A : Type 0} → List (Result A) → List A
decode_some [] = []
decode_some (err e ∷ rest) = decode_some rest
decode_some (ok a ∷ rest) = a ∷ decode_some rest

module _ {p : Platform} {S T : Type 0} (driver : Driver p S T) (runtime : Runtime S) where
  open driver use {users, balances, statements}

  -- `if id.IsZero() { id = primitive.NewObjectID() }`
  abbrev pub fresh_id : ℕ → Operation S ℕ
  fresh_id zero_or_id s = if zero_or_id == 0 then run runtime.new_object_id s else pure zero_or_id s

  abbrev pub fresh_time : ℕ → Operation S ℕ
  fresh_time time s = if time == 0 then run runtime.now s else pure time s

  unfoldable pub get_user_by_username : Context T → String → String → Operation S (Option User)
  get_user_by_username ctx username parent_token s = optional "failed to get user by username: " (
      users.find_one ctx
        (λ u. str_eq u.username username && str_eq u.parent_token parent_token && u.status == 1)
        unsorted s)

  unfoldable pub get_user_by_token : Context T → String → Operation S (Option User)
  get_user_by_token ctx token s =
      optional "failed to get user by token: "
        (users.find_one ctx (λ u. str_eq u.token token && u.status == 1) unsorted s)

  unfoldable pub create_user : Context T → User → Operation S (Unit {0})
  create_user ctx user = do
    id ← fresh_id user.id
    created ← run runtime.now
    updated ← run runtime.now
    wrapping "failed to create user: "
        (users.insert_one ctx (record user { id = id; created_at = created; updated_at = updated }))

  unfoldable pub update_user : Context T → User → Operation S (Unit {0})
  update_user ctx user = do
    updated ← run runtime.now
    matched ←
        wrapping "failed to update user: "
          (users.update_one ctx (λ u. u.id == user.id) (λ _. record user { updated_at = updated }))
    need_match "user not found" matched

  unfoldable pub get_account_balance : Context T → String → String → Operation S (AccountBalance p)
  get_account_balance ctx username parent_token s =
      required "account balance not found" "failed to get account balance: " (
        balances.find_one ctx
          (λ b. str_eq b.username username && str_eq b.parent_token parent_token && b.status == 1)
          unsorted s)

  unfoldable pub get_account_balances_by_parent_token :
      Context T → List String → String → Operation S (List (AccountBalance p))
  get_account_balances_by_parent_token ctx usernames parent_token = do
    cursor ← wrapping "failed to get account balances: " (
        balances.find ctx
          (λ b. is_in b.username usernames && str_eq b.parent_token parent_token && b.status == 1)
          unsorted none)
    λ s. (decode_all "failed to decode balance: " cursor.yielded, s)

  unfoldable pub create_account_balance : Context T → AccountBalance p → Operation S (Unit {0})
  create_account_balance ctx balance = do
    id ← fresh_id balance.id
    created ← run runtime.now
    updated ← run runtime.now
    wrapping "failed to create account balance: " (
        balances.insert_one ctx
          (record balance { id = id; created_at = created; updated_at = updated }))

  unfoldable pub update_account_balance :
      Context T → String → String → p.Decimal → Operation S (Unit {0})
  update_account_balance ctx username parent_token new_balance = do
    updated ← run runtime.now
    matched ← wrapping "failed to update account balance: " (
        balances.update_one ctx
          (λ b. str_eq b.username username && str_eq b.parent_token parent_token)
          (λ b. record b { balance = new_balance; updated_at = updated }))
    need_match "account balance not found" matched

  -- The statement that stands for an account without statements; only its credit is set.
  abbrev pub no_statement : WalletStatement p
  no_statement = record {
    id = 0;
    datetime = 0;
    username = "";
    parent_token = "";
    amount = p.new_decimal128 0 0;
    before_credit = p.new_decimal128 0 0;
    after_credit = p.new_decimal128 0 0;
    status = 0;
    is_check = 0;
    type_name = "";
    type_action = "";
    description = "";
    hash = "";
    channel = "";
  }

  abbrev of_account : String → String → WalletStatement p → Bool
  of_account username parent_token st =
      str_eq st.username username && str_eq st.parent_token parent_token

  unfoldable pub get_last_wallet_statement :
      Context T → String → String → Operation S (WalletStatement p)
  get_last_wallet_statement ctx username parent_token s =
      or_default no_statement "failed to get last wallet statement: " (
        statements.find_one ctx (of_account username parent_token) (descending (λ st. st.datetime))
          s)

  unfoldable pub create_wallet_statement :
      Context T → WalletStatement p → Operation S (WalletStatement p)
  create_wallet_statement ctx statement = do
    id ← fresh_id statement.id
    datetime ← fresh_time statement.datetime
    wrapping "failed to create wallet statement: "
        (statements.insert_one ctx (record statement { id = id; datetime = datetime }))
    pure (record statement { id = id; datetime = datetime })

  unfoldable pub get_wallet_statements :
      Context T → String → String → ℤ → Operation S (List (WalletStatement p))
  get_wallet_statements ctx username parent_token limit = do
    cursor ← wrapping "failed to get wallet statements: " (
        statements.find ctx (of_account username parent_token) (descending (λ st. st.datetime))
          (some limit))
    λ s. (decode_all "failed to decode statement: " cursor.yielded, s)

  -- `if len(keepIDs) == 0 { return nil }`, or the deletion of the others.
  abbrev pub delete_others : Context T → String → String → List ℕ → Operation S (Unit {0})
  delete_others ctx username parent_token [] = pure tt
  delete_others ctx username parent_token (id ∷ ids) = do
    wrapping "failed to delete old statements: " (
        statements.delete_many ctx
          (λ st. of_account username parent_token st && not (id_in st.id (id ∷ ids))))
    pure tt

  unfoldable pub clear_old_statements : Context T → String → String → ℤ → Operation S (Unit {0})
  clear_old_statements ctx username parent_token keep_count = do
    cursor ← wrapping "failed to find statements to keep: " (
        statements.find_ids (λ st. st.id) ctx (of_account username parent_token)
          (descending (λ st. st.datetime)) (some keep_count))
    delete_others ctx username parent_token (decode_some cursor.yielded)

  abbrev pub begun : T → Result (Unit {0}) × S → Result T × S
  begun tx (ok _, s) = (ok tx, s)
  begun tx (err e, s) = (err (wrap "failed to start transaction: " e), driver.end_session tx s)

  unfoldable pub start_transaction : Context T → Operation S T
  start_transaction ctx = do
    tx ← wrapping "failed to start session: " driver.start_session
    λ s. begun tx (driver.start_transaction tx s)

  abbrev ended : {A : Type 0} → T → Result A × S → Result A × S
  ended tx (r, s) = (r, driver.end_session tx s)

  -- `MongoTransactionContext.Commit` and `Abort`: the session ends whatever the result.
  unfoldable pub commit : T → Operation S (Unit {0})
  commit tx s = ended tx (driver.commit_transaction tx s)

  unfoldable pub abort : T → Operation S (Unit {0})
  abort tx s = ended tx (driver.abort_transaction tx s)

  abbrev pub mongo_repository : WalletRepository p S T
  mongo_repository = record {
    get_user_by_username = get_user_by_username;
    get_user_by_token = get_user_by_token;
    create_user = create_user;
    update_user = update_user;
    get_account_balance = get_account_balance;
    get_account_balances_by_parent_token = get_account_balances_by_parent_token;
    create_account_balance = create_account_balance;
    update_account_balance = update_account_balance;
    get_last_wallet_statement = get_last_wallet_statement;
    create_wallet_statement = create_wallet_statement;
    get_wallet_statements = get_wallet_statements;
    clear_old_statements = clear_old_statements;
    start_transaction = start_transaction;
    commit = commit;
    abort = abort;
  }
