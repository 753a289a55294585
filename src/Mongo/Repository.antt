-- ===== src/Mongo/Repository.antt =====
-- `MongoAdapter` keeps the promises that the use cases rely on.
mod Steps
mod Reads
mod Writes
pub mod Statements
mod Transactions
use hexagonal_queue.Prelude.{
  ℕ, String, ◌≡◌, refl, sym, ◌∙◌, ap, ◌≢◌, Bool, false, Option, none, some, List, [], ◌∷◌, Result,
  ok, err, keep, find_first, arith, ◌==◌, ok-injective, inl, inr,
}
use mathlib.Core.Path.{subst}
use hexagonal_queue.Platform.{Platform}
use hexagonal_queue.Models.{User, AccountBalance, WalletStatement}
use hexagonal_queue.Ports.{Context, background, session, Runtime}
use hexagonal_queue.Ports.Store.{
  Store, find_user, find_balance, IsLast, set_balance, add_statement, user_named, balance_active,
  statement_key, balance_key, with_balance, user_with_token, add_user, add_account,
}
use hexagonal_queue.Ports.Laws.{RepositoryLaws, RuntimeLaws}
use hexagonal_queue.Operation.{pure, and_then, rewrap}
use hexagonal_queue.Operation.Lands.{Lands, Lands-out, any-Lands, and_then-Lands, wrapping-Lands}
use hexagonal_queue.Mongo.Driver.{
  Found, document, no_documents, failed, unsorted, descending, Driver,
}
use hexagonal_queue.Mongo.Laws.{DriverLaws}
use hexagonal_queue.Mongo.Adapter.{
  optional, or_default, need_match, fresh_id, fresh_time, begun, mongo_repository,
  get_user_by_username, get_account_balance, get_last_wallet_statement, create_wallet_statement,
  update_account_balance, start_transaction, commit, abort, no_statement, get_user_by_token,
  create_user, create_account_balance,
}
use hexagonal_queue.Mongo.Repository.Reads.{
  get_user_by_username-Reads, get_user_by_username_ok, get_account_balance-Reads,
  get_account_balance_ok, get_account_balances-Reads, get_account_balances_ok,
  get_last_wallet_statement-Reads, get_last_wallet_statement_ok, get_user_by_token-Reads,
  get_user_by_token_ok,
}
use hexagonal_queue.Mongo.Repository.Statements.{
  get_wallet_statements-Reads, get_wallet_statements_ok,
}
use hexagonal_queue.Mongo.Repository.Writes.{
  update_user_ok, create_wallet_statement_session, update_account_balance_session,
  update_account_balance_ok, create_wallet_statement_ok, create_user_ok, create_account_balance_ok,
  create_user_either, create_account_balance_either,
}
use hexagonal_queue.Mongo.Repository.Transactions.{
  start_transaction_background, start_transaction_ok, commit_ok, commit_either, abort_background,
}

module _ {p : Platform} {S T : Type 0} (driver : Driver p S T) (runtime : Runtime S)
    (view : Context T → S → Store p) (laws : DriverLaws view driver)
    (runtime_laws : RuntimeLaws view runtime) where
  -- MongoAdapter refines the repository port: over a driver that keeps its documented laws, every
  -- operation that the wallet calls does to the documents what the port promises.
  pub mongo_repository_refines : RepositoryLaws view (mongo_repository driver runtime)
  mongo_repository_refines = record {
    get_user_by_username_reads = get_user_by_username-Reads driver runtime view laws runtime_laws;
    get_user_by_username_ok = get_user_by_username_ok driver runtime view laws runtime_laws;
    get_user_by_token_reads = get_user_by_token-Reads driver runtime view laws runtime_laws;
    get_user_by_token_ok = get_user_by_token_ok driver runtime view laws runtime_laws;
    create_user_ok = create_user_ok driver runtime view laws runtime_laws;
    create_account_balance_ok = create_account_balance_ok driver runtime view laws runtime_laws;
    get_account_balance_reads = get_account_balance-Reads driver runtime view laws runtime_laws;
    get_account_balance_ok = get_account_balance_ok driver runtime view laws runtime_laws;
    get_account_balances_reads = get_account_balances-Reads driver runtime view laws runtime_laws;
    get_account_balances_ok = get_account_balances_ok driver runtime view laws runtime_laws;
    get_last_wallet_statement_reads =
        get_last_wallet_statement-Reads driver runtime view laws runtime_laws;
    get_last_wallet_statement_ok =
        get_last_wallet_statement_ok driver runtime view laws runtime_laws;
    get_wallet_statements_reads = get_wallet_statements-Reads driver runtime view laws;
    get_wallet_statements_ok = get_wallet_statements_ok driver runtime view laws;
    update_user_ok = update_user_ok driver runtime view laws runtime_laws;
    create_user_either = create_user_either driver runtime view laws runtime_laws;
    create_account_balance_either =
        create_account_balance_either driver runtime view laws runtime_laws;
    create_wallet_statement_session =
        create_wallet_statement_session driver runtime view laws runtime_laws;
    create_wallet_statement_ok = create_wallet_statement_ok driver runtime view laws runtime_laws;
    update_account_balance_session =
        update_account_balance_session driver runtime view laws runtime_laws;
    update_account_balance_ok = update_account_balance_ok driver runtime view laws runtime_laws;
    start_transaction_background =
        start_transaction_background driver runtime view laws runtime_laws;
    start_transaction_ok = start_transaction_ok driver runtime view laws runtime_laws;
    commit_ok = commit_ok driver runtime view laws runtime_laws;
    commit_either = commit_either driver runtime view laws runtime_laws;
    abort_background = abort_background driver runtime view laws runtime_laws;
  }
