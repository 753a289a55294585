-- ===== src/Wallet/Balance.antt =====
-- `HandleBalanceCheck`, `GetMultipleBalances` and `getAccountBalanceWithCache` of wallet_usecase.go.
pub mod Laws
use hexagonal_queue.Prelude.{String, ◌<>◌, Option, none, some, List, [], ◌∷◌, Result, ok, err}
use hexagonal_queue.Platform.{Platform}
use hexagonal_queue.Models.{
  AccountBalance, BalanceResponse, TransactionResponse, balance_of, balances_of,
}
use hexagonal_queue.Utils.Decimal.{convert_decimal128_to_float}
use hexagonal_queue.Ports.{Context, Operation, CacheRepository, Cached, balance, other}
use hexagonal_queue.Flow.{Action, pure, ◌>>=◌, call, try, check, response}
use hexagonal_queue.Wallet.{WalletUseCase}

module _ {p : Platform} {S T : Type 0} (uc : WalletUseCase p S T) where
  open uc use {wallet_repo as repo, cache_repo}

  -- `fmt.Sprintf("balance:%s:%s", parentToken, username)`
  abbrev pub cache_key : String → String → String
  cache_key username parent_token = "balance:" <> (parent_token <> (":" <> username))

  -- The balance that a lookup in the cache found: no error, a value, of the right type.
  abbrev pub cache_hit : Result (Option (Cached p)) → Option (AccountBalance p)
  cache_hit (ok (some (balance b))) = some b
  cache_hit (ok (some other)) = none
  cache_hit (ok none) = none
  cache_hit (err _) = none

  abbrev stored :
      CacheRepository p S → String → Result (AccountBalance p) × S → Result (AccountBalance p) × S
  stored cache key (ok b, s) = (ok b, (cache.set key (balance b) 300 s).1)
  stored cache key (err e, s) = (err e, s)

  -- A lookup that missed goes to the repository, and a balance found there is cached for 300 seconds.
  abbrev fetched :
      CacheRepository p S
      → Context T
      → String
      → String
      → Option (AccountBalance p)
      → Operation S (AccountBalance p)
  fetched cache ctx username parent_token (some b) s = (ok b, s)
  fetched cache ctx username parent_token none s =
      stored cache (cache_key username parent_token)
        (repo.get_account_balance ctx username parent_token s)

  abbrev pub with_cache :
      Option (CacheRepository p S) → Context T → String → String → Operation S (AccountBalance p)
  with_cache none ctx username parent_token s = repo.get_account_balance ctx username parent_token s
  with_cache (some cache) ctx username parent_token s =
      let (found, s') = cache.get (cache_key username parent_token) s in
      fetched cache ctx username parent_token (cache_hit found) s'

  unfoldable pub get_account_balance_with_cache :
      Context T → String → String → Operation S (AccountBalance p)
  get_account_balance_with_cache = with_cache cache_repo

  unfoldable pub handle_balance_check :
      Context T → String → String → Action p S (TransactionResponse p)
  unfolding get_account_balance_with_cache
  handle_balance_check ctx username parent_token = call do
    account_balance ←
        try (get_account_balance_with_cache ctx username parent_token)
          (λ _. response 404 "User not found")
    current ←
        check (convert_decimal128_to_float p account_balance.balance)
          (λ _. response 500 "Failed to process balance")
    pure (record {
      status = 200;
      message = "Success";
      payload = balance_of (record { username = username; current_balance = current });
    })

  -- A balance that cannot be converted is reported as 0.
  abbrev float_or_nought : Result p.Float → p.Float
  float_or_nought (ok f) = f
  float_or_nought (err _) = p.nought

  -- The loop over the balances.
  abbrev pub balance_responses : List (AccountBalance p) → List (BalanceResponse p)
  balance_responses [] = []
  balance_responses (b ∷ bs) =
      record {
        username = b.username;
        current_balance = float_or_nought (convert_decimal128_to_float p b.balance);
      }
      ∷ balance_responses bs

  unfoldable pub get_multiple_balances :
      Context T → List String → String → Action p S (TransactionResponse p)
  get_multiple_balances ctx usernames parent_token = call do
    balances ←
        try (repo.get_account_balances_by_parent_token ctx usernames parent_token)
          (λ _. response 500 "Failed to retrieve balances")
    pure (record {
      status = 200;
      message = "Success";
      payload = balances_of (balance_responses balances);
    })
