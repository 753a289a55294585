-- ===== src/Wallet/Balance/Laws.antt =====
-- What a balance check shows, without a cache and on a hit in the cache.
use mathlib.Core.List.{Perm}
use hexagonal_queue.Prelude.{
  [], ◌++◌, ◌∷◌, inl, inr, ◌⊎◌, String, ◌≡◌, refl, none, some, ok, List, keep, inl, inr, Result,
  Error, err, Result-cases,
}
use hexagonal_queue.Platform.{Platform}
use hexagonal_queue.Models.{
  AccountBalance, TransactionResponse, balance_of, BalanceResponse, balances_of,
}
use hexagonal_queue.Utils.Decimal.{convert_decimal128_to_float}
use hexagonal_queue.Ports.{Context, CacheRepository, balance}
use hexagonal_queue.Ports.Store.{Store, find_balance, balance_among}
use hexagonal_queue.Ports.Laws.{Reads, RepositoryLaws}
use hexagonal_queue.Flow.{next, response}
use hexagonal_queue.Flow.Ends.{Ends, next-Ends, try-Ends, returned-Ends}
use hexagonal_queue.Wallet.{WalletUseCase}
use hexagonal_queue.Wallet.Balance.{
  cache_key, get_account_balance_with_cache, handle_balance_check, get_multiple_balances,
  balance_responses,
}

module _ {p : Platform} where
  -- The response that shows a balance.
  abbrev pub shows : String → p.Float → TransactionResponse p
  shows username current = record {
    status = 200;
    message = "Success";
    payload = balance_of (record { username = username; current_balance = current });
  }

  -- The response that lists balances.
  abbrev pub lists : List (BalanceResponse p) → TransactionResponse p
  lists balances = record { status = 200; message = "Success"; payload = balances_of balances }

  -- What a check responds over some documents and to what the repository found in them: the balance of
  -- the account found there, or a failure to find it or to convert its balance.
  pub data Checked (username parent : String) (before : Store p) (found : Result (AccountBalance p))
      (r : TransactionResponse p) : Type 0 where
    shown :
        (account : AccountBalance p) (current : p.Float)
        → found ≡ ok account
        → find_balance username parent before ≡ some account
        → convert_decimal128_to_float p account.balance ≡ ok current
        → r ≡ shows username current
        → Checked username parent before found r
    missing :
        (e : Error)
        → found ≡ err e
        → r ≡ response 404 "User not found"
        → Checked username parent before found r
    unreadable :
        (account : AccountBalance p) (e : Error)
        → found ≡ ok account
        → convert_decimal128_to_float p account.balance ≡ err e
        → r ≡ response 500 "Failed to process balance"
        → Checked username parent before found r

  -- The entries show the accounts one by one: the name, and the balance, or 0 if it cannot be
  -- converted.
  abbrev pub Shows : List (AccountBalance p) → List (BalanceResponse p) → Type 0
  Shows [] [] = Unit {0}
  Shows [] (r ∷ entries) = ⊥
  Shows (b ∷ accounts) [] = ⊥
  Shows (b ∷ accounts) (r ∷ entries) =
      ((r.username ≡ b.username)
        × ((convert_decimal128_to_float p b.balance ≡ ok r.current_balance)
            ⊎ ((e : Error) × (convert_decimal128_to_float p b.balance ≡ err e)
                × (r.current_balance ≡ p.nought))))
      × Shows accounts entries

  -- What a list of balances responds over some documents and to what the repository found in them.
  pub data Listed (usernames : List String) (parent : String) (before : Store p)
      (found : Result (List (AccountBalance p))) (r : TransactionResponse p) : Type 0 where
    listed :
        (accounts : List (AccountBalance p)) (entries : List (BalanceResponse p))
        → found ≡ ok accounts
        → (rest : List (AccountBalance p)) × Perm
            (accounts ++ rest)
            (keep (balance_among usernames parent) before.balances)
        → Shows accounts entries
        → r ≡ lists entries
        → Listed usernames parent before found r
    failed :
        (e : Error)
        → found ≡ err e
        → r ≡ response 500 "Failed to retrieve balances"
        → Listed usernames parent before found r

module _ {p : Platform} {S T : Type 0} (uc : WalletUseCase p S T) where
  -- HandleBalanceCheck without a cache, on a lawful repository: it if the repository finds
  -- the account, it shows its balance, or fails with 500 if that cannot be converted; if the repository
  -- fails, it fails with 404. It changes no documents and never panics.
  pub handle_balance_check-Checked :
      (view : Context T → S → Store p) (laws : RepositoryLaws view uc.wallet_repo)
      → uc.cache_repo ≡ none
      → (ctx : Context T) (username parent : String) (s : S)
      → Ends
          (λ r s'.
            Checked username parent
              (view ctx s)
              (uc.wallet_repo.get_account_balance ctx username parent s).0
              r
            × Reads view s s')
          (λ r s'. ⊥)
          (λ s'. ⊥)
          (handle_balance_check uc ctx username parent s)
  unfolding handle_balance_check get_account_balance_with_cache
  handle_balance_check-Checked view laws uncached ctx username parent s =
      let x = uc.wallet_repo.get_account_balance ctx username parent s in
      let same = laws.get_account_balance_reads ctx username parent s in
      rw uncached (
        returned-Ends _ _ _ _ (
          try-Ends _ _ _ _ _ x
            (λ account found.
              try-Ends _ _ _ _ _ (convert_decimal128_to_float p account.balance, x.1)
                (λ current h. next-Ends _ _ _ _ _ (
                  shown account current found
                      (laws.get_account_balance_ok ctx username parent s account found) h refl,
                  same,
                ))
                (λ e h. (unreadable account e found h refl, same)))
            (λ e h. (missing e h refl, same))))

  balance_responses-Shows :
      (accounts : List (AccountBalance p)) → Shows accounts (balance_responses uc accounts)
  balance_responses-Shows [] = tt
  balance_responses-Shows (b ∷ accounts) =
      elim (Result-cases (convert_decimal128_to_float p b.balance)) [
        | inl (x, h) ↦ ((refl, inl (rw h refl)), balance_responses-Shows accounts)
        | inr (e, h) ↦ ((refl, inr (e, h, rw h refl)), balance_responses-Shows accounts)
      ]

  -- GetMultipleBalances, on a lawful repository: if the repository finds accounts, it shows exactly
  -- these, in their order, each by its name with its balance, or with 0 if that cannot be converted;
  -- they are active accounts under the parent whose names were asked for, none of them twice. If the
  -- repository fails, it fails with 500. It changes no documents and never panics.
  pub get_multiple_balances-Reads :
      (view : Context T → S → Store p) (laws : RepositoryLaws view uc.wallet_repo) (ctx : Context T)
      (usernames : List String) (parent : String) (s : S)
      → Ends
          (λ r s'.
            Listed usernames parent
              (view ctx s)
              (uc.wallet_repo.get_account_balances_by_parent_token ctx usernames parent s).0
              r
            × Reads view s s')
          (λ r s'. ⊥)
          (λ s'. ⊥)
          (get_multiple_balances uc ctx usernames parent s)
  unfolding get_multiple_balances
  get_multiple_balances-Reads view laws ctx usernames parent s =
      let x = uc.wallet_repo.get_account_balances_by_parent_token ctx usernames parent s in
      let same = laws.get_account_balances_reads ctx usernames parent s in
      returned-Ends _ _ _ _ (
        try-Ends _ _ _ _ _ x
          (λ found h. next-Ends _ _ _ _ _ (
            listed found (balance_responses uc found) h
                (laws.get_account_balances_ok ctx usernames parent s found h)
                (balance_responses-Shows found) refl,
            same,
          ))
          (λ e h. (failed e h refl, same)))

  -- On a hit in the cache, HandleBalanceCheck shows the cached balance, whatever the repository holds,
  -- and does nothing else.
  handle_balance_check_cached :
      (cache : CacheRepository p S)
      → uc.cache_repo ≡ some cache
      → (ctx : Context T) (username parent : String) (s : S) (b : AccountBalance p)
        (current : p.Float)
      → (cache.get (cache_key uc username parent) s).0 ≡ ok (some (balance b))
      → convert_decimal128_to_float p b.balance ≡ ok current
      → handle_balance_check uc ctx username parent s
        ≡ (next (shows username current), (cache.get (cache_key uc username parent) s).1)
  unfolding handle_balance_check get_account_balance_with_cache
  handle_balance_check_cached cache cached ctx username parent s b current hit readable =
      rw (cached, hit, readable)
