-- ===== src/Mongo/Repository/Reads.antt =====
-- What the reading methods of `MongoAdapter` return, and that they change nothing.
use mathlib.Core.List.{Perm}
use hexagonal_queue.Prelude.{
  ◌++◌, ℕ, String, ◌≡◌, refl, sym, Option, some, ok, find_first, arith, inl, inr, List, keep, none,
}
use hexagonal_queue.Platform.{Platform}
use hexagonal_queue.Models.{User, AccountBalance, WalletStatement}
use hexagonal_queue.Ports.{Context, Runtime}
use hexagonal_queue.Ports.Store.{
  Store, find_user, find_balance, IsLast, user_named, balance_active, statement_key,
  user_with_token, balance_among,
}
use hexagonal_queue.Ports.Laws.{Reads, RuntimeLaws}
use hexagonal_queue.Mongo.Driver.{unsorted, descending, Driver}
use hexagonal_queue.Mongo.Laws.{DriverLaws}
use hexagonal_queue.Mongo.Adapter.{
  fresh_id, fresh_time, get_user_by_username, get_account_balance, get_last_wallet_statement,
  no_statement, get_user_by_token, get_account_balances_by_parent_token,
}
use hexagonal_queue.Mongo.Repository.Steps.{find_first-keep, optional-ok, or_default-ok, decoded-ok}

module _ {p : Platform} {S T : Type 0} (driver : Driver p S T) (runtime : Runtime S)
    (view : Context T → S → Store p) (laws : DriverLaws view driver)
    (runtime_laws : RuntimeLaws view runtime) where
  pub get_user_by_username-Reads :
      (c : Context T) (u parent : String) (s : S)
      → Reads view s (get_user_by_username driver runtime c u parent s).1
  unfolding get_user_by_username
  get_user_by_username-Reads c u parent s c' =
      ground (arith, laws.users.find_one_reads c (user_named u parent) unsorted s c')

  pub get_user_by_username_ok :
      (c : Context T) (u parent : String) (s : S) (found : Option User)
      → (get_user_by_username driver runtime c u parent s).0 ≡ ok found
      → found ≡ find_user u parent (view c s)
  unfolding get_user_by_username
  get_user_by_username_ok c u parent s found e =
      let f = user_named u parent in
      optional-ok (λ o. o ≡ find_user u parent (view c s)) _ (driver.users.find_one c f unsorted s)
        found (λ a h. sym (laws.users.find_one_first c f s a h))
        (λ h. sym (find_first-keep f (view c s).users (laws.users.find_one_none c f unsorted s h)))
        e

  pub get_account_balance-Reads :
      (c : Context T) (u parent : String) (s : S)
      → Reads view s (get_account_balance driver runtime c u parent s).1
  unfolding get_account_balance
  get_account_balance-Reads c u parent s c' =
      ground (arith, laws.balances.find_one_reads c (balance_active u parent) unsorted s c')

  pub get_account_balance_ok :
      (c : Context T) (u parent : String) (s : S) (b : AccountBalance p)
      → (get_account_balance driver runtime c u parent s).0 ≡ ok b
      → find_balance u parent (view c s) ≡ some b
  unfolding get_account_balance
  get_account_balance_ok c u parent s b e =
      ground (arith, laws.balances.find_one_first c (balance_active u parent) s b)

  pub get_account_balances-Reads :
      (c : Context T) (us : List String) (parent : String) (s : S)
      → Reads view s (get_account_balances_by_parent_token driver runtime c us parent s).1
  unfolding get_account_balances_by_parent_token
  get_account_balances-Reads c us parent s c' =
      ground (arith, laws.balances.find_reads c (balance_among us parent) unsorted none s c')

  pub get_account_balances_ok :
      (c : Context T) (us : List String) (parent : String) (s : S) (bs : List (AccountBalance p))
      → (get_account_balances_by_parent_token driver runtime c us parent s).0 ≡ ok bs
      → (rest : List (AccountBalance p)) × Perm
          (bs ++ rest)
          (keep (balance_among us parent) (view c s).balances)
  unfolding get_account_balances_by_parent_token
  get_account_balances_ok c us parent s bs e =
      decoded-ok "failed to get account balances: " "failed to decode balance: " _ bs
        (driver.balances.find c (balance_among us parent) unsorted none s)
        (λ cursor h is.
          let (rest, perm, _) =
            laws.balances.find_all c (balance_among us parent) s cursor bs h is in
          (rest, perm))
        e

  pub get_last_wallet_statement-Reads :
      (c : Context T) (u parent : String) (s : S)
      → Reads view s (get_last_wallet_statement driver runtime c u parent s).1
  unfolding get_last_wallet_statement
  get_last_wallet_statement-Reads c u parent s c' = ground (
    arith,
    laws.statements.find_one_reads c (statement_key u parent) (descending (λ st. st.datetime)) s c',
  )

  pub get_last_wallet_statement_ok :
      (c : Context T) (u parent : String) (s : S) (st : WalletStatement p)
      → (get_last_wallet_statement driver runtime c u parent s).0 ≡ ok st
      → IsLast u parent (view c s) st
  unfolding get_last_wallet_statement
  get_last_wallet_statement_ok c u parent s st e =
      let f = statement_key u parent in
      let key : WalletStatement p → ℕ = λ st. st.datetime in
      or_default-ok (IsLast u parent (view c s)) _ (no_statement driver runtime)
        (driver.statements.find_one c f (descending key) s) st
        (λ a h. inr (laws.statements.find_one_last c f key s a h))
        (λ h. inl (laws.statements.find_one_none c f (descending key) s h, refl)) e

  pub fresh_id-Reads : (n : ℕ) (s : S) → Reads view s (fresh_id driver runtime n s).1
  fresh_id-Reads n s c = ground (arith, runtime_laws.id_reads s c)

  pub fresh_time-Reads : (n : ℕ) (s : S) → Reads view s (fresh_time driver runtime n s).1
  fresh_time-Reads n s c = ground (arith, runtime_laws.now_reads s c)

  pub get_user_by_token-Reads :
      (c : Context T) (token : String) (s : S)
      → Reads view s (get_user_by_token driver runtime c token s).1
  unfolding get_user_by_token
  get_user_by_token-Reads c token s c' =
      ground (arith, laws.users.find_one_reads c (user_with_token token) unsorted s c')

  pub get_user_by_token_ok :
      (c : Context T) (token : String) (s : S) (found : Option User)
      → (get_user_by_token driver runtime c token s).0 ≡ ok found
      → found ≡ find_first (user_with_token token) (view c s).users
  unfolding get_user_by_token
  get_user_by_token_ok c token s found e =
      let f = user_with_token token in
      optional-ok (λ o. o ≡ find_first f (view c s).users) _ (driver.users.find_one c f unsorted s)
        found (λ a h. sym (laws.users.find_one_first c f s a h))
        (λ h. sym (find_first-keep f (view c s).users (laws.users.find_one_none c f unsorted s h)))
        e
