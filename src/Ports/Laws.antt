-- ===== src/Ports/Laws.antt =====
-- What the use cases rely on in a repository: what each operation does to the documents that a
-- context sees, provided no other client writes in between.
use mathlib.Core.List.{Perm}
use hexagonal_queue.Prelude.{◌++◌, ℕ, String, ◌≡◌, ◌≢◌, ◌⊎◌, Option, ok, find_first, keep, Leading}
use hexagonal_queue.Prelude.Int.{pos}
use hexagonal_queue.Platform.{Platform}
use hexagonal_queue.Models.{User, AccountBalance, WalletStatement}
use hexagonal_queue.Ports.{Context, background, session, WalletRepository, Runtime, List}
use hexagonal_queue.Ports.Store.{
  at_time, history, set_user, IsLast, Store, find_user, find_balance, set_balance, add_statement,
  add_user, add_account, user_with_token, balance_among,
}

module _ {p : Platform} {S T : Type 0} where
  -- An operation of context `c` that changes the documents of no context.
  abbrev pub Reads : (Context T → S → Store p) → S → S → Type 0
  Reads view s s' = (c : Context T) → view c s' ≡ view c s

  pub record RuntimeLaws (view : Context T → S → Store p) (runtime : Runtime S) : Type 0 where
    pub now_reads : (s : S) → Reads view s (runtime.now s).1
    pub now_nonzero : (s : S) → (runtime.now s).0 ≢ 0
    pub id_reads : (s : S) → Reads view s (runtime.new_object_id s).1
    pub id_nonzero : (s : S) → (runtime.new_object_id s).0 ≢ 0
    pub uuid_reads : (s : S) → Reads view s (runtime.generate_uuid s).1

  pub record RepositoryLaws (view : Context T → S → Store p) (repo : WalletRepository p S T)
      : Type 0 where
    -- reads
    pub get_user_by_username_reads :
        (c : Context T) (u parent : String) (s : S)
        → Reads view s (repo.get_user_by_username c u parent s).1
    pub get_user_by_username_ok :
        (c : Context T) (u parent : String) (s : S) (found : Option User)
        → (repo.get_user_by_username c u parent s).0 ≡ ok found
        → found ≡ find_user u parent (view c s)
    pub get_user_by_token_reads :
        (c : Context T) (token : String) (s : S) → Reads view s (repo.get_user_by_token c token s).1
    pub get_user_by_token_ok :
        (c : Context T) (token : String) (s : S) (found : Option User)
        → (repo.get_user_by_token c token s).0 ≡ ok found
        → found ≡ find_first (user_with_token token) (view c s).users
    pub get_account_balance_reads :
        (c : Context T) (u parent : String) (s : S)
        → Reads view s (repo.get_account_balance c u parent s).1
    pub get_account_balance_ok :
        (c : Context T) (u parent : String) (s : S) (b : AccountBalance p)
        → (repo.get_account_balance c u parent s).0 ≡ ok b
        → find_balance u parent (view c s) ≡ Option.some b
    pub get_account_balances_reads :
        (c : Context T) (us : List String) (parent : String) (s : S)
        → Reads view s (repo.get_account_balances_by_parent_token c us parent s).1
    pub get_account_balances_ok :
        (c : Context T) (us : List String) (parent : String) (s : S) (bs : List (AccountBalance p))
        → (repo.get_account_balances_by_parent_token c us parent s).0 ≡ ok bs
        → (rest : List (AccountBalance p)) × Perm
            (bs ++ rest)
            (keep (balance_among us parent) (view c s).balances)
    pub get_last_wallet_statement_reads :
        (c : Context T) (u parent : String) (s : S)
        → Reads view s (repo.get_last_wallet_statement c u parent s).1
    pub get_last_wallet_statement_ok :
        (c : Context T) (u parent : String) (s : S) (st : WalletStatement p)
        → (repo.get_last_wallet_statement c u parent s).0 ≡ ok st
        → IsLast u parent (view c s) st
    -- the newest statements, from the last on, or the first of them; a limit of 0 is none
    pub get_wallet_statements_reads :
        (c : Context T) (u parent : String) (limit : ℕ) (s : S)
        → Reads view s (repo.get_wallet_statements c u parent (pos limit) s).1
    pub get_wallet_statements_ok :
        (c : Context T) (u parent : String) (limit : ℕ) (s : S) (page : List (WalletStatement p))
        → (repo.get_wallet_statements c u parent (pos limit) s).0 ≡ ok page
        → Leading at_time limit page (history u parent (view c s))
    -- writes; new documents are dated when they are written
    pub create_user_ok :
        (c : Context T) (u : User) (s : S)
        → u.id ≢ 0
        → (repo.create_user c u s).0 ≡ ok tt
        → (created : ℕ) × (updated : ℕ) × (view c (repo.create_user c u s).1
            ≡ add_user (record u { created_at = created; updated_at = updated }) (view c s))
    pub create_account_balance_ok :
        (c : Context T) (b : AccountBalance p) (s : S)
        → b.id ≢ 0
        → (repo.create_account_balance c b s).0 ≡ ok tt
        → (created : ℕ) × (updated : ℕ) × (view c (repo.create_account_balance c b s).1
            ≡ add_account (record b { created_at = created; updated_at = updated }) (view c s))
    pub update_user_ok :
        (c : Context T) (u : User) (s : S)
        → (repo.update_user c u s).0 ≡ ok tt
        → (updated : ℕ) × (view c (repo.update_user c u s).1
            ≡ set_user (record u { updated_at = updated }) (view c s))
    pub create_user_either :
        (c : Context T) (u : User) (s : S)
        → u.id ≢ 0
        → (view c (repo.create_user c u s).1 ≡ view c s)
          ⊎ ((created : ℕ) × (updated : ℕ) × (view c (repo.create_user c u s).1
                ≡ add_user (record u { created_at = created; updated_at = updated }) (view c s)))
    pub create_account_balance_either :
        (c : Context T) (b : AccountBalance p) (s : S)
        → b.id ≢ 0
        → (view c (repo.create_account_balance c b s).1 ≡ view c s)
          ⊎ ((created : ℕ) × (updated : ℕ) × (view c (repo.create_account_balance c b s).1
                ≡ add_account (record b { created_at = created; updated_at = updated }) (view c s)))
    -- writes inside a transaction
    pub create_wallet_statement_session :
        (t : T) (st : WalletStatement p) (s : S)
        → view background (repo.create_wallet_statement (session t) st s).1 ≡ view background s
    pub create_wallet_statement_ok :
        (c : Context T) (st r : WalletStatement p) (s : S)
        → st.id ≢ 0
        → st.datetime ≢ 0
        → (repo.create_wallet_statement c st s).0 ≡ ok r
        → view c (repo.create_wallet_statement c st s).1 ≡ add_statement st (view c s)
    pub update_account_balance_session :
        (t : T) (u parent : String) (d : p.Decimal) (s : S)
        → view background (repo.update_account_balance (session t) u parent d s).1
          ≡ view background s
    pub update_account_balance_ok :
        (c : Context T) (u parent : String) (d : p.Decimal) (s : S)
        → (repo.update_account_balance c u parent d s).0 ≡ ok tt
        → (time : ℕ) × (view c (repo.update_account_balance c u parent d s).1
            ≡ set_balance u parent d time (view c s))
    -- transactions
    pub start_transaction_background :
        (c : Context T) (s : S) → view background (repo.start_transaction c s).1 ≡ view background s
    pub start_transaction_ok :
        (c : Context T) (s : S) (t : T)
        → (repo.start_transaction c s).0 ≡ ok t
        → view (session t) (repo.start_transaction c s).1 ≡ view background s
    pub commit_ok :
        (t : T) (s : S)
        → (repo.commit t s).0 ≡ ok tt
        → view background (repo.commit t s).1 ≡ view (session t) s
    -- a commit that failed may have been made all the same
    pub commit_either :
        (t : T) (s : S)
        → (view background (repo.commit t s).1 ≡ view background s)
          ⊎ (view background (repo.commit t s).1 ≡ view (session t) s)
    pub abort_background : (t : T) (s : S) → view background (repo.abort t s).1 ≡ view background s
