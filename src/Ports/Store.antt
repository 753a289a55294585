-- ===== src/Ports/Store.antt =====
-- The three collections as a plain store, and what the repository's operations mean on it.
use hexagonal_queue.Prelude.{
  ◌≤◌, ◌⊎◌, All, ◌≡◌, ℕ, String, Bool, ◌&&◌, Option, List, ◌∷◌, [], ◌++◌, str_eq, ◌==◌, find_first,
  change_first, keep, if◌then◌else◌, true,
}
use hexagonal_queue.Platform.{Platform}
use hexagonal_queue.Models.{User, AccountBalance, WalletStatement}

module _ (p : Platform) where
  -- The documents that a context sees, each collection in its natural order.
  pub record Store : Type 0 where
    pub users : List User
    pub balances : List (AccountBalance p)
    pub statements : List (WalletStatement p)

abbrev pub user_named : String → String → User → Bool
user_named username parent_token u =
    str_eq u.username username && str_eq u.parent_token parent_token && u.status == 1

abbrev pub user_with_token : String → User → Bool
user_with_token token u = str_eq u.token token && u.status == 1

abbrev pub Elem : {A : Type 0} → A → List A → Type 0
Elem a [] = ⊥
Elem a (x ∷ xs) = (a ≡ x) ⊎ Elem a xs

-- The operator `$in` on a text.
abbrev pub is_in : String → List String → Bool
is_in name [] = Bool.false
is_in name (x ∷ xs) = let rest = is_in name xs in if str_eq name x then true else rest

module _ {p : Platform} where
  abbrev pub balance_key : String → String → AccountBalance p → Bool
  balance_key username parent_token b =
      str_eq b.username username && str_eq b.parent_token parent_token

  abbrev pub balance_active : String → String → AccountBalance p → Bool
  balance_active username parent_token b =
      str_eq b.username username && str_eq b.parent_token parent_token && b.status == 1

  -- The active accounts of some members under one parent.
  abbrev pub balance_among : List String → String → AccountBalance p → Bool
  balance_among usernames parent_token b =
      is_in b.username usernames && str_eq b.parent_token parent_token && b.status == 1

  abbrev pub statement_key : String → String → WalletStatement p → Bool
  statement_key username parent_token st =
      str_eq st.username username && str_eq st.parent_token parent_token

  abbrev pub find_user : String → String → Store p → Option User
  find_user username parent_token d = find_first (user_named username parent_token) d.users

  abbrev pub find_balance : String → String → Store p → Option (AccountBalance p)
  find_balance username parent_token d =
      find_first (balance_active username parent_token) d.balances

  abbrev pub with_balance : p.Decimal → ℕ → AccountBalance p → AccountBalance p
  with_balance amount time b = record b { balance = amount; updated_at = time }

  abbrev pub set_balance : String → String → p.Decimal → ℕ → Store p → Store p
  set_balance username parent_token amount time d = record d {
    balances =
        change_first (balance_key username parent_token) (with_balance amount time) d.balances;
  }

  abbrev pub add_statement : WalletStatement p → Store p → Store p
  add_statement st d = record d { statements = d.statements ++ (st ∷ []) }

  abbrev pub add_user : User → Store p → Store p
  add_user u d = record d { users = d.users ++ (u ∷ []) }

  -- The user with the id of `u` is replaced.
  abbrev pub set_user : User → Store p → Store p
  set_user u d = record d { users = change_first (λ v. v.id == u.id) (λ _. u) d.users }

  abbrev pub add_account : AccountBalance p → Store p → Store p
  add_account b d = record d { balances = d.balances ++ (b ∷ []) }

  -- The statements of one account.
  abbrev pub history : String → String → Store p → List (WalletStatement p)
  history username parent_token d = keep (statement_key username parent_token) d.statements

  abbrev pub at_time : WalletStatement p → ℕ
  at_time st = st.datetime

  abbrev pub NotAfter : ℕ → WalletStatement p → Type 0
  NotAfter time st = st.datetime ≤ time

  -- A statement of the account that none of its statements is later than, or a statement with credit
  -- zero if the account has none.
  abbrev pub IsLast : String → String → Store p → WalletStatement p → Type 0
  IsLast username parent_token d st =
      ((history username parent_token d ≡ []) × (st.after_credit ≡ p.new_decimal128 0 0))
      ⊎ (Elem st (history username parent_token d)
          × All (NotAfter st.datetime) (history username parent_token d))
