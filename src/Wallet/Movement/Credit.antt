-- ===== src/Wallet/Movement/Credit.antt =====
-- What a posted movement leaves in the documents: exact amounts, a balance that agrees with the last
-- statement, and every other account as it was.
use hexagonal_queue.Prelude.{
  append_nil, String, ◌≡◌, refl, ◌∙◌, inl, inr, true, false, ◌&&◌, some, List, [], ◌∷◌, ◌++◌,
  str_eq, find_first, arith, eq_iff, find_first-change_first, find_first-change_other,
  find_first-passes, keep-append,
}
use hexagonal_queue.Platform.{Platform}
use hexagonal_queue.Models.{AccountBalance, TransactionRequest}
use hexagonal_queue.Ports.Store.{
  Store, Elem, find_balance, balance_key, balance_active, with_balance, history, statement_key,
  user_named,
}
use hexagonal_queue.Wallet.Movement.Posted.{Maker, Posted}

module _ {A : Type 0} where
  pub Elem-last : (xs : List A) (a : A) → Elem a (xs ++ (a ∷ []))
  Elem-last [] a = inl refl
  Elem-last (x ∷ xs) a = inr (Elem-last xs a)

module _ {p : Platform} (make : Maker p) (req : TransactionRequest p) (before after : Store p)
    (posted : Posted make req before after) where
  open posted use {account, statement, time, user}

  active_after :
      balance_active req.username req.parent_token
        (with_balance {p = p} statement.after_credit time account)
      ≡ true
  active_after =
      find_first-passes (balance_active req.username req.parent_token) before.balances account
        posted.account_found

  pub found_after :
      find_first (balance_key req.username req.parent_token) before.balances ≡ some account
      → find_balance req.username req.parent_token after
        ≡ some (with_balance {p = p} statement.after_credit time account)
  found_after first = rw (posted.stored) (
      find_first-change_first (balance_key req.username req.parent_token)
        (balance_active req.username req.parent_token)
        (with_balance {p = p} statement.after_credit time) before.balances account
        (λ x h. ground arith) active_after first)

  pub history-after :
      statement_key {p = p} req.username req.parent_token statement ≡ true
      → history req.username req.parent_token after
        ≡ history req.username req.parent_token before ++ (statement ∷ [])
  history-after own = rw (posted.stored) (
      keep-append (statement_key {p = p} req.username req.parent_token) before.statements
        (statement ∷ [])
      ∙ rw own refl)

  user_is_named : user_named req.username req.parent_token user ≡ true
  user_is_named =
      find_first-passes (user_named req.username req.parent_token) before.users user
        posted.user_found

  pub parent_of_user : user.parent_token ≡ req.parent_token
  parent_of_user = ground (arith, user_is_named, eq_iff user.parent_token req.parent_token)

  pub other_key :
      (name parent u par : String)
      → (str_eq req.username name && str_eq req.parent_token parent) ≡ false
      → (str_eq u req.username && str_eq par req.parent_token) ≡ true
      → (str_eq u name && str_eq par parent) ≡ false
  other_key name parent u par other same =
      ground (arith, eq_iff u req.username, eq_iff par req.parent_token)

  pub other_balance :
      (name parent : String)
      → (str_eq req.username name && str_eq req.parent_token parent) ≡ false
      → (x : AccountBalance p) → balance_key req.username req.parent_token x ≡ true
      → balance_active name parent x ≡ false
  other_balance name parent other x same =
      ground (arith, other_key name parent x.username x.parent_token other same)

  pub other_statement :
      (name parent : String)
      → (str_eq req.username name && str_eq req.parent_token parent) ≡ false
      → statement.username ≡ req.username
      → statement.parent_token ≡ user.parent_token
      → statement_key {p = p} name parent statement ≡ false
  other_statement name parent other su sp = rw (su, sp, parent_of_user) other

  -- A posted movement whose statement carries the member's key changes no account that is found
  -- under another key, no other member's statements and no user.
  pub posted_elsewhere :
      (name parent : String)
      → (str_eq req.username name && str_eq req.parent_token parent) ≡ false
      → statement.username ≡ req.username
      → statement.parent_token ≡ user.parent_token
      → (find_balance name parent after ≡ find_balance name parent before)
        × (history name parent after ≡ history name parent before)
        × (after.users ≡ before.users)
  posted_elsewhere name parent other su sp = rw (posted.stored) (
    find_first-change_other (balance_key req.username req.parent_token) (balance_active name parent)
        (with_balance {p = p} statement.after_credit time) before.balances
        (other_balance name parent other) (other_balance name parent other),
    keep-append (statement_key {p = p} name parent) before.statements (statement ∷ [])
        ∙ rw (other_statement name parent other su sp) (append_nil (history name parent before)),
    refl,
  )
