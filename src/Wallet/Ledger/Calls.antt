-- ===== src/Wallet/Ledger/Calls.antt =====
-- The handlers of the wallet keep the books of every member, whatever they respond.
use hexagonal_queue.Prelude.{[], ℕ, ◌+◌, ◌≤◌, String, ◌≡◌, inl, inr, arith, find_first, none, ap}
use mathlib.Core.Path.{subst}
use hexagonal_queue.Prelude.Int.{pos}
use hexagonal_queue.Platform.{Platform}
use hexagonal_queue.Platform.Exact.{Exact, unit_bound}
use hexagonal_queue.Models.{TransactionRequest, TransactionResponse, User, AccountBalance}
use hexagonal_queue.Service.{create_deposit_statement, create_withdraw_statement}
use hexagonal_queue.Ports.{Context, background}
use hexagonal_queue.Ports.Store.{Store, balance_key, add_account, add_user, history}
use hexagonal_queue.Ports.Laws.{RepositoryLaws, RuntimeLaws}
use hexagonal_queue.Flow.{response}
use hexagonal_queue.Flow.Ends.{Ends, Ends-mono}
use hexagonal_queue.Wallet.{WalletUseCase}
use hexagonal_queue.Wallet.Movement.{handle_deposit, handle_withdraw}
use hexagonal_queue.Wallet.Member.{handle_create_member}
use hexagonal_queue.Wallet.Movement.Posted.{Maker, Posted}
use hexagonal_queue.Wallet.Movement.Laws.{
  Outcome, untouched, done, commit_failed, handle_deposit-Outcome, handle_withdraw-Outcome,
}
use hexagonal_queue.Wallet.Member.Laws.{Joined, IsOpened, handle_create_member-Joined}
use hexagonal_queue.Wallet.Ledger.{Ledger}
use hexagonal_queue.Wallet.Ledger.Steps.{Ledger-mono, deposit-Ledger, withdraw-Ledger}
use hexagonal_queue.Wallet.Ledger.Opening.{opened-Ledger, add_user-Ledger, add_account-Ledger}

module _ {p : Platform} (e : Exact p) (name parent : String) (n room : ℕ) where
  outcome-Ledger :
      (make : Maker p) (req : TransactionRequest p) (Accepted : Type 0) (before : Store p)
      (r : TransactionResponse p) (after : Store p)
      → (Posted make req before after
          → Ledger e name parent (n + room) before
          → Ledger e name parent room after)
      → Outcome make req Accepted before r after
      → Ledger e name parent (n + room) before
      → Ledger e name parent room after
  outcome-Ledger make req Accepted before r after keeps (untouched bad same) books =
      rw same (Ledger-mono e name parent (n + room) room before (omega arith) books)
  outcome-Ledger make req Accepted before r after keeps (done good accepted posted) books =
      keeps posted books
  outcome-Ledger make req Accepted before r after keeps (commit_failed is accepted (inl same))
        books =
      rw same (Ledger-mono e name parent (n + room) room before (omega arith) books)
  outcome-Ledger make req Accepted before r after keeps (commit_failed is accepted (inr posted))
        books =
      keeps posted books

module _ {p : Platform} (e : Exact p) (name parent : String) (room : ℕ) where
  Joined-Ledger :
      (req : TransactionRequest p) (Free : Type 0) (before : Store p) (r : TransactionResponse p)
      (after : Store p)
      → Joined req Free before r after
      → Ledger e name parent room before
      → Ledger e name parent room after
  Joined-Ledger req Free before r after (Joined.untouched bad same) books = rw same books
  Joined-Ledger req Free before r after (Joined.joined _ u b _ _ _ _ _ _ is) books = rw is (
      add_account-Ledger e name parent room _ b (add_user-Ledger e name parent room before u books))
  Joined-Ledger req Free before r after (Joined.user_failed _ _ (inl same)) books = rw same books
  Joined-Ledger req Free before r after (Joined.user_failed _ _ (inr (u, _, is))) books =
      rw is (add_user-Ledger e name parent room before u books)
  Joined-Ledger req Free before r after (Joined.account_failed _ u _ _ (inl is)) books =
      rw is (add_user-Ledger e name parent room before u books)
  Joined-Ledger req Free before r after (Joined.account_failed _ u _ _ (inr (b, _, is))) books =
      rw is (
        add_account-Ledger e name parent room _ b
          (add_user-Ledger e name parent room before u books))

module _ {p : Platform} (e : Exact p) (room : ℕ) where
  failed_500 :
      (r : TransactionResponse p) (text : String) → r ≡ response 500 text → r.status ≡ 200 → ⊥
  failed_500 r text is good =
      let fails : r.status ≡ 500 = ap (λ r. r.status) is in omega (arith, fails, good)

  -- The member of a request has neither an account nor a statement.
  abbrev pub Blank : TransactionRequest p → Store p → Type 0
  Blank req d =
      (find_first (balance_key req.username req.parent_token) d.balances ≡ none)
      × (history req.username req.parent_token d ≡ [])

  opened_books :
      (req : TransactionRequest p) (before : Store p) (u : User) (b : AccountBalance p)
      → room ≤ unit_bound
      → Blank req before
      → IsOpened req b
      → Ledger e req.username req.parent_token room (add_account b (add_user u before))
  opened_books req before u b fits (unknown, blank) (name, parent, nothing, live) =
      subst (λ n. Ledger e n req.parent_token room (add_account b (add_user u before))) name
        (subst (λ t. Ledger e b.username t room (add_account b (add_user u before))) parent
          (opened-Ledger e room before u b fits (rw (name, parent) unknown)
            (rw (name, parent) blank) live nothing))

  Joined-books :
      (req : TransactionRequest p) (Free : Type 0) (before : Store p) (r : TransactionResponse p)
      (after : Store p)
      → room ≤ unit_bound
      → Blank req before
      → Joined req Free before r after
      → r.status ≡ 200
      → Ledger e req.username req.parent_token room after
  Joined-books req Free before r after fits blank (Joined.untouched bad same) good =
      absurd (bad good)
  Joined-books req Free before r after fits blank (Joined.joined _ u b _ _ _ _ _ opened is) good =
      rw is (opened_books req before u b fits blank opened)
  Joined-books req Free before r after fits blank (Joined.user_failed _ is _) good =
      absurd (failed_500 r "Failed to create user" is good)
  Joined-books req Free before r after fits blank (Joined.account_failed _ _ is _ _) good =
      absurd (failed_500 r "Failed to create account balance" is good)

module _ {p : Platform} {S T : Type 0} (e : Exact p) (uc : WalletUseCase p S T)
    (view : Context T → S → Store p) (laws : RepositoryLaws view uc.wallet_repo)
    (runtime_laws : RuntimeLaws view uc.runtime) (name parent : String) where
  -- The books of the member in what every other client sees.
  abbrev pub Kept : ℕ → S → Type 0
  Kept room s = Ledger e name parent room (view background s)

  -- HandleDeposit of n units keeps the books of every member that have room for them, on every path:
  -- refused, posted, with a commit that failed, or in a panic.
  pub handle_deposit-Ledger :
      (req : TransactionRequest p) (n room : ℕ) (s : S)
      → req.amount ≡ e.float (pos n)
      → Kept (n + room) s
      → Ends
          (λ r s'. Kept room s')
          (λ r s'. ⊥)
          (λ s'. Kept room s')
          (handle_deposit uc background req s)
  handle_deposit-Ledger req n room s amount books =
      Ends-mono _ _ _ _ _ _ _
        (λ r s' outcome.
          outcome-Ledger e name parent n room (create_deposit_statement p) req _ (view background s)
            r (view background s')
            (deposit-Ledger e req (view background s) (view background s') name parent n room
              amount)
            outcome books)
        (λ r s' h. h)
        (λ s' crashed.
          rw (crashed.0)
            (Ledger-mono e name parent (n + room) room (view background s) (omega arith) books))
        (handle_deposit-Outcome uc view laws runtime_laws req s)

  -- HandleWithdraw of n > 0 units keeps the books of every member that have room for them, on every
  -- path: refused, posted, with a commit that failed, or in a panic.
  pub handle_withdraw-Ledger :
      (req : TransactionRequest p) (n room : ℕ) (s : S)
      → req.amount ≡ e.float (pos n)
      → 1 ≤ n
      → Kept (n + room) s
      → Ends
          (λ r s'. Kept room s')
          (λ r s'. ⊥)
          (λ s'. Kept room s')
          (handle_withdraw uc background req s)
  handle_withdraw-Ledger req n room s amount some_units books =
      Ends-mono _ _ _ _ _ _ _
        (λ r s' outcome.
          outcome-Ledger e name parent n room (create_withdraw_statement p) req _
            (view background s) r (view background s')
            (withdraw-Ledger e req (view background s) (view background s') name parent n room
              amount some_units)
            outcome books)
        (λ r s' h. h)
        (λ s' crashed.
          rw (crashed.0)
            (Ledger-mono e name parent (n + room) room (view background s) (omega arith) books))
        (handle_withdraw-Outcome uc view laws runtime_laws req s)

  -- HandleCreateMember keeps the books of every member that has books, whatever of it fails.
  pub handle_create_member-Ledger :
      (req : TransactionRequest p) (room : ℕ) (s : S)
      → Kept room s
      → Ends
          (λ r s'. Kept room s')
          (λ r s'. ⊥)
          (λ s'. Kept room s')
          (handle_create_member uc background req s)
  handle_create_member-Ledger req room s books =
      Ends-mono _ _ _ _ _ _ _
        (λ r s' ended.
          Joined-Ledger e name parent room req _ (view background s) r (view background s') ended
            books)
        (λ r s' h. h) (λ s' h. absurd h)
        (handle_create_member-Joined uc view laws runtime_laws background req s)

module _ {p : Platform} {S T : Type 0} (e : Exact p) (uc : WalletUseCase p S T)
    (view : Context T → S → Store p) (laws : RepositoryLaws view uc.wallet_repo)
    (runtime_laws : RuntimeLaws view uc.runtime) where
  -- HandleCreateMember for a member with neither an account nor a statement: if it responds 200, it
  -- has opened the member's books, at a credit of zero, with room for any amount up to the bound.
  pub handle_create_member-opened :
      (req : TransactionRequest p) (room : ℕ) (s : S)
      → room ≤ unit_bound
      → Blank e room req (view background s)
      → Ends
          (λ r s'.
            r.status ≡ 200 → Ledger e req.username req.parent_token room (view background s'))
          (λ r s'. ⊥)
          (λ s'. ⊥)
          (handle_create_member uc background req s)
  handle_create_member-opened req room s fits blank =
      Ends-mono _ _ _ _ _ _ _
        (λ r s' ended.
          Joined-books e room req _ (view background s) r (view background s') fits blank ended)
        (λ r s' h. h) (λ s' h. h)
        (handle_create_member-Joined uc view laws runtime_laws background req s)
