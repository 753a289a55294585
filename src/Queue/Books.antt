-- ===== src/Queue/Books.antt =====
-- The consumer program: requests from a message queue, handled by the wallet, keep the books. What the
-- three adapters share.
use hexagonal_queue.Prelude.{
  ℕ, ◌+◌, ◌≤◌, String, ◌≡◌, refl, Bool, true, false, List, [], ◌∷◌, arith, if◌then◌else◌, ◌++◌,
}
use hexagonal_queue.Prelude.Int.{pos}
use hexagonal_queue.Platform.{Platform}
use hexagonal_queue.Platform.Exact.{Exact}
use hexagonal_queue.Models.{TransactionRequest, TransactionResponse}
use hexagonal_queue.Ports.{Context, background}
use hexagonal_queue.Ports.Store.{Store}
use hexagonal_queue.Ports.Laws.{RepositoryLaws, RuntimeLaws}
use hexagonal_queue.Flow.{Flow, next, response, Action, and_then}
use hexagonal_queue.Flow.Ends.{Ends, Ends-mono, next-Ends, and_then-Ends}
use hexagonal_queue.Wallet.{WalletUseCase}
use hexagonal_queue.Wallet.Movement.{handle_deposit, handle_withdraw}
use hexagonal_queue.Wallet.Member.{handle_create_member}
use hexagonal_queue.Wallet.Ledger.Steps.{Ledger-mono}
use hexagonal_queue.Wallet.Ledger.Calls.{
  Kept, handle_deposit-Ledger, handle_withdraw-Ledger, handle_create_member-Ledger,
}
use hexagonal_queue.Queue.{TransactionHandler, dispatch}

-- `queueAdapter.StartConsumer(walletUseCase)`
abbrev pub wallet_handler :
    {p : Platform} {S T : Type 0} → WalletUseCase p S T → TransactionHandler p S T
wallet_handler uc = record {
  handle_deposit = handle_deposit uc;
  handle_withdraw = handle_withdraw uc;
  handle_create_member = handle_create_member uc;
}

abbrev pub total : {A : Type 0} → (A → ℕ) → List A → ℕ
total amount [] = 0
total amount (x ∷ xs) = amount x + total amount xs

pub total-append :
    {A : Type 0} (amount : A → ℕ) (xs ys : List A)
    → total amount (xs ++ ys) ≡ total amount xs + total amount ys
total-append amount [] ys = omega arith
total-append amount (x ∷ xs) ys = omega (arith, total-append amount xs ys)

-- A call that is made or not, and changes no documents.
pub if_apart :
    {p : Platform} {S T : Type 0} (view : Context T → S → Store p) (b : Bool) (s s' : S)
    → view background s' ≡ view background s
    → view background (if b then s' else s) ≡ view background s
if_apart view true s s' h = h
if_apart view false s s' h = refl

module _ {p : Platform} {S T : Type 0} (e : Exact p) (uc : WalletUseCase p S T)
    (view : Context T → S → Store p) (laws : RepositoryLaws view uc.wallet_repo)
    (runtime_laws : RuntimeLaws view uc.runtime) (name parent : String) where
  abbrev pub Books : ℕ → S → Type 0
  Books = Kept e uc view laws runtime_laws name parent

  pub fewer-Books : (room less : ℕ) (s : S) → less ≤ room → Books room s → Books less s
  fewer-Books room less s small books =
      Ledger-mono e name parent room less (view background s) small books

  -- A state with the documents of `s` has its books.
  pub same-Books :
      (room : ℕ) (s s' : S) → view background s' ≡ view background s → Books room s → Books room s'
  same-Books room s s' h books = rw h books

  abbrev pub Ended : {A : Type 0} → ℕ → Flow p A × S → Type 0
  Ended room x = Ends (λ _ s'. Books room s') (λ _ s'. ⊥) (λ s'. Books room s') x

  pub dispatch-Ended :
      (kind : String) (request : TransactionRequest p) (n room : ℕ) (s : S)
      → request.amount ≡ e.float (pos n)
      → 1 ≤ n
      → Books (n + room) s
      → Ended room (dispatch (wallet_handler uc) kind request s)
  unfolding dispatch
  dispatch-Ended kind request n room s amount some_units books =
      let kept =
        Ledger-mono e name parent (n + room) room (view background s) (omega arith) books in
      let unknown : Ended {A = TransactionResponse p} room
          (next (response 400 "Unknown operation type"), s) =
        next-Ends _ _ _ _ s kept in
      ground (
        arith,
        handle_deposit-Ledger e uc view laws runtime_laws name parent request n room s amount books,
        handle_withdraw-Ledger e uc view laws runtime_laws name parent request n room s amount
            some_units books,
        handle_create_member-Ledger e uc view laws runtime_laws name parent request room s kept,
        unknown,
      )

  -- A step with room for what the rest asks, and the rest from where it goes on.
  pub then-Ended :
      {A B : Type 0} (later room : ℕ) (rest : A → Action p S B) (x : Flow p A × S)
      → room ≤ later
      → Ended later x
      → ((a : A) (s' : S) → Books later s' → Ended room (rest a s'))
      → Ended room (and_then x rest)
  then-Ended later room rest x small kept goes_on = and_then-Ends _ _ _ rest x (
      Ends-mono _ _ _ _ _ _ x goes_on (λ _ _ h. h)
        (λ s' books'. fewer-Books later room s' small books') kept)

  -- There was nothing to do.
  pub idle-Ended : (room : ℕ) (s : S) → Books (0 + room) s → Ended {A = Unit {0}} room (next tt, s)
  idle-Ended room s books = next-Ends _ _ _ tt s (fewer-Books (0 + room) room s (omega arith) books)
