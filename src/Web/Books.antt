-- ===== src/Web/Books.antt =====
-- The server over the wallet keeps the books of every member.
use hexagonal_queue.Prelude.{
  ℕ, ◌+◌, ◌≤◌, String, ◌≡◌, refl, none, Result, ok, err, str_eq, arith, Bool-cases, inl, inr,
}
use hexagonal_queue.Prelude.Int.{pos}
use hexagonal_queue.Platform.{Platform}
use hexagonal_queue.Platform.Exact.{Exact}
use hexagonal_queue.Models.{TransactionRequest, TransactionResponse}
use hexagonal_queue.Ports.{Context, background, Operation}
use hexagonal_queue.Ports.Store.{Store}
use hexagonal_queue.Ports.Laws.{Reads, RepositoryLaws, RuntimeLaws}
use hexagonal_queue.Flow.{Flow, Action, next}
use hexagonal_queue.Flow.Ends.{Ends, Ends-mono, next-Ends, and_then-Ends}
use hexagonal_queue.Wallet.{WalletUseCase}
use hexagonal_queue.Wallet.Movement.{handle_deposit, handle_withdraw}
use hexagonal_queue.Wallet.Member.{handle_create_member}
use hexagonal_queue.Wallet.Balance.Laws.{handle_balance_check-Checked, get_multiple_balances-Reads}
use hexagonal_queue.Wallet.Ledger.Steps.{Ledger-mono}
use hexagonal_queue.Wallet.Ledger.Calls.{
  Kept, handle_deposit-Ledger, handle_withdraw-Ledger, handle_create_member-Ledger,
}
use hexagonal_queue.Web.{
  Reply, QueueTestRequest, notice, deposit_handler, withdraw_handler, check_balance_handler,
  check_multiple_balances_handler, create_member_handler, queue_deposit_handler, authorized,
  queue_test_handler, tested, test_transaction,
}
use hexagonal_queue.Web.Server.{
  Endpoint, Request, health, queues_health, get_metrics, deposit, withdraw, check_balance,
  check_multiple_balances, create_member, get_transaction_history, queue_deposit, queue_test,
  handle, published_reply, cors_middleware, serve,
}

module _ {p : Platform} {S T : Type 0} (e : Exact p) (uc : WalletUseCase p S T)
    (view : Context T → S → Store p) (laws : RepositoryLaws view uc.wallet_repo)
    (runtime_laws : RuntimeLaws view uc.runtime) (name parent : String) where
  abbrev Books : ℕ → S → Type 0
  Books = Kept e uc view laws runtime_laws name parent

  abbrev Ended : {A : Type 0} → ℕ → Flow p A × S → Type 0
  Ended room x = Ends (λ _ s'. Books room s') (λ _ s'. ⊥) (λ s'. Books room s') x

  -- A common course: a request that is refused, or a use case that keeps the books.
  authorized-Ended :
      {A : Type 0} (usual room : ℕ) (use_case : A → Action p S (TransactionResponse p))
      (authorization : String) (bound : Result A) (s : S)
      → Books room s
      → ((a : A) → bound ≡ ok a → Ended room (use_case a s))
      → Ended room (authorized uc usual use_case authorization bound s)
  authorized-Ended usual room use_case authorization (err _) s books keeps =
      next-Ends _ _ _ _ s books
  authorized-Ended usual room use_case authorization (ok a) s books keeps =
      elim (Bool-cases (str_eq authorization "")) [
        | inl h ↦ rw h (next-Ends _ _ _ _ s books)
        | inr h ↦ rw h (
            and_then-Ends _ _ _ _ _ (
              Ends-mono _ _ _ _ _ _ _ (λ r s' kept. next-Ends _ _ _ _ s' kept) (λ _ _ q. q)
                (λ _ kept. kept) (keeps a refl)))
      ]

  tested-Ended :
      (room : ℕ) (request : QueueTestRequest p) (use_case : Action p S (TransactionResponse p))
      (s : S)
      → Ended room (use_case s)
      → Ended room (tested uc request use_case s)
  tested-Ended room request use_case s kept = and_then-Ends _ _ _ _ _ (
      Ends-mono _ _ _ _ _ _ _ (λ r s' kept. next-Ends _ _ _ _ s' kept) (λ _ _ q. q) (λ _ kept. kept)
        kept)

  module _ (n room : ℕ) (s : S) (some_units : 1 ≤ n) (books : Books (n + room) s) where
    kept : Books room s
    kept = Ledger-mono e name parent (n + room) room (view background s) (omega arith) books

    test-Ended :
        (bound : Result (QueueTestRequest p))
        → ((t : QueueTestRequest p) → bound ≡ ok t → t.amount ≡ e.float (pos n))
        → Ended room (queue_test_handler uc bound s)
    unfolding queue_test_handler
    test-Ended (err _) asks = next-Ends _ _ _ _ s kept
    test-Ended (ok t) asks =
        let request = test_transaction uc t in
        let unknown : Ended {A = Reply p} room (
          next (record {
            code = 400;
            body = notice 400 "Invalid action. Must be: deposit, withdraw, add_member";
          }),
          s,
        ) =
          next-Ends _ _ _ _ s kept in
        ground (
          arith,
          tested-Ended room t (handle_deposit uc background request) s (
              handle_deposit-Ledger e uc view laws runtime_laws name parent request n room s
                (asks t refl) books),
          tested-Ended room t (handle_withdraw uc background request) s (
              handle_withdraw-Ledger e uc view laws runtime_laws name parent request n room s
                (asks t refl) some_units books),
          tested-Ended room t (handle_create_member uc background request) s (
              handle_create_member-Ledger e uc view laws runtime_laws name parent request room s
                kept),
          unknown,
        )

    -- The books in a state that sees the same documents.
    same-Ended :
        (P : TransactionResponse p → S → Type 0) (x : Flow p (TransactionResponse p) × S)
        → Ends (λ r s'. P r s' × Reads view s s') (λ r s'. ⊥) (λ s'. ⊥) x
        → Ended room x
    same-Ended P x reads =
        Ends-mono _ _ _ _ _ _ _ (λ r s' h. rw (h.1 background) kept) (λ _ _ q. q) (λ _ q. absurd q)
          reads

    module _ (uncached : uc.cache_repo ≡ none)
        (publish_transaction : TransactionRequest p → Operation S (TransactionResponse p))
        (apart : (r : TransactionRequest p) (s : S)
          → view background (publish_transaction r s).1 ≡ view background s) where
      queue_deposit-Ended :
          (bound : Result (TransactionRequest p))
          → Ended room (
              published_reply uc publish_transaction
                (queue_deposit_handler publish_transaction bound s))
      unfolding queue_deposit_handler
      queue_deposit-Ended (err _) = next-Ends _ _ _ _ s kept
      queue_deposit-Ended (ok request) = next-Ends _ _ _ _ _ (rw (apart request s) kept)

      handle-Ended :
          (target : Endpoint) (request : Request p)
          → ((t : TransactionRequest p) → request.transaction ≡ ok t → t.amount ≡ e.float (pos n))
          → ((t : QueueTestRequest p) → request.queue_test ≡ ok t → t.amount ≡ e.float (pos n))
          → Ended room (handle uc publish_transaction target request s)
      unfolding handle deposit_handler withdraw_handler check_balance_handler
          check_multiple_balances_handler create_member_handler
      handle-Ended health request asks tests = next-Ends _ _ _ _ s kept
      handle-Ended queues_health request asks tests = next-Ends _ _ _ _ s kept
      handle-Ended get_metrics request asks tests = next-Ends _ _ _ _ s kept
      handle-Ended deposit request asks tests =
          authorized-Ended 200 room _ request.authorization request.transaction s kept (λ t h.
            handle_deposit-Ledger e uc view laws runtime_laws name parent _ n room s (asks t h)
              books)
      handle-Ended withdraw request asks tests =
          authorized-Ended 200 room _ request.authorization request.transaction s kept (λ t h.
            handle_withdraw-Ledger e uc view laws runtime_laws name parent _ n room s (asks t h)
              some_units books)
      handle-Ended check_balance request asks tests =
          authorized-Ended 200 room _ request.authorization request.balance s kept (λ username h.
            same-Ended _ _ (
              handle_balance_check-Checked uc view laws uncached background username
                request.authorization s))
      handle-Ended check_multiple_balances request asks tests =
          authorized-Ended 200 room _ request.authorization request.balances s kept (λ usernames h.
            same-Ended _ _ (
              get_multiple_balances-Reads uc view laws background usernames request.authorization
                s))
      handle-Ended create_member request asks tests =
          authorized-Ended 201 room _ request.authorization request.transaction s kept (λ t h.
            handle_create_member-Ledger e uc view laws runtime_laws name parent _ room s kept)
      handle-Ended get_transaction_history request asks tests = next-Ends _ _ _ _ s kept
      handle-Ended queue_deposit request asks tests = queue_deposit-Ended request.transaction
      handle-Ended queue_test request asks tests = test-Ended request.queue_test tests

      cors-Ended :
          (method : String) (rest : Action p S (Reply p))
          → Ended room (rest s)
          → Ended room (cors_middleware method rest s)
      unfolding cors_middleware
      cors-Ended method rest h = elim (Bool-cases (str_eq method "OPTIONS")) [
        | inl q ↦ rw q (next-Ends _ _ _ _ s kept)
        | inr q ↦ rw q (
            and_then-Ends _ _ _ _ _ (
              Ends-mono _ _ _ _ _ _ _ (λ r s' kept. next-Ends _ _ _ _ s' kept) (λ _ _ q. q)
                (λ _ kept. kept) h))
      ]

      -- The HTTP server over the wallet without a cache, on a lawful repository, with a queue that keeps
      -- no documents: let the amount in the body be a whole positive number of units. Whatever the
      -- method and the route, a preflight, a health check, a movement, a new member, a balance check, a
      -- queued deposit or a queue test, and whatever the reply, the books of every member that had room
      -- for the amount are kept; also when a handler panics.
      pub serve-Ledger :
          (method : String) (target : Endpoint) (request : Request p)
          → ((t : TransactionRequest p) → request.transaction ≡ ok t → t.amount ≡ e.float (pos n))
          → ((t : QueueTestRequest p) → request.queue_test ≡ ok t → t.amount ≡ e.float (pos n))
          → Ends
              (λ _ s'. Books room s')
              (λ _ s'. ⊥)
              (λ s'. Books room s')
              (serve uc publish_transaction method target request s)
      unfolding serve
      serve-Ledger method target request asks tests =
          cors-Ended method (handle uc publish_transaction target request)
            (handle-Ended target request asks tests)
