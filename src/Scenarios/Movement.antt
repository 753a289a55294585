-- ===== src/Scenarios/Movement.antt =====
-- Deposits and withdrawals over the adapter and a driver in memory.
use hexagonal_queue.Prelude.{◌≡◌, none, []}
use hexagonal_queue.Prelude.Int.{pos}
use hexagonal_queue.Platform.Exact.{units}
use hexagonal_queue.Ports.{background}
use hexagonal_queue.Ports.Store.{find_user}
use hexagonal_queue.Ports.Laws.{RepositoryLaws}
use hexagonal_queue.Flow.Ends.{Ends}
use hexagonal_queue.Service.{create_deposit_statement, create_withdraw_statement}
use hexagonal_queue.Mongo.Memory.{view, memory, memory_runtime}
use hexagonal_queue.Mongo.Memory.Laws.{memory-laws, memory_runtime-laws}
use hexagonal_queue.Mongo.Adapter.{mongo_repository}
use hexagonal_queue.Mongo.Repository.{mongo_repository_refines}
use hexagonal_queue.Wallet.{new_wallet_use_case}
use hexagonal_queue.Wallet.Movement.{handle_deposit, handle_withdraw}
use hexagonal_queue.Wallet.Movement.Laws.{
  Outcome, DepositAccepted, WithdrawAccepted, handle_deposit-Outcome, handle_withdraw-Outcome,
}
use hexagonal_queue.Scenarios.Fixture.{books, world, wallet, request_of}

mongo_repository_refines_example : RepositoryLaws view (mongo_repository memory memory_runtime)
mongo_repository_refines_example =
    mongo_repository_refines memory memory_runtime view memory-laws memory_runtime-laws

wallet_laws : RepositoryLaws view wallet.wallet_repo
unfolding new_wallet_use_case
wallet_laws = mongo_repository_refines memory memory_runtime view memory-laws memory_runtime-laws

handle_deposit-Outcome_example :
    Ends
      (λ r s'.
        Outcome
          (create_deposit_statement units)
          (request_of (pos 30))
          (DepositAccepted (request_of (pos 30)))
          (view background (world books []))
          r
          (view background s'))
      (λ r s'. ⊥)
      (λ s'.
        (view background s' ≡ view background (world books []))
        × (find_user "ann" "shop" (view background (world books [])) ≡ none))
      (handle_deposit wallet background (request_of (pos 30)) (world books []))
unfolding new_wallet_use_case
handle_deposit-Outcome_example =
    handle_deposit-Outcome wallet view wallet_laws memory_runtime-laws (request_of (pos 30))
      (world books [])

handle_withdraw-Outcome_example :
    Ends
      (λ r s'.
        Outcome
          (create_withdraw_statement units)
          (request_of (pos 30))
          (WithdrawAccepted (request_of (pos 30)) (view background (world books [])))
          (view background (world books []))
          r
          (view background s'))
      (λ r s'. ⊥)
      (λ s'.
        (view background s' ≡ view background (world books []))
        × (find_user "ann" "shop" (view background (world books [])) ≡ none))
      (handle_withdraw wallet background (request_of (pos 30)) (world books []))
unfolding new_wallet_use_case
handle_withdraw-Outcome_example =
    handle_withdraw-Outcome wallet view wallet_laws memory_runtime-laws (request_of (pos 30))
      (world books [])
