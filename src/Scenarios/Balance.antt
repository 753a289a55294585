-- ===== src/Scenarios/Balance.antt =====
-- Balance checks, without a cache and with one that holds an old balance.
use hexagonal_queue.Prelude.{refl, [], ◌∷◌}
use hexagonal_queue.Ports.{background}
use hexagonal_queue.Ports.Laws.{Reads, RepositoryLaws}
use hexagonal_queue.Flow.Ends.{Ends}
use hexagonal_queue.Mongo.Memory.{view, memory, memory_runtime}
use hexagonal_queue.Mongo.Memory.Laws.{memory-laws, memory_runtime-laws}
use hexagonal_queue.Mongo.Repository.{mongo_repository_refines}
use hexagonal_queue.Wallet.{new_wallet_use_case}
use hexagonal_queue.Wallet.Balance.{handle_balance_check, get_multiple_balances}
use hexagonal_queue.Wallet.Balance.Laws.{
  Checked, handle_balance_check-Checked, Listed, get_multiple_balances-Reads,
}
use hexagonal_queue.Scenarios.Fixture.{books, world, wallet}

wallet_laws : RepositoryLaws view wallet.wallet_repo
unfolding new_wallet_use_case
wallet_laws = mongo_repository_refines memory memory_runtime view memory-laws memory_runtime-laws

handle_balance_check-Checked_example :
    Ends
      (λ r s'.
        Checked "ann" "shop"
          (view background (world books []))
          (wallet.wallet_repo.get_account_balance background "ann" "shop" (world books [])).0
          r
        × Reads view (world books []) s')
      (λ r s'. ⊥)
      (λ s'. ⊥)
      (handle_balance_check wallet background "ann" "shop" (world books []))
unfolding new_wallet_use_case
handle_balance_check-Checked_example =
    handle_balance_check-Checked wallet view wallet_laws refl background "ann" "shop"
      (world books [])

get_multiple_balances-Reads_example :
    Ends
      (λ r s'.
        Listed
          ("bob" ∷ "ann" ∷ [])
          "shop"
          (view background (world books []))
          (wallet.wallet_repo.get_account_balances_by_parent_token background
            ("bob" ∷ "ann" ∷ [])
            "shop"
            (world books [])).0
          r
        × Reads view (world books []) s')
      (λ r s'. ⊥)
      (λ s'. ⊥)
      (get_multiple_balances wallet background ("bob" ∷ "ann" ∷ []) "shop" (world books []))
unfolding new_wallet_use_case
get_multiple_balances-Reads_example =
    get_multiple_balances-Reads wallet view wallet_laws background ("bob" ∷ "ann" ∷ []) "shop"
      (world books [])
