-- ===== src/Scenarios/Member.antt =====
-- A new member under ann, over the adapter and a driver in memory.
use hexagonal_queue.Prelude.Int.{pos}
use hexagonal_queue.Platform.Exact.{units}
use hexagonal_queue.Models.{TransactionRequest}
use hexagonal_queue.Ports.Laws.{RepositoryLaws, RuntimeLaws}
use hexagonal_queue.Flow.Ends.{Ends}
use hexagonal_queue.Mongo.Memory.{view, memory, memory_runtime}
use hexagonal_queue.Mongo.Memory.Laws.{memory-laws, memory_runtime-laws}
use hexagonal_queue.Mongo.Repository.{mongo_repository_refines}
use hexagonal_queue.Wallet.{new_wallet_use_case}
use hexagonal_queue.Scenarios.Fixture.{wallet, request_of}

pub wallet_laws : RepositoryLaws view wallet.wallet_repo
unfolding new_wallet_use_case
wallet_laws = mongo_repository_refines memory memory_runtime view memory-laws memory_runtime-laws

pub wallet_runtime : RuntimeLaws view wallet.runtime
unfolding new_wallet_use_case
wallet_runtime = memory_runtime-laws

abbrev pub newcomer : TransactionRequest units
newcomer = record (request_of (pos 0)) { username = "bob"; parent_token = "t1" }
