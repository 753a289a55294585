-- ===== src/Wallet.antt =====
-- internal/application/usecases/wallet_usecase.go: the use cases and what they depend on. The
-- handlers are in the modules below.
pub mod Movement
pub mod Member
pub mod Balance
pub mod Ledger
use hexagonal_queue.Prelude.{Option, none, some}
use hexagonal_queue.Platform.{Platform}
use hexagonal_queue.Service.{Stamp}
use hexagonal_queue.Ports.{WalletRepository, CacheRepository, Runtime}
use hexagonal_queue.Flow.{Action, pure, ◌>>=◌, run}

module _ (p : Platform) where
  -- `WalletUseCase`; the queue port that it also holds is not used by its methods, and the service
  -- has no state.
  pub record WalletUseCase (S T : Type 0) : Type 0 where
    pub wallet_repo : WalletRepository p S T
    pub cache_repo : Option (CacheRepository p S)
    pub runtime : Runtime S

module _ {p : Platform} {S T : Type 0} where
  unfoldable pub new_wallet_use_case : WalletRepository p S T → Runtime S → WalletUseCase p S T
  new_wallet_use_case repo runtime = record {
    wallet_repo = repo;
    cache_repo = none;
    runtime = runtime;
  }

  unfoldable pub set_cache_repository :
      CacheRepository p S → WalletUseCase p S T → WalletUseCase p S T
  set_cache_repository cache uc = record uc { cache_repo = some cache }

  -- The fresh ObjectID and the time that a new document takes.
  abbrev pub stamp : WalletUseCase p S T → Action p S Stamp
  stamp uc = do
    object_id ← run uc.runtime.new_object_id
    time ← run uc.runtime.now
    pure (record { object_id = object_id; time = time })
