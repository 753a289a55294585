-- ===== src/Scenarios/Fixture.antt =====
-- One member with 500 units on the account, in memory, and requests for it.
use hexagonal_queue.Prelude.{List, [], ◌∷◌, Bool}
use hexagonal_queue.Prelude.Int.{ℤ, pos}
use hexagonal_queue.Platform.Exact.{units}
use hexagonal_queue.Models.{User, AccountBalance, WalletStatement, TransactionRequest}
use hexagonal_queue.Ports.Store.{Store}
use hexagonal_queue.Mongo.Memory.{State, Tx, memory, memory_runtime}
use hexagonal_queue.Mongo.Adapter.{mongo_repository}
use hexagonal_queue.Wallet.{WalletUseCase, new_wallet_use_case}

abbrev pub ann : User
ann = record {
  id = 1;
  username = "ann";
  parent_token = "shop";
  token = "t1";
  type_member = "user";
  status = 1;
  created_at = 1;
  updated_at = 1;
}

abbrev pub account : AccountBalance units
account = record {
  id = 2;
  username = "ann";
  parent_token = "shop";
  token = "t1";
  balance = pos 500;
  status = 1;
  created_at = 1;
  updated_at = 1;
}

abbrev pub opening : WalletStatement units
opening = record {
  id = 3;
  datetime = 2;
  username = "ann";
  parent_token = "shop";
  amount = pos 500;
  before_credit = pos 0;
  after_credit = pos 500;
  status = 1;
  is_check = 1;
  type_name = "CREDIT";
  type_action = "DEPOSIT";
  description = "opening";
  hash = "";
  channel = "web";
}

abbrev pub books : Store units
books = record { users = ann ∷ []; balances = account ∷ []; statements = opening ∷ [] }

abbrev pub no_books : Store units
no_books = record { users = []; balances = []; statements = [] }

-- The state in which the calls listed in `faults` fail.
abbrev pub world : Store units → List Bool → State
world d faults = record { main = d; open_tx = no_books; faults = faults; clock = 10 }

abbrev pub wallet : WalletUseCase units State Tx
wallet = new_wallet_use_case (mongo_repository memory memory_runtime) memory_runtime

abbrev pub request_of : ℤ → TransactionRequest units
request_of n = record {
  parent_token = "shop";
  token = "t1";
  username = "ann";
  action = "";
  type_name = "credit";
  amount = n;
  channel = "web";
  description = "run";
  lang = "en";
}
