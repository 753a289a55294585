-- ===== src/Scenarios/Ledger.antt =====
-- The books of ann, over the adapter and a driver in memory: a deposit, a withdrawal and a new member,
-- directly and from deliveries.
use hexagonal_queue.Prelude.{
  ℕ, ◌≤◌, ◌≡◌, refl, sym, ap, false, [], ◌∷◌, ok, ok-injective, arith, err, new,
}
use hexagonal_queue.Prelude.Int.{pos, ◌+ℤ◌}
use hexagonal_queue.Platform.Exact.{units, units_exact}
use hexagonal_queue.Models.{TransactionRequest, TransactionResponse}
use hexagonal_queue.Ports.{background, Operation}
use hexagonal_queue.Flow.{response}
use hexagonal_queue.Flow.Ends.{Ends}
use hexagonal_queue.Mongo.Memory.{State, view}
use hexagonal_queue.Wallet.{new_wallet_use_case}
use hexagonal_queue.Wallet.Movement.{handle_deposit, handle_withdraw}
use hexagonal_queue.Wallet.Member.{handle_create_member}
use hexagonal_queue.Wallet.Ledger.{Ledger}
use hexagonal_queue.Wallet.Ledger.Calls.{
  handle_deposit-Ledger, handle_withdraw-Ledger, handle_create_member-opened,
}
use hexagonal_queue.Queue.{Codec, Tokens}
use hexagonal_queue.Queue.Amqp.{Delivery, timed_out, Amqp}
use hexagonal_queue.Queue.Rabbitmq.Consumer.{consume_messages}
use hexagonal_queue.Queue.Books.{wallet_handler}
use hexagonal_queue.Queue.Rabbitmq.Books.{Apart, consume_messages-Ledger}
use hexagonal_queue.Web.{QueueTestRequest}
use hexagonal_queue.Web.Server.{Endpoint, Request, serve}
use hexagonal_queue.Web.Books.{serve-Ledger}
use hexagonal_queue.Scenarios.Fixture.{account, books, world, wallet, request_of}
use hexagonal_queue.Scenarios.Member.{wallet_laws, wallet_runtime, newcomer}

annual : (room : ℕ) → room ≤ 1000 → Ledger units_exact "ann" "shop" room books
unfolding ◌+ℤ◌
annual room small = record {
  account = account;
  credit = 500;
  first = refl;
  active = refl;
  holds = refl;
  fits = omega (arith, small);
  chain = (pos 500, refl, refl, refl, refl);
}

abbrev pub Kept : ℕ → State → Type 0
Kept room s = Ledger units_exact "ann" "shop" room (view background s)

pub started : (room : ℕ) → room ≤ 1000 → Kept room (world books [])
unfolding view
started room small = annual room small

handle_deposit-Ledger_example :
    Ends
      (λ r s'. Kept 40 s')
      (λ r s'. ⊥)
      (λ s'. Kept 40 s')
      (handle_deposit wallet background (request_of (pos 30)) (world books []))
handle_deposit-Ledger_example =
    handle_deposit-Ledger units_exact wallet view wallet_laws wallet_runtime "ann" "shop"
      (request_of (pos 30)) 30 40 (world books []) refl (started 70 (omega arith))

handle_withdraw-Ledger_example :
    Ends
      (λ r s'. Kept 40 s')
      (λ r s'. ⊥)
      (λ s'. Kept 40 s')
      (handle_withdraw wallet background (request_of (pos 30)) (world books []))
handle_withdraw-Ledger_example =
    handle_withdraw-Ledger units_exact wallet view wallet_laws wallet_runtime "ann" "shop"
      (request_of (pos 30)) 30 40 (world books []) refl (omega arith) (started 70 (omega arith))

handle_create_member-opened_example :
    Ends
      (λ r s'. r.status ≡ 200 → Ledger units_exact "bob" "t1" 100 (view background s'))
      (λ r s'. ⊥)
      (λ s'. ⊥)
      (handle_create_member wallet background newcomer (world books []))
unfolding view
handle_create_member-opened_example =
    handle_create_member-opened units_exact wallet view wallet_laws wallet_runtime newcomer 100
      (world books []) (omega arith) (refl, refl)

-- A broker that forgets what it is told; a body is the number of units asked for.
abbrev broker : Amqp State ℕ
broker = record {
  dial = λ _ s. (ok tt, s);
  open_channel = λ s. (ok tt, s);
  qos = λ _ s. (ok tt, s);
  queue_declare = λ name _ s. (ok name, s);
  consume = λ _ _ _ s. (ok tt, s);
  cancel = λ _ s. (ok tt, s);
  publish = λ _ _ _ s. (ok tt, s);
  ack = λ _ s. (ok tt, s);
  await = λ _ _ s. (timed_out, s);
  close_channel = λ s. (ok tt, s);
  close_connection = λ s. (ok tt, s);
  connection_is_closed = λ _. false;
}

abbrev pub codec : Codec units ℕ
codec = record {
  marshal_request = λ r. ok 0;
  unmarshal_request = λ n. ok (request_of (pos n));
  marshal_response = λ r. ok r.status;
  unmarshal_response = λ n. ok (response n "");
}

abbrev pub tokens : Tokens State
tokens = record {
  generate_transaction_id = λ name s. (name, s);
  generate_uuid = λ s. ("0b6f", s);
  unix_time = λ s. ("0", s);
}

apart : Apart view broker
apart = record { publish_apart = λ exchange key m s. refl; ack_apart = λ msg s. refl }

abbrev deposit : Delivery ℕ
deposit = record { tag = 1; kind = "deposit"; correlation_id = "c1"; reply_to = "q1"; body = 30 }

abbrev withdrawal : Delivery ℕ
withdrawal = record { tag = 2; kind = "withdraw"; correlation_id = "c2"; reply_to = ""; body = 20 }

pub asks :
    (n : ℕ)
    → 1 ≤ n
    → (request : TransactionRequest units) → codec.unmarshal_request n ≡ ok request
    → (request.amount ≡ pos n) × (1 ≤ n)
asks n some_units request h = (ap (λ r. r.amount) (sym (ok-injective h)), some_units)

consume_messages-Ledger_example :
    Ends
      (λ _ s'. Kept 40 s')
      (λ _ s'. ⊥)
      (λ s'. Kept 40 s')
      (consume_messages broker codec tokens
        (wallet_handler wallet)
        (deposit ∷ withdrawal ∷ [])
        (world books []))
consume_messages-Ledger_example =
    consume_messages-Ledger units_exact wallet view wallet_laws wallet_runtime "ann" "shop" broker
      codec tokens apart (λ msg. msg.body) (deposit ∷ withdrawal ∷ []) 40 (world books [])
      (asks 30 (omega arith), (asks 20 (omega arith), tt)) (started 90 (omega arith))

-- A deposit of 30 units from the web, and a publisher that is out of reach.
abbrev posted : Request units
posted = record {
  authorization = "shop";
  username = "ann";
  limit = ok (pos 10);
  transaction = ok (request_of (pos 30));
  balance = ok "ann";
  balances = ok ("ann" ∷ []);
  queue_test = err (new "EOF");
}

abbrev unreachable : TransactionRequest units → Operation State (TransactionResponse units)
unreachable request s = (err (new "connection is closed"), s)

deposit_asks : (t : TransactionRequest units) → posted.transaction ≡ ok t → t.amount ≡ pos 30
deposit_asks t h = ap (λ r. r.amount) (sym (ok-injective h))

no_test : (t : QueueTestRequest units) → posted.queue_test ≡ ok t → t.amount ≡ pos 30
no_test t h = cc

serve-Ledger_example :
    Ends
      (λ _ s'. Kept 40 s')
      (λ _ s'. ⊥)
      (λ s'. Kept 40 s')
      (serve wallet unreachable "POST" Endpoint.deposit posted (world books []))
unfolding new_wallet_use_case
serve-Ledger_example =
    serve-Ledger units_exact wallet view wallet_laws wallet_runtime "ann" "shop" 30 40
      (world books []) (omega arith) (started 70 (omega arith)) refl unreachable (λ r s. refl)
      "POST" Endpoint.deposit posted deposit_asks no_test
