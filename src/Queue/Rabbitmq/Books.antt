-- ===== src/Queue/Rabbitmq/Books.antt =====
-- The consumer program with RabbitMQ: deliveries, handled by the wallet, keep the books.
use hexagonal_queue.Prelude.{
  ℕ, ◌+◌, ◌≤◌, String, ◌≡◌, refl, ◌∙◌, List, [], ◌∷◌, Result, ok, err, All, arith, str_eq, not,
  if◌then◌else◌,
}
use hexagonal_queue.Prelude.Int.{pos}
use hexagonal_queue.Platform.{Platform}
use hexagonal_queue.Platform.Exact.{Exact}
use hexagonal_queue.Models.{TransactionRequest, TransactionResponse}
use hexagonal_queue.Ports.{Context, background}
use hexagonal_queue.Ports.Store.{Store}
use hexagonal_queue.Ports.Laws.{RepositoryLaws, RuntimeLaws}
use hexagonal_queue.Flow.{Flow, next, reply, panic, response}
use hexagonal_queue.Flow.Ends.{Ends, next-Ends}
use hexagonal_queue.Wallet.{WalletUseCase}
use hexagonal_queue.Queue.{Codec, Tokens, dispatch}
use hexagonal_queue.Queue.Books.{
  wallet_handler, total, if_apart, Books, Ended, fewer-Books, same-Books, dispatch-Ended,
  then-Ended, idle-Ended,
}
use hexagonal_queue.Queue.Amqp.{Publishing, Delivery, Amqp}
use hexagonal_queue.Queue.Rabbitmq.Consumer.{
  handle_message, handle_body, replied, send_response, send_error_response, send_body,
  consume_messages, acknowledged,
}

-- The broker's calls change no documents.
pub record Apart {p : Platform} {S T Body : Type 0} (view : Context T → S → Store p)
    (amqp : Amqp S Body) : Type 0 where
  pub publish_apart :
      (exchange key : String) (m : Publishing Body) (s : S)
      → view background (amqp.publish exchange key m s).1 ≡ view background s
  pub ack_apart :
      (msg : Delivery Body) (s : S) → view background (amqp.ack msg s).1 ≡ view background s

module _ {p : Platform} {S T Body : Type 0} (e : Exact p) (uc : WalletUseCase p S T)
    (view : Context T → S → Store p) (laws : RepositoryLaws view uc.wallet_repo)
    (runtime_laws : RuntimeLaws view uc.runtime) (name parent : String) (amqp : Amqp S Body)
    (codec : Codec p Body) (tokens : Tokens S) (apart : Apart view amqp) where
  abbrev HasBooks : ℕ → S → Type 0
  HasBooks = Books e uc view laws runtime_laws name parent

  abbrev KeepsBooks : {A : Type 0} → ℕ → Flow p A × S → Type 0
  KeepsBooks = Ended e uc view laws runtime_laws name parent

  -- If the delivery holds a request, it asks for `n` > 0 units.
  abbrev pub Asks : ℕ → Delivery Body → Type 0
  Asks n msg =
      (request : TransactionRequest p)
      → codec.unmarshal_request msg.body ≡ ok request
      → (request.amount ≡ e.float (pos n)) × (1 ≤ n)

  sent_apart :
      (msg : Delivery Body) (body : Result Body) (s : S)
      → view background (send_body amqp codec tokens msg body s) ≡ view background s
  sent_apart msg (err _) s = refl
  sent_apart msg (ok body) s = apart.publish_apart "" msg.reply_to _ s

  respond_apart :
      (msg : Delivery Body) (r : TransactionResponse p) (s : S)
      → view background (send_response amqp codec tokens msg r s) ≡ view background s
  unfolding send_response
  respond_apart msg r s = sent_apart msg (codec.marshal_response r) s

  error_apart :
      (msg : Delivery Body) (text : String) (s : S)
      → view background (send_error_response amqp codec tokens msg text s) ≡ view background s
  unfolding send_error_response
  error_apart msg text s = respond_apart msg (response 400 text) s

  answered-Books :
      (msg : Delivery Body) (r : TransactionResponse p) (room : ℕ) (s : S)
      → HasBooks room s
      → HasBooks room (
          acknowledged amqp codec tokens msg
            (if not (str_eq msg.reply_to "") then send_response amqp codec tokens msg r s else s))
  answered-Books msg r room s books =
      same-Books e uc view laws runtime_laws name parent room s _
        (apart.ack_apart msg _
          ∙ if_apart view (not (str_eq msg.reply_to "")) s _ (respond_apart msg r s))
        books

  replied-Ended :
      (msg : Delivery Body) (room : ℕ) (x : Flow p (TransactionResponse p) × S)
      → KeepsBooks room x
      → KeepsBooks room (replied amqp codec tokens msg x)
  unfolding Ends
  replied-Ended msg room (next r, s) books = answered-Books msg r room s books
  replied-Ended msg room (reply r, s) books = absurd books
  replied-Ended msg room (panic, s) books = books

  body-Ended :
      (msg : Delivery Body) (body : Result (TransactionRequest p)) (n room : ℕ) (s : S)
      → ((request : TransactionRequest p)
          → body ≡ ok request
          → (request.amount ≡ e.float (pos n)) × (1 ≤ n))
      → HasBooks (n + room) s
      → KeepsBooks room (handle_body amqp codec tokens (wallet_handler uc) msg body s)
  body-Ended msg (err _) n room s asks books = next-Ends _ _ _ tt _ (
      same-Books e uc view laws runtime_laws name parent room s _
        (apart.ack_apart msg _ ∙ error_apart msg "Invalid message format" s)
        (fewer-Books e uc view laws runtime_laws name parent (n + room) room s (omega arith) books))
  body-Ended msg (ok request) n room s asks books =
      replied-Ended msg room (dispatch (wallet_handler uc) msg.kind request s) (
        dispatch-Ended e uc view laws runtime_laws name parent msg.kind request n room s
          (asks request refl).0 (asks request refl).1 books)

  message-Ended :
      (msg : Delivery Body) (n room : ℕ) (s : S)
      → Asks n msg
      → HasBooks (n + room) s
      → KeepsBooks room (handle_message amqp codec tokens (wallet_handler uc) msg s)
  unfolding handle_message
  message-Ended msg n room s asks books =
      body-Ended msg (codec.unmarshal_request msg.body) n room s asks books

  -- The consumer over the wallet, with a broker that keeps no documents: let the deliveries ask for
  -- whole positive numbers of units, where they hold a request. After any sequence of them, deposits,
  -- withdrawals, new members, refusals and failed commits in any order, the books of every member
  -- that had room for their total are kept: each statement starts from the credit that the one before
  -- left, and the account holds what the last one left; also when a handler panics.
  pub consume_messages-Ledger :
      (amount : Delivery Body → ℕ) (msgs : List (Delivery Body)) (room : ℕ) (s : S)
      → All (λ msg. Asks (amount msg) msg) msgs
      → HasBooks (total amount msgs + room) s
      → Ends
          (λ _ s'. HasBooks room s')
          (λ _ s'. ⊥)
          (λ s'. HasBooks room s')
          (consume_messages amqp codec tokens (wallet_handler uc) msgs s)
  unfolding consume_messages
  consume_messages-Ledger amount [] room s asks books =
      idle-Ended e uc view laws runtime_laws name parent room s books
  consume_messages-Ledger amount (msg ∷ rest) room s asks books =
      let later = total amount rest + room in
      let enough : HasBooks (amount msg + later) s =
        fewer-Books e uc view laws runtime_laws name parent (total amount (msg ∷ rest) + room)
          (amount msg + later) s (omega arith) books in
      then-Ended e uc view laws runtime_laws name parent later room
        (λ _. consume_messages amqp codec tokens (wallet_handler uc) rest) _ (omega arith)
        (message-Ended msg (amount msg) later s asks.0 enough)
        (λ _ s' books'. consume_messages-Ledger amount rest room s' asks.1 books')
