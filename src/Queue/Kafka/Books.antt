-- ===== src/Queue/Kafka/Books.antt =====
-- The consumer program with Kafka: messages, handled by the wallet, keep the books.
use hexagonal_queue.Prelude.{
  ℕ, ◌+◌, ◌≤◌, String, ◌≡◌, refl, ◌∙◌, List, [], ◌∷◌, Result, ok, err, All, arith, str_eq, not,
}
use hexagonal_queue.Prelude.Int.{pos}
use hexagonal_queue.Platform.{Platform}
use hexagonal_queue.Platform.Exact.{Exact}
use hexagonal_queue.Models.{TransactionRequest, TransactionResponse}
use hexagonal_queue.Ports.{Context, background}
use hexagonal_queue.Ports.Store.{Store}
use hexagonal_queue.Ports.Laws.{RepositoryLaws, RuntimeLaws}
use hexagonal_queue.Flow.{Flow, next, reply, panic, response}
use hexagonal_queue.Flow.Ends.{Ends, next-Ends}
use hexagonal_queue.Wallet.{WalletUseCase}
use hexagonal_queue.Queue.{Codec, Tokens, dispatch}
use hexagonal_queue.Queue.Books.{
  wallet_handler, total, if_apart, Books, Ended, fewer-Books, same-Books, dispatch-Ended,
  then-Ended, idle-Ended,
}
use hexagonal_queue.Queue.Topics.{KafkaMessage, KafkaWriter, KafkaReader, KafkaClient}
use hexagonal_queue.Queue.Kafka.{KafkaAdapter, single_writer, header_value}
use hexagonal_queue.Queue.Kafka.Consumer.{
  reply_message, send_body, send_response, send_back, send_error_response, replied, handle_value,
  handle_message, consume_messages,
}

-- The client's calls change no documents.
pub record TopicsApart {p : Platform} {S T Body : Type 0} (view : Context T → S → Store p)
    (client : KafkaClient S Body) : Type 0 where
  pub write_apart :
      (w : KafkaWriter) (m : KafkaMessage Body) (s : S)
      → view background (client.write w m s).1 ≡ view background s
  pub close_writer_apart :
      (w : KafkaWriter) (s : S) → view background (client.close_writer w s).1 ≡ view background s
  pub commit_apart :
      (reader : KafkaReader) (m : KafkaMessage Body) (s : S)
      → view background (client.commit reader m s).1 ≡ view background s

module _ {p : Platform} {S T Body : Type 0} (e : Exact p) (uc : WalletUseCase p S T)
    (view : Context T → S → Store p) (laws : RepositoryLaws view uc.wallet_repo)
    (runtime_laws : RuntimeLaws view uc.runtime) (name parent : String)
    (client : KafkaClient S Body) (codec : Codec p Body) (tokens : Tokens S)
    (apart : TopicsApart view client) (a : KafkaAdapter) where
  abbrev HasBooks : ℕ → S → Type 0
  HasBooks = Books e uc view laws runtime_laws name parent

  abbrev KeepsBooks : {A : Type 0} → ℕ → Flow p A × S → Type 0
  KeepsBooks = Ended e uc view laws runtime_laws name parent

  -- If the message holds a request, it asks for `n` > 0 units.
  abbrev pub Asks : ℕ → KafkaMessage Body → Type 0
  Asks n msg =
      (request : TransactionRequest p)
      → codec.unmarshal_request msg.value ≡ ok request
      → (request.amount ≡ e.float (pos n)) × (1 ≤ n)

  sent_apart :
      (msg : KafkaMessage Body) (topic : String) (body : Result Body) (s : S)
      → view background (send_body client codec tokens a msg topic body s) ≡ view background s
  sent_apart msg topic (err _) s = refl
  sent_apart msg topic (ok body) s =
      let writer = single_writer a.config topic in
      apart.close_writer_apart writer _
      ∙ apart.write_apart writer (reply_message client codec tokens msg body) s

  back_apart :
      (msg : KafkaMessage Body) (r : TransactionResponse p) (s : S)
      → view background (send_back client codec tokens a msg r s) ≡ view background s
  unfolding send_response
  back_apart msg r s =
      let reply_to = header_value "reply_to" msg.headers in
      if_apart view (not (str_eq reply_to "")) s _
        (sent_apart msg reply_to (codec.marshal_response r) s)

  back-Books :
      (msg : KafkaMessage Body) (r : TransactionResponse p) (room : ℕ) (s : S)
      → HasBooks room s
      → HasBooks room (send_back client codec tokens a msg r s)
  back-Books msg r room s books =
      same-Books e uc view laws runtime_laws name parent room s _ (back_apart msg r s) books

  replied-Ended :
      (msg : KafkaMessage Body) (room : ℕ) (x : Flow p (TransactionResponse p) × S)
      → KeepsBooks room x
      → KeepsBooks room (replied client codec tokens a msg x)
  unfolding Ends
  replied-Ended msg room (next r, s) books = back-Books msg r room s books
  replied-Ended msg room (reply r, s) books = absurd books
  replied-Ended msg room (panic, s) books = books

  value-Ended :
      (msg : KafkaMessage Body) (body : Result (TransactionRequest p)) (n room : ℕ) (s : S)
      → ((request : TransactionRequest p)
          → body ≡ ok request
          → (request.amount ≡ e.float (pos n)) × (1 ≤ n))
      → HasBooks (n + room) s
      → KeepsBooks room (handle_value client codec tokens a (wallet_handler uc) msg body s)
  unfolding send_error_response
  value-Ended msg (err _) n room s asks books = next-Ends _ _ _ tt _ (
      back-Books msg (response 400 "Invalid message format") room s
        (fewer-Books e uc view laws runtime_laws name parent (n + room) room s (omega arith) books))
  value-Ended msg (ok request) n room s asks books =
      let kind = header_value "type" msg.headers in
      let (amount, some_units) = asks request refl in
      replied-Ended msg room (dispatch (wallet_handler uc) kind request s) (
        dispatch-Ended e uc view laws runtime_laws name parent kind request n room s amount
          some_units books)

  message-Ended :
      (msg : KafkaMessage Body) (n room : ℕ) (s : S)
      → Asks n msg
      → HasBooks (n + room) s
      → KeepsBooks room (handle_message client codec tokens a (wallet_handler uc) msg s)
  unfolding handle_message
  message-Ended msg n room s asks books =
      value-Ended msg (codec.unmarshal_request msg.value) n room s asks books

  -- The Kafka consumer over the wallet, with topics that keep no documents: let the messages ask for
  -- whole positive numbers of units, where they hold a request. After any sequence of them, the books
  -- of every member that had room for their total are kept; also when a handler panics.
  pub kafka_consume_messages-Ledger :
      (reader : KafkaReader) (amount : KafkaMessage Body → ℕ) (msgs : List (KafkaMessage Body))
      (room : ℕ) (s : S)
      → All (λ msg. Asks (amount msg) msg) msgs
      → HasBooks (total amount msgs + room) s
      → Ends
          (λ _ s'. HasBooks room s')
          (λ _ s'. ⊥)
          (λ s'. HasBooks room s')
          (consume_messages client codec tokens a (wallet_handler uc) reader msgs s)
  unfolding consume_messages
  kafka_consume_messages-Ledger reader amount [] room s asks books =
      idle-Ended e uc view laws runtime_laws name parent room s books
  kafka_consume_messages-Ledger reader amount (msg ∷ rest) room s asks books =
      let later = total amount rest + room in
      let enough : HasBooks (amount msg + later) s =
        fewer-Books e uc view laws runtime_laws name parent (total amount (msg ∷ rest) + room)
          (amount msg + later) s (omega arith) books in
      then-Ended e uc view laws runtime_laws name parent later room
        (λ _ s'.
          consume_messages client codec tokens a (wallet_handler uc) reader rest
            (client.commit reader msg s').1)
        _ (omega arith) (message-Ended msg (amount msg) later s asks.0 enough)
        (λ _ s' books'. kafka_consume_messages-Ledger reader amount rest room _ asks.1 (
          same-Books e uc view laws runtime_laws name parent later s' _
            (apart.commit_apart reader msg s') books'))
