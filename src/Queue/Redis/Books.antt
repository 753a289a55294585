-- ===== src/Queue/Redis/Books.antt =====
-- The consumer program with Redis: entries of its stream, handled by the wallet, keep the books.
use hexagonal_queue.Prelude.{
  All-split, ℕ, Option, none, some, Error, ◌++◌, ◌+◌, ◌≤◌, String, ◌≡◌, refl, ◌∙◌, List, [], ◌∷◌,
  Result, ok, err, All, arith, str_eq, not, Option, some, ◌++◌, Error,
}
use hexagonal_queue.Prelude.Int.{pos}
use hexagonal_queue.Platform.{Platform}
use hexagonal_queue.Platform.Exact.{Exact}
use hexagonal_queue.Models.{TransactionResponse}
use hexagonal_queue.Ports.{Context, background}
use hexagonal_queue.Ports.Store.{Store}
use hexagonal_queue.Ports.Laws.{RepositoryLaws, RuntimeLaws}
use hexagonal_queue.Flow.{Flow, next, reply, panic, response}
use hexagonal_queue.Flow.Ends.{Ends, next-Ends}
use hexagonal_queue.Wallet.{WalletUseCase}
use hexagonal_queue.Queue.{Codec, Tokens, dispatch}
use hexagonal_queue.Queue.Books.{
  total-append, wallet_handler, total, if_apart, Books, Ended, fewer-Books, same-Books,
  dispatch-Ended, then-Ended, idle-Ended,
}
use hexagonal_queue.Queue.Redis.{Message, MessageCodec, XMessage, RedisClient, RedisAdapter}
use hexagonal_queue.Queue.Redis.Consumer.{
  Read, nothing_read, read_failed, streams, push_body, send_response, send_error_response, replied,
  handle_decoded, handle_field, handle_message, consume_entries, consume_streams, consume_messages,
}

-- The client's calls change no documents.
pub record ListsApart {p : Platform} {S T Body : Type 0} (view : Context T → S → Store p)
    (client : RedisClient S Body) : Type 0 where
  pub right_push_apart :
      (key : String) (body : Body) (s : S)
      → view background (client.right_push key body s).1 ≡ view background s
  pub expire_apart :
      (key : String) (time : ℕ) (s : S)
      → view background (client.expire key time s).1 ≡ view background s
  pub ack_apart :
      (stream group id : String) (s : S)
      → view background (client.ack stream group id s) ≡ view background s

-- The entries that a consumer reads, in order.
abbrev pub entries_of : {Body : Type 0} → List (List (XMessage Body)) → List (XMessage Body)
entries_of [] = []
entries_of (entries ∷ rest) = entries ++ entries_of rest

abbrev pub read_entries : {Body : Type 0} → List (Read Body) → List (XMessage Body)
read_entries [] = []
read_entries (nothing_read ∷ rest) = read_entries rest
read_entries (read_failed _ ∷ rest) = read_entries rest
read_entries (streams entries ∷ rest) = entries_of entries ++ read_entries rest

module _ {p : Platform} {S T Body : Type 0} (e : Exact p) (uc : WalletUseCase p S T)
    (view : Context T → S → Store p) (laws : RepositoryLaws view uc.wallet_repo)
    (runtime_laws : RuntimeLaws view uc.runtime) (name parent : String)
    (client : RedisClient S Body) (codec : Codec p Body) (messages : MessageCodec p Body)
    (tokens : Tokens S) (apart : ListsApart view client) (a : RedisAdapter) where
  abbrev HasBooks : ℕ → S → Type 0
  HasBooks = Books e uc view laws runtime_laws name parent

  abbrev KeepsBooks : {A : Type 0} → ℕ → Flow p A × S → Type 0
  KeepsBooks = Ended e uc view laws runtime_laws name parent

  abbrev AsksFor : ℕ → Option Error × Message p → Type 0
  AsksFor n (some _, message) = Unit {0}
  AsksFor n (none, message) = (message.request.amount ≡ e.float (pos n)) × (1 ≤ n)

  -- If the entry holds a message that can be read, it asks for `n` > 0 units.
  abbrev pub Asks : ℕ → XMessage Body → Type 0
  Asks n msg = (body : Body) → msg.message ≡ some body → AsksFor n (messages.unmarshal_message body)

  pushed_apart :
      (reply_to : String) (body : Result Body) (s : S)
      → view background (push_body client codec messages tokens reply_to body s) ≡ view background s
  pushed_apart reply_to (err _) s = refl
  pushed_apart reply_to (ok body) s =
      apart.expire_apart reply_to 300000000000 _ ∙ apart.right_push_apart reply_to body s

  response_apart :
      (reply_to : String) (r : TransactionResponse p) (s : S)
      → view background (send_response client codec messages tokens reply_to r s)
        ≡ view background s
  unfolding send_response
  response_apart reply_to r s = pushed_apart reply_to (codec.marshal_response r) s

  error_apart :
      (reply_to text : String) (s : S)
      → view background (send_error_response client codec messages tokens reply_to text s)
        ≡ view background s
  unfolding send_error_response
  error_apart reply_to text s =
      let sent = response_apart reply_to (response 400 text) s in ground (arith, sent)

  replied-Ended :
      (message : Message p) (room : ℕ) (x : Flow p (TransactionResponse p) × S)
      → KeepsBooks room x
      → KeepsBooks room (replied client codec messages tokens message x)
  unfolding Ends
  replied-Ended message room (next r, s) books =
      same-Books e uc view laws runtime_laws name parent room s _
        (if_apart view (not (str_eq message.reply_to "")) s _ (response_apart message.reply_to r s))
        books
  replied-Ended message room (reply r, s) books = absurd books
  replied-Ended message room (panic, s) books = books

  decoded-Ended :
      (decoded : Option Error × Message p) (n room : ℕ) (s : S)
      → AsksFor n decoded
      → HasBooks (n + room) s
      → KeepsBooks room (handle_decoded client codec messages tokens (wallet_handler uc) decoded s)
  decoded-Ended (some _, message) n room s asks books = next-Ends _ _ _ tt _ (
      same-Books e uc view laws runtime_laws name parent room s _
        (error_apart message.reply_to "Invalid message format" s)
        (fewer-Books e uc view laws runtime_laws name parent (n + room) room s (omega arith) books))
  decoded-Ended (none, message) n room s (amount, some_units) books =
      replied-Ended message room (dispatch (wallet_handler uc) message.kind message.request s) (
        dispatch-Ended e uc view laws runtime_laws name parent message.kind message.request n room s
          amount some_units books)

  field-Ended :
      (field : Option Body) (n room : ℕ) (s : S)
      → ((body : Body) → field ≡ some body → AsksFor n (messages.unmarshal_message body))
      → HasBooks (n + room) s
      → KeepsBooks room (handle_field client codec messages tokens (wallet_handler uc) field s)
  field-Ended none n room s asks books =
      next-Ends _ _ _ tt _
        (fewer-Books e uc view laws runtime_laws name parent (n + room) room s (omega arith) books)
  field-Ended (some body) n room s asks books =
      decoded-Ended (messages.unmarshal_message body) n room s (asks body refl) books

  message-Ended :
      (msg : XMessage Body) (n room : ℕ) (s : S)
      → Asks n msg
      → HasBooks (n + room) s
      → KeepsBooks room (handle_message client codec messages tokens (wallet_handler uc) msg s)
  unfolding handle_message
  message-Ended msg n room s asks books = field-Ended msg.message n room s asks books

  entries-Ended :
      (amount : XMessage Body → ℕ) (msgs : List (XMessage Body)) (room : ℕ) (s : S)
      → All (λ msg. Asks (amount msg) msg) msgs
      → HasBooks (total amount msgs + room) s
      → KeepsBooks room (consume_entries client codec messages tokens (wallet_handler uc) a msgs s)
  unfolding consume_entries
  entries-Ended amount [] room s asks books =
      idle-Ended e uc view laws runtime_laws name parent room s books
  entries-Ended amount (msg ∷ rest) room s asks books =
      let later = total amount rest + room in
      let enough : HasBooks (amount msg + later) s =
        fewer-Books e uc view laws runtime_laws name parent (total amount (msg ∷ rest) + room)
          (amount msg + later) s (omega arith) books in
      then-Ended e uc view laws runtime_laws name parent later room
        (λ _ s'.
          consume_entries client codec messages tokens (wallet_handler uc) a rest
            (client.ack a.config.queue_name a.config.consumer_group msg.id s'))
        _ (omega arith) (message-Ended msg (amount msg) later s asks.0 enough)
        (λ _ s' books'. entries-Ended amount rest room _ asks.1 (
          same-Books e uc view laws runtime_laws name parent later s' _
            (apart.ack_apart a.config.queue_name a.config.consumer_group msg.id s') books'))

  -- Room for two parts of what is read is room for the second after the first.
  part-Books :
      (amount : XMessage Body → ℕ) (xs ys : List (XMessage Body)) (room : ℕ) (s : S)
      → HasBooks (total amount (xs ++ ys) + room) s
      → HasBooks (total amount xs + (total amount ys + room)) s
  part-Books amount xs ys room s books =
      let both = total-append amount xs ys in
      fewer-Books e uc view laws runtime_laws name parent (total amount (xs ++ ys) + room)
        (total amount xs + (total amount ys + room)) s (omega (arith, both)) books

  streams-Ended :
      (amount : XMessage Body → ℕ) (read : List (List (XMessage Body))) (room : ℕ) (s : S)
      → All (λ msg. Asks (amount msg) msg) (entries_of read)
      → HasBooks (total amount (entries_of read) + room) s
      → KeepsBooks room (consume_streams client codec messages tokens (wallet_handler uc) a read s)
  streams-Ended amount [] room s asks books =
      idle-Ended e uc view laws runtime_laws name parent room s books
  streams-Ended amount (entries ∷ rest) room s asks books =
      let later = total amount (entries_of rest) + room in
      let (asks_now, asks_later) =
        All-split (λ msg. Asks (amount msg) msg) entries (entries_of rest) asks in
      then-Ended e uc view laws runtime_laws name parent later room
        (λ _. consume_streams client codec messages tokens (wallet_handler uc) a rest) _
        (omega arith)
        (entries-Ended amount entries later s asks_now
          (part-Books amount entries (entries_of rest) room s books))
        (λ _ s' books'. streams-Ended amount rest room s' asks_later books')

  -- The Redis consumer over the wallet, with a stream and lists that keep no documents: let the
  -- entries ask for whole positive numbers of units, where they hold a message that can be read.
  -- After any sequence of reads, with any entries in each, the books of every member that had room
  -- for their total are kept; also when a handler panics.
  pub redis_consume_messages-Ledger :
      (amount : XMessage Body → ℕ) (reads : List (Read Body)) (room : ℕ) (s : S)
      → All (λ msg. Asks (amount msg) msg) (read_entries reads)
      → HasBooks (total amount (read_entries reads) + room) s
      → Ends
          (λ _ s'. HasBooks room s')
          (λ _ s'. ⊥)
          (λ s'. HasBooks room s')
          (consume_messages client codec messages tokens (wallet_handler uc) a reads s)
  unfolding consume_messages
  redis_consume_messages-Ledger amount [] room s asks books =
      idle-Ended e uc view laws runtime_laws name parent room s books
  redis_consume_messages-Ledger amount (nothing_read ∷ rest) room s asks books =
      redis_consume_messages-Ledger amount rest room s asks books
  redis_consume_messages-Ledger amount (read_failed _ ∷ rest) room s asks books =
      redis_consume_messages-Ledger amount rest room s asks books
  redis_consume_messages-Ledger amount (streams entries ∷ rest) room s asks books =
      let later = total amount (read_entries rest) + room in
      let (asks_now, asks_later) =
        All-split (λ msg. Asks (amount msg) msg) (entries_of entries) (read_entries rest) asks in
      then-Ended e uc view laws runtime_laws name parent later room
        (λ _. consume_messages client codec messages tokens (wallet_handler uc) a rest) _
        (omega arith)
        (streams-Ended amount entries later s asks_now
          (part-Books amount (entries_of entries) (read_entries rest) room s books))
        (λ _ s' books'. redis_consume_messages-Ledger amount rest room s' asks_later books')
