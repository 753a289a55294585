-- ===== src/Queue/Rabbitmq/Laws.antt =====
-- A delivery is answered, if at all, before it is acknowledged.
use hexagonal_queue.Prelude.{
  ℕ, String, ◌≡◌, refl, ◌⊎◌, inl, inr, Bool, true, false, List, [], ◌∷◌, ◌++◌, Result, ok, err,
  if◌then◌else◌, arith, Error, Result-cases,
}
use hexagonal_queue.Platform.{Platform}
use hexagonal_queue.Models.{TransactionRequest, TransactionResponse}
use hexagonal_queue.Ports.{Context, background}
use hexagonal_queue.Flow.{Flow, next, reply, panic, response}
use hexagonal_queue.Queue.{Codec, Tokens, TransactionHandler, dispatch}
use hexagonal_queue.Queue.Amqp.{Publishing, Delivery, Amqp}
use hexagonal_queue.Queue.Rabbitmq.Consumer.{
  handle_message, handle_body, replied, send_response, send_error_response, send_body,
  reply_publishing, acknowledged,
}

-- What a broker sees, in its order: a message, with its routing key, or the acknowledgement of a
-- delivery.
pub data Event (Body : Type 0) : Type 0 where
  sent : String → Publishing Body → Event Body
  acked : ℕ → Event Body

module _ {S Body : Type 0} (events : S → List (Event Body)) where
  pub record AmqpLaws (amqp : Amqp S Body) : Type 0 where
    pub ack_ok :
        (msg : Delivery Body) (s : S)
        → (amqp.ack msg s).0 ≡ ok tt
        → events (amqp.ack msg s).1 ≡ events s ++ (acked msg.tag ∷ [])
    -- an acknowledgement or a publishing that failed may be at the broker all the same
    pub ack_either :
        (msg : Delivery Body) (s : S)
        → (events (amqp.ack msg s).1 ≡ events s)
          ⊎ (events (amqp.ack msg s).1 ≡ events s ++ (acked msg.tag ∷ []))
    pub publish_either :
        (exchange key : String) (m : Publishing Body) (s : S)
        → (events (amqp.publish exchange key m s).1 ≡ events s)
          ⊎ (events (amqp.publish exchange key m s).1 ≡ events s ++ (sent key m ∷ []))

  abbrev pub Quiet : {A : Type 0} → S → A × S → Type 0
  Quiet s x = events x.1 ≡ events s

  -- The handler does not use the channel of the adapter.
  pub record QuietHandler {p : Platform} {T : Type 0} (handler : TransactionHandler p S T)
      : Type 0 where
    pub deposit :
        (c : Context T) (r : TransactionRequest p) (s : S) → Quiet s (handler.handle_deposit c r s)
    pub withdraw :
        (c : Context T) (r : TransactionRequest p) (s : S) → Quiet s (handler.handle_withdraw c r s)
    pub create_member :
        (c : Context T) (r : TransactionRequest p) (s : S)
        → Quiet s (handler.handle_create_member c r s)

  -- From `s` to `s'` nothing was sent, or one message to where the sender waits, under its id.
  abbrev pub Replied : Delivery Body → S → S → Type 0
  Replied msg s s' =
      (events s' ≡ events s)
      ⊎ ((m : Publishing Body) × (events s' ≡ events s ++ (sent msg.reply_to m ∷ []))
          × (m.correlation_id ≡ msg.correlation_id))

  -- From `s` the acknowledgement of the delivery succeeded, and is the next event; or it failed, and
  -- may be the next event all the same.
  abbrev pub Acknowledged : Amqp S Body → Delivery Body → S → S → Type 0
  Acknowledged amqp msg s s' =
      (((amqp.ack msg s).0 ≡ ok tt) × (events s' ≡ events s ++ (acked msg.tag ∷ [])))
      ⊎ ((e : Error) × ((amqp.ack msg s).0 ≡ err e)
          × ((events s' ≡ events s) ⊎ (events s' ≡ events s ++ (acked msg.tag ∷ []))))

  -- From `s` the delivery was lost to a panic, with nothing sent or acknowledged; or after a reply, or
  -- none, came the acknowledgement, as the last call.
  pub data Handled {p : Platform} (amqp : Amqp S Body) (msg : Delivery Body) (s : S)
      (x : Flow p (Unit {0}) × S) : Type 0 where
    lost : x.0 ≡ panic → Quiet s x → Handled amqp msg s x
    finished :
        (s' : S)
        → Replied msg s s'
        → x ≡ (next tt, (amqp.ack msg s').1)
        → Acknowledged amqp msg s' x.1
        → Handled amqp msg s x

  module _ {p : Platform} (amqp : Amqp S Body) (codec : Codec p Body) (tokens : Tokens S)
      (laws : AmqpLaws amqp) where
    ack-Acknowledged : (msg : Delivery Body) (s : S) → Acknowledged amqp msg s (amqp.ack msg s).1
    ack-Acknowledged msg s = elim (Result-cases (amqp.ack msg s).0) [
      | inl (tt, h) ↦ inl (h, laws.ack_ok msg s h)
      | inr (e, h) ↦ inr (e, h, laws.ack_either msg s)
    ]

    send_body-Replied :
        (msg : Delivery Body) (body : Result Body) (s : S)
        → Replied msg s (send_body amqp codec tokens msg body s)
    send_body-Replied msg (err e) s = inl refl
    send_body-Replied msg (ok body) s =
        let m = reply_publishing amqp codec tokens msg body in
        elim (laws.publish_either "" msg.reply_to m s) [ inl h ↦ inl h | inr h ↦ inr (m, h, refl) ]

    send_response-Replied :
        (msg : Delivery Body) (r : TransactionResponse p) (s : S)
        → Replied msg s (send_response amqp codec tokens msg r s)
    unfolding send_response
    send_response-Replied msg r s = send_body-Replied msg (codec.marshal_response r) s

    if-Replied :
        (msg : Delivery Body) (b : Bool) (s s' : S)
        → Replied msg s s'
        → Replied msg s (if b then s' else s)
    if-Replied msg true s s' h = h
    if-Replied msg false s s' h = inl refl

    acknowledged-Handled :
        (msg : Delivery Body) (s s' : S)
        → Replied msg s s'
        → Handled {p = p} amqp msg s (next tt, acknowledged amqp codec tokens msg s')
    acknowledged-Handled msg s s' h = finished s' h refl (ack-Acknowledged msg s')

    moved :
        (msg : Delivery Body) (s s' s'' : S)
        → Quiet s (tt, s')
        → Replied msg s' s''
        → Replied msg s s''
    moved msg s s' s'' quiet h = rw (← quiet) h

    replied-Handled :
        (msg : Delivery Body) (s : S) (x : Flow p (TransactionResponse p) × S)
        → Quiet s x
        → Handled amqp msg s (replied amqp codec tokens msg x)
    replied-Handled msg s (next r, s') q =
        acknowledged-Handled msg s _
          (moved msg s s' _ q (if-Replied msg _ s' _ (send_response-Replied msg r s')))
    replied-Handled msg s (reply r, s') q =
        acknowledged-Handled msg s _
          (moved msg s s' _ q (if-Replied msg _ s' _ (send_response-Replied msg r s')))
    replied-Handled msg s (panic, s') q = lost refl q

    module _ {T : Type 0} (handler : TransactionHandler p S T) (quiet : QuietHandler handler) where
      dispatch-Quiet :
          (kind : String) (request : TransactionRequest p) (s : S)
          → Quiet s (dispatch handler kind request s)
      unfolding dispatch
      dispatch-Quiet kind request s = ground (
        arith,
        quiet.deposit background request s,
        quiet.withdraw background request s,
        quiet.create_member background request s,
      )

      body-Handled :
          (msg : Delivery Body) (body : Result (TransactionRequest p)) (s : S)
          → Handled amqp msg s (handle_body amqp codec tokens handler msg body s)
      unfolding send_error_response
      body-Handled msg (err e) s =
          acknowledged-Handled msg s _
            (send_response-Replied msg (response 400 "Invalid message format") s)
      body-Handled msg (ok request) s =
          replied-Handled msg s (dispatch handler msg.kind request s)
            (dispatch-Quiet msg.kind request s)

      -- The RabbitMQ adapter, with a handler that leaves the channel alone: for each delivery it sends
      -- nothing, or one message to its reply queue under its correlation id, and only then, as its last
      -- call, acknowledges it, once; the broker sees the acknowledgement if that call succeeds, and may
      -- or may not see it if the call fails. Or the handler panicked, and nothing was sent or
      -- acknowledged.
      pub rabbit_handle_message :
          (msg : Delivery Body) (s : S)
          → Handled amqp msg s (handle_message amqp codec tokens handler msg s)
      unfolding handle_message
      rabbit_handle_message msg s = body-Handled msg (codec.unmarshal_request msg.body) s
