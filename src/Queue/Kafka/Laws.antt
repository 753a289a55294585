-- ===== src/Queue/Kafka/Laws.antt =====
-- A message is answered at most once, on the topic and under the id that it names.
use hexagonal_queue.Prelude.{
  String, ◌≡◌, refl, ◌∙◌, ◌⊎◌, inl, inr, Bool-cases, false, List, [], ◌∷◌, ◌++◌, Result, ok, err,
  str_eq, arith,
}
use hexagonal_queue.Platform.{Platform}
use hexagonal_queue.Models.{TransactionRequest, TransactionResponse}
use hexagonal_queue.Ports.{Context, background}
use hexagonal_queue.Flow.{Flow, next, reply, panic, response}
use hexagonal_queue.Queue.{Codec, Tokens, TransactionHandler, dispatch}
use hexagonal_queue.Queue.Topics.{KafkaMessage, KafkaWriter, KafkaClient}
use hexagonal_queue.Queue.Kafka.{KafkaAdapter, single_writer, header_value}
use hexagonal_queue.Queue.Kafka.Consumer.{
  reply_message, send_body, send_response, send_back, send_error_response, replied, handle_value,
  handle_message,
}

module _ {S Body : Type 0} (written : S → List (String × KafkaMessage Body)) where
  -- A writer adds the message to its topic or, on a failure, may not; closing it and the handlers
  -- write nothing.
  pub record KafkaLaws {p : Platform} {T : Type 0} (client : KafkaClient S Body)
      (handler : TransactionHandler p S T) : Type 0 where
    pub write_written :
        (w : KafkaWriter) (m : KafkaMessage Body) (s : S)
        → (written (client.write w m s).1 ≡ written s)
          ⊎ (written (client.write w m s).1 ≡ written s ++ ((w.topic, m) ∷ []))
    pub close_written : (w : KafkaWriter) (s : S) → written (client.close_writer w s).1 ≡ written s
    pub deposit_written :
        (c : Context T) (r : TransactionRequest p) (s : S)
        → written (handler.handle_deposit c r s).1 ≡ written s
    pub withdraw_written :
        (c : Context T) (r : TransactionRequest p) (s : S)
        → written (handler.handle_withdraw c r s).1 ≡ written s
    pub create_member_written :
        (c : Context T) (r : TransactionRequest p) (s : S)
        → written (handler.handle_create_member c r s).1 ≡ written s

  -- From `s` nothing was written, or one message, to a topic that the message names as its reply
  -- topic, and under its correlation id.
  pub data Written (msg : KafkaMessage Body) (s s' : S) : Type 0 where
    nothing : written s' ≡ written s → Written msg s s'
    one :
        (m : KafkaMessage Body)
        → written s' ≡ written s ++ ((header_value "reply_to" msg.headers, m) ∷ [])
        → str_eq (header_value "reply_to" msg.headers) "" ≡ false
        → header_value "correlation_id" m.headers ≡ header_value "correlation_id" msg.headers
        → Written msg s s'

  module _ {p : Platform} {T : Type 0} (client : KafkaClient S Body) (codec : Codec p Body)
      (tokens : Tokens S) (handler : TransactionHandler p S T) (laws : KafkaLaws client handler)
      (a : KafkaAdapter) where
    body-Written :
        (msg : KafkaMessage Body) (body : Result Body) (s : S)
        → str_eq (header_value "reply_to" msg.headers) "" ≡ false
        → Written msg s
            (send_body client codec tokens a msg (header_value "reply_to" msg.headers) body s)
    unfolding header_value
    body-Written msg (err e) s h = nothing refl
    body-Written msg (ok body) s h =
        let m = reply_message client codec tokens msg body in
        let w = single_writer a.config (header_value "reply_to" msg.headers) in
        let closed = laws.close_written w (client.write w m s).1 in
        elim (laws.write_written w m s) [
          | inl e ↦ nothing (closed ∙ e)
          | inr e ↦ one m (closed ∙ e) h refl
        ]

    back-Written :
        (msg : KafkaMessage Body) (r : TransactionResponse p) (s : S)
        → Written msg s (send_back client codec tokens a msg r s)
    unfolding send_response
    back-Written msg r s = elim (Bool-cases (str_eq (header_value "reply_to" msg.headers) "")) [
      | inl h ↦ rw h (nothing refl)
      | inr h ↦ rw h (body-Written msg (codec.marshal_response r) s h)
    ]

    from-Written :
        (msg : KafkaMessage Body) (s s' s'' : S)
        → written s' ≡ written s
        → Written msg s' s''
        → Written msg s s''
    from-Written msg s s' s'' same (nothing e) = nothing (e ∙ same)
    from-Written msg s s' s'' same (one m e h c) = one m (e ∙ rw same refl) h c

    replied-Written :
        (msg : KafkaMessage Body) (s : S) (x : Flow p (TransactionResponse p) × S)
        → written x.1 ≡ written s
        → Written msg s (replied client codec tokens a msg x).1
    replied-Written msg s (next r, s') q = from-Written msg s s' _ q (back-Written msg r s')
    replied-Written msg s (reply r, s') q = from-Written msg s s' _ q (back-Written msg r s')
    replied-Written msg s (panic, s') q = nothing q

    dispatch_written :
        (kind : String) (request : TransactionRequest p) (s : S)
        → written (dispatch handler kind request s).1 ≡ written s
    unfolding dispatch
    dispatch_written kind request s = ground (
      arith,
      laws.deposit_written background request s,
      laws.withdraw_written background request s,
      laws.create_member_written background request s,
    )

    value-Written :
        (msg : KafkaMessage Body) (value : Result (TransactionRequest p)) (s : S)
        → Written msg s (handle_value client codec tokens a handler msg value s).1
    unfolding send_error_response
    value-Written msg (err e) s = back-Written msg (response 400 "Invalid message format") s
    value-Written msg (ok request) s =
        replied-Written msg s (dispatch handler (header_value "type" msg.headers) request s)
          (dispatch_written (header_value "type" msg.headers) request s)

    -- The Kafka adapter, with handlers that write nothing: handling a message, well formed or not,
    -- writes nothing or one message, to the reply topic that the message names and under its
    -- correlation id.
    pub handle_message-Written :
        (msg : KafkaMessage Body) (s : S)
        → Written msg s (handle_message client codec tokens a handler msg s).1
    unfolding handle_message
    handle_message-Written msg s = value-Written msg (codec.unmarshal_request msg.value) s
