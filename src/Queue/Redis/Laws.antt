-- ===== src/Queue/Redis/Laws.antt =====
-- An entry of the stream is answered at most once, on the list that its message names.
use hexagonal_queue.Prelude.{
  ℕ, String, ◌≡◌, refl, ◌∙◌, ◌⊎◌, inl, inr, Bool-cases, false, not, Option, none, some, List, [],
  ◌∷◌, ◌++◌, Result, ok, err, Error, str_eq, if◌then◌else◌, arith,
}
use hexagonal_queue.Platform.{Platform}
use hexagonal_queue.Models.{TransactionRequest, TransactionResponse}
use hexagonal_queue.Ports.{Context, background}
use hexagonal_queue.Flow.{Flow, next, reply, panic, response}
use hexagonal_queue.Queue.{Codec, Tokens, TransactionHandler, dispatch}
use hexagonal_queue.Queue.Redis.{Message, MessageCodec, XMessage, RedisClient}
use hexagonal_queue.Queue.Redis.Consumer.{
  push_body, send_response, send_error_response, replied, handle_decoded, handle_message,
}

module _ {S Body : Type 0} (pushed : S → List (String × Body)) where
  -- A push adds the value or, on a failure, may not; an expiry and the handlers push nothing.
  pub record RedisLaws {p : Platform} {T : Type 0} (client : RedisClient S Body)
      (handler : TransactionHandler p S T) : Type 0 where
    pub push_pushed :
        (key : String) (b : Body) (s : S)
        → (pushed (client.right_push key b s).1 ≡ pushed s)
          ⊎ (pushed (client.right_push key b s).1 ≡ pushed s ++ ((key, b) ∷ []))
    pub expire_pushed :
        (key : String) (time : ℕ) (s : S) → pushed (client.expire key time s).1 ≡ pushed s
    pub deposit_pushed :
        (c : Context T) (r : TransactionRequest p) (s : S)
        → pushed (handler.handle_deposit c r s).1 ≡ pushed s
    pub withdraw_pushed :
        (c : Context T) (r : TransactionRequest p) (s : S)
        → pushed (handler.handle_withdraw c r s).1 ≡ pushed s
    pub create_member_pushed :
        (c : Context T) (r : TransactionRequest p) (s : S)
        → pushed (handler.handle_create_member c r s).1 ≡ pushed s

  -- From `s` nothing was pushed, or one encoded response, to the list named `reply_to`.
  pub data Pushed {p : Platform} (codec : Codec p Body) (reply_to : String) (s s' : S)
      : Type 0 where
    nothing : pushed s' ≡ pushed s → Pushed codec reply_to s s'
    one :
        (r : TransactionResponse p) (b : Body)
        → codec.marshal_response r ≡ ok b
        → pushed s' ≡ pushed s ++ ((reply_to, b) ∷ [])
        → str_eq reply_to "" ≡ false
        → Pushed codec reply_to s s'

  module _ {p : Platform} {T : Type 0} (client : RedisClient S Body) (codec : Codec p Body)
      (messages : MessageCodec p Body) (tokens : Tokens S) (handler : TransactionHandler p S T)
      (laws : RedisLaws client handler) where
    body-Pushed :
        (reply_to : String) (r : TransactionResponse p) (body : Result Body) (s : S)
        → codec.marshal_response r ≡ body
        → str_eq reply_to "" ≡ false
        → Pushed codec reply_to s (push_body client codec messages tokens reply_to body s)
    body-Pushed reply_to r (err e) s m h = nothing refl
    body-Pushed reply_to r (ok b) s m h =
        let kept = laws.expire_pushed reply_to 300000000000 (client.right_push reply_to b s).1 in
        elim (laws.push_pushed reply_to b s) [
          | inl e ↦ nothing (kept ∙ e)
          | inr e ↦ one r b m (kept ∙ e) h
        ]

    response-Pushed :
        (reply_to : String) (r : TransactionResponse p) (s : S)
        → str_eq reply_to "" ≡ false
        → Pushed codec reply_to s (send_response client codec messages tokens reply_to r s)
    unfolding send_response
    response-Pushed reply_to r s h = body-Pushed reply_to r (codec.marshal_response r) s refl h

    from-Pushed :
        (reply_to : String) (s s' s'' : S)
        → pushed s' ≡ pushed s
        → Pushed codec reply_to s' s''
        → Pushed codec reply_to s s''
    from-Pushed reply_to s s' s'' same (nothing e) = nothing (e ∙ same)
    from-Pushed reply_to s s' s'' same (one r b m e h) = one r b m (e ∙ rw same refl) h

    if-Pushed :
        (reply_to : String) (r : TransactionResponse p) (s s' : S)
        → pushed s' ≡ pushed s
        → Pushed codec reply_to s (
            if not (str_eq reply_to "")
            then send_response client codec messages tokens reply_to r s'
            else s')
    if-Pushed reply_to r s s' same = elim (Bool-cases (str_eq reply_to "")) [
      | inl h ↦ rw h (nothing same)
      | inr h ↦ rw h (from-Pushed reply_to s s' _ same (response-Pushed reply_to r s' h))
    ]

    error-Pushed :
        (reply_to message : String) (s : S)
        → Pushed codec reply_to s
            (send_error_response client codec messages tokens reply_to message s)
    unfolding send_error_response
    error-Pushed reply_to message s = elim (Bool-cases (str_eq reply_to "")) [
      | inl h ↦ rw h (nothing refl)
      | inr h ↦ rw h (response-Pushed reply_to (response 400 message) s h)
    ]

    replied-Pushed :
        (message : Message p) (s : S) (x : Flow p (TransactionResponse p) × S)
        → pushed x.1 ≡ pushed s
        → Pushed codec message.reply_to s (replied client codec messages tokens message x).1
    replied-Pushed message s (next r, s') q = if-Pushed message.reply_to r s s' q
    replied-Pushed message s (reply r, s') q = if-Pushed message.reply_to r s s' q
    replied-Pushed message s (panic, s') q = nothing q

    dispatch_pushed :
        (kind : String) (request : TransactionRequest p) (s : S)
        → pushed (dispatch handler kind request s).1 ≡ pushed s
    unfolding dispatch
    dispatch_pushed kind request s = ground (
      arith,
      laws.deposit_pushed background request s,
      laws.withdraw_pushed background request s,
      laws.create_member_pushed background request s,
    )

    decoded-Pushed :
        (d : Option Error × Message p) (s : S)
        → Pushed codec d.1.reply_to s (handle_decoded client codec messages tokens handler d s).1
    decoded-Pushed (some e, message) s = error-Pushed message.reply_to "Invalid message format" s
    decoded-Pushed (none, message) s =
        replied-Pushed message s (dispatch handler message.kind message.request s)
          (dispatch_pushed message.kind message.request s)

    -- The Redis adapter, with handlers that push nothing: an entry with the text of a message pushes
    -- nothing or one encoded response, to the list that the message names, well formed or not.
    pub handle_message-Pushed :
        (msg : XMessage Body) (body : Body) (s : S)
        → msg.message ≡ some body
        → Pushed codec
            (messages.unmarshal_message body).1.reply_to
            s
            (handle_message client codec messages tokens handler msg s).1
    unfolding handle_message
    handle_message-Pushed msg body s has =
        rw has (decoded-Pushed (messages.unmarshal_message body) s)
