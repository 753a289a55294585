-- ===== src/Queue/Rabbitmq/Consumer.antt =====
-- The consumer's side of the RabbitMQ adapter: handling a delivery, replying and acknowledging.
use hexagonal_queue.Prelude.{String, not, List, [], ◌∷◌, Result, ok, err, str_eq, if◌then◌else◌}
use hexagonal_queue.Platform.{Platform}
use hexagonal_queue.Models.{TransactionRequest, TransactionResponse}
use hexagonal_queue.Flow.{Flow, next, reply, panic, Action, response, and_then}
use hexagonal_queue.Queue.Amqp.{Publishing, Delivery, Amqp}
use hexagonal_queue.Queue.{Codec, Tokens, TransactionHandler, dispatch}

module _ {p : Platform} {S Body : Type 0} (amqp : Amqp S Body) (codec : Codec p Body)
    (tokens : Tokens S) where
  abbrev pub reply_publishing : Delivery Body → Body → Publishing Body
  reply_publishing msg body = record {
    kind = "";
    correlation_id = msg.correlation_id;
    reply_to = "";
    body = body;
    expiration = "";
  }

  abbrev pub send_body : Delivery Body → Result Body → S → S
  send_body msg (err e) s = s
  send_body msg (ok body) s = (amqp.publish "" msg.reply_to (reply_publishing msg body) s).1

  -- Failures are only logged.
  unfoldable pub send_response : Delivery Body → TransactionResponse p → S → S
  send_response msg r s = send_body msg (codec.marshal_response r) s

  unfoldable pub send_error_response : Delivery Body → String → S → S
  send_error_response msg error_msg = send_response msg (response 400 error_msg)

  -- `msg.Ack(false)`, whose error the code drops.
  abbrev pub acknowledged : Delivery Body → S → S
  acknowledged msg s = (amqp.ack msg s).1

  -- After the handler: the response, if one is wanted, then the acknowledgement. A panic of the
  -- handler is not recovered and ends here.
  abbrev pub replied : Delivery Body → Flow p (TransactionResponse p) × S → Flow p (Unit {0}) × S
  replied msg (next r, s) = (
    next tt,
    acknowledged msg (if not (str_eq msg.reply_to "") then send_response msg r s else s),
  )
  replied msg (reply r, s) = (
    next tt,
    acknowledged msg (if not (str_eq msg.reply_to "") then send_response msg r s else s),
  )
  replied msg (panic, s) = (panic, s)

  abbrev pub handle_body :
      {T : Type 0}
      → TransactionHandler p S T
      → Delivery Body
      → Result (TransactionRequest p)
      → Action p S (Unit {0})
  handle_body handler msg (err e) s =
      (next tt, acknowledged msg (send_error_response msg "Invalid message format" s))
  handle_body handler msg (ok request) s = replied msg (dispatch handler msg.kind request s)

  unfoldable pub handle_message :
      {T : Type 0} → TransactionHandler p S T → Delivery Body → Action p S (Unit {0})
  handle_message handler msg = handle_body handler msg (codec.unmarshal_request msg.body)

  -- The loop of the consumer's goroutine, until the channel of deliveries is closed.
  unfoldable pub consume_messages :
      {T : Type 0} → TransactionHandler p S T → List (Delivery Body) → Action p S (Unit {0})
  consume_messages handler [] s = (next tt, s)
  consume_messages handler (msg ∷ rest) s =
      and_then (handle_message handler msg s) (λ _. consume_messages handler rest)
