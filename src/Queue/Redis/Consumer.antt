-- ===== src/Queue/Redis/Consumer.antt =====
-- The consumer's side of the Redis adapter: handling an entry and replying to it.
use hexagonal_queue.Prelude.{
  String, not, Option, none, some, List, [], ◌∷◌, Result, ok, err, Error, str_eq, if◌then◌else◌,
}
use hexagonal_queue.Platform.{Platform}
use hexagonal_queue.Models.{TransactionResponse}
use hexagonal_queue.Flow.{Flow, next, reply, panic, Action, response, and_then}
use hexagonal_queue.Queue.{Codec, Tokens, TransactionHandler, dispatch}
use hexagonal_queue.Queue.Redis.{Message, MessageCodec, XMessage, RedisClient, RedisAdapter}

-- How `XReadGroup` ends: with `redis.Nil` or a cancellation, with another error, or with the entries of
-- each stream.
pub data Read (Body : Type 0) : Type 0 where
  nothing_read : Read Body
  read_failed : Error → Read Body
  streams : List (List (XMessage Body)) → Read Body

module _ {p : Platform} {S Body : Type 0} (client : RedisClient S Body) (codec : Codec p Body)
    (messages : MessageCodec p Body) (tokens : Tokens S) where
  abbrev pub push_body : String → Result Body → S → S
  push_body reply_to (err e) s = s
  push_body reply_to (ok body) s =
      (client.expire reply_to 300000000000 (client.right_push reply_to body s).1).1

  -- Failures are only logged.
  unfoldable pub send_response : String → TransactionResponse p → S → S
  send_response reply_to r s = push_body reply_to (codec.marshal_response r) s

  unfoldable pub send_error_response : String → String → S → S
  send_error_response reply_to error_msg s =
      if str_eq reply_to "" then s else send_response reply_to (response 400 error_msg) s

  abbrev pub replied : Message p → Flow p (TransactionResponse p) × S → Flow p (Unit {0}) × S
  replied message (next r, s) =
      (next tt, if not (str_eq message.reply_to "") then send_response message.reply_to r s else s)
  replied message (reply r, s) =
      (next tt, if not (str_eq message.reply_to "") then send_response message.reply_to r s else s)
  replied message (panic, s) = (panic, s)

  module _ {T : Type 0} (handler : TransactionHandler p S T) where
    abbrev pub handle_decoded : Option Error × Message p → Action p S (Unit {0})
    handle_decoded (some e, message) s =
        (next tt, send_error_response message.reply_to "Invalid message format" s)
    handle_decoded (none, message) s =
        replied message (dispatch handler message.kind message.request s)

    abbrev pub handle_field : Option Body → Action p S (Unit {0})
    handle_field none s = (next tt, s)
    handle_field (some body) s = handle_decoded (messages.unmarshal_message body) s

    unfoldable pub handle_message : XMessage Body → Action p S (Unit {0})
    handle_message msg = handle_field msg.message

    -- The loop over the entries that were read: each is handled, then acknowledged.
    unfoldable pub consume_entries : RedisAdapter → List (XMessage Body) → Action p S (Unit {0})
    consume_entries a [] s = (next tt, s)
    consume_entries a (msg ∷ rest) s = and_then (handle_message msg s) (λ _ s'.
        consume_entries a rest (client.ack a.config.queue_name a.config.consumer_group msg.id s'))

    abbrev pub consume_streams : RedisAdapter → List (List (XMessage Body)) → Action p S (Unit {0})
    consume_streams a [] s = (next tt, s)
    consume_streams a (entries ∷ rest) s =
        and_then (consume_entries a entries s) (λ _. consume_streams a rest)

    -- The consumer's loop, until its context ends: a read that brought nothing and one that failed are
    -- passed over, the second after a pause.
    unfoldable pub consume_messages : RedisAdapter → List (Read Body) → Action p S (Unit {0})
    consume_messages a [] s = (next tt, s)
    consume_messages a (nothing_read ∷ rest) s = consume_messages a rest s
    consume_messages a (read_failed e ∷ rest) s = consume_messages a rest s
    consume_messages a (streams entries ∷ rest) s =
        and_then (consume_streams a entries s) (λ _. consume_messages a rest)
