-- ===== src/Queue/Kafka/Consumer.antt =====
-- The consumer's side of the Kafka adapter: handling a message and replying to it.
use hexagonal_queue.Prelude.{String, not, List, [], ◌∷◌, Result, ok, err, str_eq, if◌then◌else◌}
use hexagonal_queue.Platform.{Platform}
use hexagonal_queue.Models.{TransactionRequest, TransactionResponse}
use hexagonal_queue.Flow.{Flow, next, reply, panic, Action, response, and_then}
use hexagonal_queue.Queue.Topics.{KafkaMessage, KafkaReader, KafkaClient}
use hexagonal_queue.Queue.{Codec, Tokens, TransactionHandler, dispatch}
use hexagonal_queue.Queue.Kafka.{KafkaAdapter, single_writer, header, header_value}

module _ {p : Platform} {S Body : Type 0} (client : KafkaClient S Body) (codec : Codec p Body)
    (tokens : Tokens S) where
  abbrev pub reply_message : KafkaMessage Body → Body → KafkaMessage Body
  reply_message original_msg body = record {
    key = "";
    value = body;
    headers =
        header client codec tokens "correlation_id"
          (header_value "correlation_id" original_msg.headers)
        ∷ [];
  }

  module _ (a : KafkaAdapter) where
    abbrev pub send_body : KafkaMessage Body → String → Result Body → S → S
    send_body original_msg reply_topic (err e) s = s
    send_body original_msg reply_topic (ok body) s =
        let writer = single_writer a.config reply_topic in
        (client.close_writer writer (client.write writer (reply_message original_msg body) s).1).1

    -- Failures are only logged.
    unfoldable pub send_response : KafkaMessage Body → String → TransactionResponse p → S → S
    send_response original_msg reply_topic r s =
        send_body original_msg reply_topic (codec.marshal_response r) s

    -- The response, if the message says where to.
    abbrev pub send_back : KafkaMessage Body → TransactionResponse p → S → S
    send_back msg r s =
        let reply_to = header_value "reply_to" msg.headers in
        if not (str_eq reply_to "") then send_response msg reply_to r s else s

    unfoldable pub send_error_response : KafkaMessage Body → String → S → S
    send_error_response original_msg error_msg = send_back original_msg (response 400 error_msg)

    abbrev pub replied :
        KafkaMessage Body → Flow p (TransactionResponse p) × S → Flow p (Unit {0}) × S
    replied msg (next r, s) = (next tt, send_back msg r s)
    replied msg (reply r, s) = (next tt, send_back msg r s)
    replied msg (panic, s) = (panic, s)

    module _ {T : Type 0} (handler : TransactionHandler p S T) where
      abbrev pub handle_value :
          KafkaMessage Body → Result (TransactionRequest p) → Action p S (Unit {0})
      handle_value msg (err e) s = (next tt, send_error_response msg "Invalid message format" s)
      handle_value msg (ok request) s =
          replied msg (dispatch handler (header_value "type" msg.headers) request s)

      unfoldable pub handle_message : KafkaMessage Body → Action p S (Unit {0})
      handle_message msg = handle_value msg (codec.unmarshal_request msg.value)

      -- The consumer's loop over the messages that its reader fetches: each is handled, then
      -- committed, with a failure to commit only logged.
      unfoldable pub consume_messages :
          KafkaReader → List (KafkaMessage Body) → Action p S (Unit {0})
      consume_messages reader [] s = (next tt, s)
      consume_messages reader (msg ∷ rest) s =
          and_then (handle_message msg s)
            (λ _ s'. consume_messages reader rest (client.commit reader msg s').1)
