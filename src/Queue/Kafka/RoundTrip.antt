-- ===== src/Queue/Kafka/RoundTrip.antt =====
-- A request that a caller waits for, through the topics to the consumer and back.
use hexagonal_queue.Prelude.{
  String, ◌<>◌, ◌≡◌, false, List, ◌∷◌, ◌++◌, Option, ok, str_eq, All, Error,
}
use hexagonal_queue.Platform.{Platform}
use hexagonal_queue.Models.{TransactionRequest, TransactionResponse}
use hexagonal_queue.Utils.Text.{to_upper}
use hexagonal_queue.Flow.{next}
use hexagonal_queue.Queue.{Codec, CodecLaws, Tokens, TransactionHandler, dispatch}
use hexagonal_queue.Queue.Topics.{KafkaMessage, KafkaClient, response_case}
use hexagonal_queue.Queue.Kafka.{
  KafkaAdapter, setup_reader, single_writer, header_value, request_message,
}
use hexagonal_queue.Queue.Kafka.Consumer.{reply_message}

module _ {p : Platform} {S T Body : Type 0} (client : KafkaClient S Body) (codec : Codec p Body)
    (tokens : Tokens S) (laws : CodecLaws codec) (b : KafkaAdapter)
    (handler : TransactionHandler p S T) where
  -- What a consumer with the adapter `b` does after its handler: one message to a topic.
  abbrev replied_on : String → KafkaMessage Body → S → S
  replied_on topic m s =
      let w = single_writer b.config topic in (client.close_writer w (client.write w m s).1).1

  -- The message of the caller, and the message that the consumer answers it with.
  abbrev there : KafkaAdapter → TransactionRequest p → String → String → Body → KafkaMessage Body
  there a request correlation_id timestamp body =
      request_message client codec tokens request correlation_id
        (a.config.response_topic <> "-" <> correlation_id) timestamp body

  abbrev back :
      KafkaAdapter → TransactionRequest p → String → String → Body → Body → KafkaMessage Body
  back a request correlation_id timestamp body reply =
      reply_message client codec tokens (there a request correlation_id timestamp body) reply

  abbrev Other : String → KafkaMessage Body → Type 0
  Other correlation_id m = str_eq (header_value "correlation_id" m.headers) correlation_id ≡ false

  -- One run of topics that deliver: the calls of the caller succeed, from `s` to `s'`; the consumer's
  -- handler responds `r` to the message, from `t` to `t'`; what the consumer writes is fetched by the
  -- caller, between messages for others, and `select` takes it.
  pub record Trip (a : KafkaAdapter) (request : TransactionRequest p) (r : TransactionResponse p)
      (s s' t t' : S) : Type 0 where
    pub correlation_id : String
    pub timestamp : String
    pub body : Body
    pub reply : Body
    pub before : List (KafkaMessage Body)
    pub rest : List (KafkaMessage Body)
    pub stop : Option Error
    pub s₁ : S
    pub s₂ : S
    pub s₃ : S
    pub s₄ : S
    pub numbered : tokens.generate_transaction_id request.username s ≡ (correlation_id, s₁)
    pub stamped : tokens.unix_time s₁ ≡ (timestamp, s₂)
    pub named : str_eq (a.config.response_topic <> "-" <> correlation_id) "" ≡ false
    pub marshalled : codec.marshal_request request ≡ ok body
    pub written :
        client.write a.writer (there a request correlation_id timestamp body) (
          client.new_reader
            (setup_reader a.config (a.config.response_topic <> "-" <> correlation_id))
            s₂)
        ≡ (ok tt, s₃)
    pub handled : dispatch handler (to_upper p request.action) request t ≡ (next r, t')
    pub encoded : codec.marshal_response r ≡ ok reply
    pub others : All (Other correlation_id) before
    pub fetched :
        client.fetch_until
          (setup_reader a.config (a.config.response_topic <> "-" <> correlation_id))
          a.config.request_timeout
          s₃
        ≡ (
          record {
            messages = before ++ (back a request correlation_id timestamp body reply ∷ rest);
            stop = stop;
          },
          s₄,
        )
    pub chosen : client.select s₄ ≡ (response_case, s')
