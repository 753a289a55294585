-- ===== src/Queue/Rabbitmq/RoundTrip.antt =====
-- A request that a caller waits for, through the broker to the consumer and back.
use hexagonal_queue.Prelude.{String, ◌<>◌, ◌≡◌, refl, ◌∙◌, true, false, ok, str_eq, str_eq_refl, ap}
use hexagonal_queue.Platform.{Platform}
use hexagonal_queue.Models.{TransactionRequest, TransactionResponse}
use hexagonal_queue.Flow.{next}
use hexagonal_queue.Queue.{
  Codec, Tokens, TransactionHandler, dispatch, to_upper, CodecLaws, received,
}
use hexagonal_queue.Queue.Amqp.{Publishing, Delivery, Awaited, delivered, Amqp, QueueOptions}
use hexagonal_queue.Queue.Rabbitmq.{
  Adapter, request_and_wait, request_publishing, answer, publish_transaction,
}
use hexagonal_queue.Queue.Rabbitmq.Consumer.{
  reply_publishing, handle_message, handle_body, replied, send_response,
}

-- The delivery brings the message.
pub record Carries {Body : Type 0} (d : Delivery Body) (m : Publishing Body) : Type 0 where
  pub kind : d.kind ≡ m.kind
  pub correlation_id : d.correlation_id ≡ m.correlation_id
  pub reply_to : d.reply_to ≡ m.reply_to
  pub body : d.body ≡ m.body

abbrev private_queue : QueueOptions
private_queue = record { durable = false; auto_delete = true; exclusive = true }

module _ {p : Platform} {S T Body : Type 0} (amqp : Amqp S Body) (codec : Codec p Body)
    (tokens : Tokens S) (laws : CodecLaws codec) (handler : TransactionHandler p S T) where
  -- One run of a broker that delivers: the calls of the caller succeed, from `s` to `s'`; the message
  -- comes to the consumer, whose handler responds `r`, from `t` to `t'`; the reply comes back.
  pub record Trip (a : Adapter) (request : TransactionRequest p) (r : TransactionResponse p)
      (s s' t t' : S) : Type 0 where
    pub queue : String
    pub uuid : String
    pub corr_id : String
    pub body : Body
    pub reply : Body
    pub there : Delivery Body
    pub back : Delivery Body
    pub s₁ : S
    pub s₂ : S
    pub s₃ : S
    pub s₄ : S
    pub s₅ : S
    pub declared : amqp.queue_declare "" private_queue s ≡ (ok queue, s₁)
    pub named : str_eq queue "" ≡ false
    pub drawn : tokens.generate_uuid s₁ ≡ (uuid, s₂)
    pub registered : amqp.consume queue ("temp-consumer-" <> uuid) true s₂ ≡ (ok tt, s₃)
    pub numbered : tokens.generate_transaction_id request.username s₃ ≡ (corr_id, s₄)
    pub marshalled : codec.marshal_request request ≡ ok body
    pub published :
        amqp.publish a.config.exchange a.config.routing_key
          (request_publishing amqp codec tokens request queue corr_id body)
          s₄
        ≡ (ok tt, s₅)
    pub brought : Carries there (request_publishing amqp codec tokens request queue corr_id body)
    pub handled : dispatch handler (to_upper p request.action) request t ≡ (next r, t')
    pub encoded : codec.marshal_response r ≡ ok reply
    pub returned : Carries back (reply_publishing amqp codec tokens there reply)
    pub awaited :
        amqp.await ("temp-consumer-" <> uuid) a.config.request_timeout s₅ ≡ (delivered back, s')

  -- The consumer's side.
  sent :
      (d : Delivery Body) (r : TransactionResponse p) (reply : Body) (s : S)
      → str_eq d.reply_to "" ≡ false
      → codec.marshal_response r ≡ ok reply
      → replied amqp codec tokens d (next r, s) ≡ (
        next tt,
        (amqp.ack d
            (amqp.publish "" d.reply_to (reply_publishing amqp codec tokens d reply) s).1).1,
      )
  unfolding send_response
  sent d r reply s named encoded = rw (named, encoded) refl

  served :
      (d : Delivery Body) (m : Publishing Body) (request : TransactionRequest p) (reply : Body)
      (s s' : S) (r : TransactionResponse p)
      → Carries d m
      → codec.unmarshal_request m.body ≡ ok request
      → str_eq m.reply_to "" ≡ false
      → dispatch handler m.kind request s ≡ (next r, s')
      → codec.marshal_response r ≡ ok reply
      → handle_message amqp codec tokens handler d s ≡ (
        next tt,
        (amqp.ack d
            (amqp.publish "" d.reply_to (reply_publishing amqp codec tokens d reply) s').1).1,
      )
  unfolding handle_message
  served d m request reply s s' r carried read named handled encoded =
      ap (λ x. handle_body amqp codec tokens handler d x s)
        (ap codec.unmarshal_request carried.body ∙ read)
      ∙ ap (replied amqp codec tokens d)
          (ap (λ k. dispatch handler k request s) carried.kind ∙ handled)
      ∙ sent d r reply s' (ap (λ k. str_eq k "") carried.reply_to ∙ named) encoded

  -- The caller's side.
  answered :
      (d : Delivery Body) (corr_id : String) (r : TransactionResponse p)
      → d.correlation_id ≡ corr_id
      → codec.unmarshal_response d.body ≡ ok r
      → answer amqp codec tokens corr_id (delivered d) ≡ ok r
  answered d corr_id r same read = rw (same, str_eq_refl corr_id, read) refl

  waited :
      (a : Adapter) (request : TransactionRequest p) (queue tag corr_id : String) (body : Body)
      (awaited : Awaited Body) (r : TransactionResponse p) (s s₁ s₂ : S)
      → codec.marshal_request request ≡ ok body
      → amqp.publish a.config.exchange a.config.routing_key
          (request_publishing amqp codec tokens request queue corr_id body)
          s
        ≡ (ok tt, s₁)
      → amqp.await tag a.config.request_timeout s₁ ≡ (awaited, s₂)
      → answer amqp codec tokens corr_id awaited ≡ ok r
      → request_and_wait amqp codec tokens a request queue tag corr_id s ≡ (ok r, s₂)
  unfolding request_and_wait
  waited a request queue tag corr_id body awaited r s s₁ s₂ marshalled published came read =
      rw (marshalled, published, came, read) refl

  -- With a codec that reads back what it writes, on a run of a broker that delivers, an adapter that
  -- is not closed and the consumer do a remote call: the consumer handles the caller's request, sends
  -- one message to the caller's queue and then acknowledges the delivery, and PublishTransaction
  -- returns the status and the message of the handler's response, with its data as JSON reads it back
  -- into an interface, after cancelling its temporary consumer.
  pub publish_transaction_round_trip :
      (a : Adapter) (request : TransactionRequest p) (r : TransactionResponse p) (s s' t t' : S)
      → a.closed ≡ false
      → (trip : Trip a request r s s' t t')
      → (handle_message amqp codec tokens handler trip.there t ≡ (
        next tt,
        (amqp.ack trip.there
            (amqp.publish "" trip.queue
              (reply_publishing amqp codec tokens trip.there trip.reply)
              t').1).1,
      ))
        × (publish_transaction amqp codec tokens a request s
            ≡ (ok (received laws r), (amqp.cancel ("temp-consumer-" <> trip.uuid) s').1))
  unfolding publish_transaction
  publish_transaction_round_trip a request r s s' t t' live trip =
      let read = laws.request_back request trip.body trip.marshalled in
      let back = laws.response_back r trip.reply trip.encoded in
      (
        served trip.there _ request trip.reply t t' r trip.brought read trip.named trip.handled
              trip.encoded
            ∙ ap
                (λ k. (
                  next tt,
                  (amqp.ack trip.there
                      (amqp.publish "" k (reply_publishing amqp codec tokens trip.there trip.reply)
                        t').1).1,
                ))
                trip.brought.reply_to,
        rw
            (
              live,
              trip.declared,
              trip.drawn,
              trip.registered,
              trip.numbered,
              waited (record a { closed = false }) request trip.queue
                  ("temp-consumer-" <> trip.uuid) trip.corr_id trip.body (delivered trip.back)
                  (received laws r) trip.s₄ trip.s₅ s' trip.marshalled trip.published trip.awaited
                  (answered trip.back trip.corr_id (received laws r)
                    (trip.returned.correlation_id ∙ trip.brought.correlation_id)
                    (ap codec.unmarshal_response trip.returned.body ∙ back)),
            )
            refl,
      )
