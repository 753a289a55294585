-- ===== src/Scenarios/RabbitTrip.antt =====
-- A deposit through a RabbitMQ broker that delivers it, and back.
use hexagonal_queue.Prelude.{◌≡◌, refl, inl, inr, true, false, ok}
use hexagonal_queue.Platform.Exact.{units}
use hexagonal_queue.Utils.Text.{to_upper}
use hexagonal_queue.Flow.{next}
use hexagonal_queue.Queue.Amqp.{Delivery, delivered, Amqp}
use hexagonal_queue.Queue.{received}
use hexagonal_queue.Queue.Rabbitmq
use hexagonal_queue.Queue.Rabbitmq.Consumer as RabbitmqConsumer
use hexagonal_queue.Queue.Rabbitmq.RoundTrip as Rpc
use hexagonal_queue.Queue.Rabbitmq.RoundTrip.{publish_transaction_round_trip}
use hexagonal_queue.Scenarios.Codec.{
  Body, codec, codec_laws, Quiet, tokens, done, handler, request, handled,
}

abbrev there : Delivery Body
there = record {
  tag = 1;
  kind = to_upper units "deposit";
  correlation_id = "c1";
  reply_to = "q1";
  body = inl request;
}

abbrev back : Delivery Body
back = record { tag = 1; kind = ""; correlation_id = "c1"; reply_to = ""; body = inr done }

abbrev pub amqp : Amqp Quiet Body
amqp = record {
  dial = λ _ s. (ok tt, s);
  open_channel = λ s. (ok tt, s);
  qos = λ _ s. (ok tt, s);
  queue_declare = λ _ _ s. (ok "q1", s);
  consume = λ _ _ _ s. (ok tt, s);
  cancel = λ _ s. (ok tt, s);
  publish = λ _ _ _ s. (ok tt, s);
  ack = λ _ s. (ok tt, s);
  await = λ _ _ s. (delivered back, s);
  close_channel = λ s. (ok tt, s);
  close_connection = λ s. (ok tt, s);
  connection_is_closed = λ _. false;
}

abbrev pub adapter : Rabbitmq.Adapter
adapter = record {
  has_connection = true;
  has_channel = true;
  config = Rabbitmq.default_config "amqp://localhost";
  closed = false;
}

trip : Rpc.Trip amqp codec tokens codec_laws handler adapter request done tt tt tt tt
trip = record {
  queue = "q1";
  uuid = "0b6f";
  corr_id = "c1";
  body = inl request;
  reply = inr done;
  there = there;
  back = back;
  s₁ = tt;
  s₂ = tt;
  s₃ = tt;
  s₄ = tt;
  s₅ = tt;
  declared = refl;
  named = refl;
  drawn = refl;
  registered = refl;
  numbered = refl;
  marshalled = refl;
  published = refl;
  brought = record { kind = refl; correlation_id = refl; reply_to = refl; body = refl };
  handled = handled;
  encoded = refl;
  returned = record { kind = refl; correlation_id = refl; reply_to = refl; body = refl };
  awaited = refl;
}

publish_transaction_round_trip_example :
    (RabbitmqConsumer.handle_message amqp codec tokens handler there tt ≡ (next tt, tt))
    × (Rabbitmq.publish_transaction amqp codec tokens adapter request tt
        ≡ (ok (received codec_laws done), tt))
unfolding trip
publish_transaction_round_trip_example =
    publish_transaction_round_trip amqp codec tokens codec_laws handler adapter request done tt tt
      tt tt refl trip
