-- ===== src/Scenarios/Queue.antt =====
-- A delivery to the RabbitMQ adapter, over a channel that records what it is told.
use hexagonal_queue.Prelude.{ℕ, refl, inr, false, List, [], ◌∷◌, ◌++◌, ok}
use hexagonal_queue.Prelude.Int.{pos}
use hexagonal_queue.Platform.Exact.{units}
use hexagonal_queue.Flow.{next, panic, response}
use hexagonal_queue.Queue.{Codec, Tokens, TransactionHandler}
use hexagonal_queue.Queue.Amqp.{Delivery, timed_out, Amqp}
use hexagonal_queue.Queue.Rabbitmq.Consumer.{handle_message}
use hexagonal_queue.Queue.Rabbitmq.Laws.{
  Event, sent, acked, AmqpLaws, QuietHandler, Handled, rabbit_handle_message,
}
use hexagonal_queue.Scenarios.Fixture.{request_of}

abbrev Broker : Type 0
Broker = List (Event ℕ)

abbrev broker : Amqp Broker ℕ
broker = record {
  dial = λ _ s. (ok tt, s);
  open_channel = λ s. (ok tt, s);
  qos = λ _ s. (ok tt, s);
  queue_declare = λ name _ s. (ok name, s);
  consume = λ _ _ _ s. (ok tt, s);
  cancel = λ _ s. (ok tt, s);
  publish = λ _ key m s. (ok tt, s ++ (sent key m ∷ []));
  ack = λ msg s. (ok tt, s ++ (acked msg.tag ∷ []));
  await = λ _ _ s. (timed_out, s);
  close_channel = λ s. (ok tt, s);
  close_connection = λ s. (ok tt, s);
  connection_is_closed = λ _. false;
}

abbrev seen : Broker → List (Event ℕ)
seen s = s

abbrev broker_laws : AmqpLaws seen broker
broker_laws = record {
  ack_ok = λ msg s h. refl;
  ack_either = λ msg s. inr refl;
  publish_either = λ exchange key m s. inr refl;
}

-- A body is the status of a response.
abbrev codec : Codec units ℕ
codec = record {
  marshal_request = λ r. ok 0;
  unmarshal_request = λ _. ok (request_of (pos 30));
  marshal_response = λ r. ok r.status;
  unmarshal_response = λ n. ok (response n "");
}

abbrev tokens : Tokens Broker
tokens = record {
  generate_transaction_id = λ name s. (name, s);
  generate_uuid = λ s. ("0b6f", s);
  unix_time = λ s. ("0", s);
}

abbrev handler : TransactionHandler units Broker (Unit {0})
handler = record {
  handle_deposit = λ c r s. (next (response 200 "Deposit successful"), s);
  handle_withdraw = λ c r s. (next (response 200 "Withdraw successful"), s);
  handle_create_member = λ c r s. (panic, s);
}

abbrev quiet : QuietHandler seen handler
quiet = record { deposit = λ c r s. refl; withdraw = λ c r s. refl; create_member = λ c r s. refl }

abbrev first : Delivery ℕ
first = record { tag = 1; kind = "deposit"; correlation_id = "c1"; reply_to = "q1"; body = 0 }

abbrev idle : Broker
idle = []

rabbit_handle_message_example :
    Handled seen broker first idle (handle_message broker codec tokens handler first idle)
rabbit_handle_message_example =
    rabbit_handle_message seen broker codec tokens broker_laws handler quiet first idle
