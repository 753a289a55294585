-- ===== src/Scenarios/KafkaTrip.antt =====
-- A deposit through Kafka topics that deliver it, and back, past a message for another caller.
use hexagonal_queue.Prelude.{String, refl, inl, inr, none, [], ◌∷◌, ok}
use hexagonal_queue.Platform.Exact.{units}
use hexagonal_queue.Utils.Text.{to_upper}
use hexagonal_queue.Queue.Topics.{KafkaMessage, response_case, KafkaClient}
use hexagonal_queue.Queue.Kafka
use hexagonal_queue.Queue.Kafka.Consumer
use hexagonal_queue.Queue.Kafka.RoundTrip as Topic
use hexagonal_queue.Scenarios.Codec.{
  Body, codec, codec_laws, Quiet, tokens, done, handler, request, handled,
}

abbrev asked : KafkaMessage Body
asked = record {
  key = "ann";
  value = inl request;
  headers =
      record { key = "correlation_id"; value = "c1" }
      ∷ record { key = "reply_to"; value = "wallet-responses-c1" }
      ∷ record { key = "type"; value = to_upper units "deposit" }
      ∷ record { key = "timestamp"; value = "0" }
      ∷ [];
}

-- A reply under a correlation id.
abbrev reply_to_id : String → KafkaMessage Body
reply_to_id id = record {
  key = "";
  value = inr done;
  headers = record { key = "correlation_id"; value = id } ∷ [];
}

abbrev pub client : KafkaClient Quiet Body
client = record {
  write = λ w m s. (ok tt, s);
  close_writer = λ w s. (ok tt, s);
  new_reader = λ reader s. s;
  fetch_until = λ reader time s.
      (record { messages = reply_to_id "c0" ∷ reply_to_id "c1" ∷ []; stop = none }, s);
  commit = λ reader m s. (ok tt, s);
  close_reader = λ reader s. (ok tt, s);
  select = λ s. (response_case, s);
  stop = λ reader s. s;
}

abbrev adapter : Kafka.KafkaAdapter
adapter = Kafka.new_kafka_adapter ("localhost:9092" ∷ [])

trip : Topic.Trip client codec tokens codec_laws adapter handler adapter request done tt tt tt tt
unfolding Kafka.header_value
trip = record {
  correlation_id = "c1";
  timestamp = "0";
  body = inl request;
  reply = inr done;
  before = reply_to_id "c0" ∷ [];
  rest = [];
  stop = none;
  s₁ = tt;
  s₂ = tt;
  s₃ = tt;
  s₄ = tt;
  numbered = refl;
  stamped = refl;
  named = refl;
  marshalled = refl;
  written = refl;
  handled = handled;
  encoded = refl;
  others = (refl, tt);
  fetched = refl;
  chosen = refl;
}
