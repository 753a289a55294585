-- ===== src/Scenarios/Adapters.antt =====
-- A RabbitMQ adapter behind the queue port, closed.
use hexagonal_queue.Prelude.{ok, none}
use hexagonal_queue.Platform.Exact.{units}
use hexagonal_queue.Queue.Redis.{Message, MessageCodec, RedisClient, pop_timeout}
use hexagonal_queue.Queue.Adapters.{rabbitmq, port, close}
use hexagonal_queue.Queue.Adapters.Laws.{ClosedAdapter, close-ClosedAdapter}
use hexagonal_queue.Scenarios.Codec.{Body, codec, Quiet, tokens, done, request}
use hexagonal_queue.Scenarios.RabbitTrip.{amqp, adapter}
use hexagonal_queue.Scenarios.KafkaTrip.{client}
use hexagonal_queue.Prelude.{inr}

abbrev redis_client : RedisClient Quiet Body
redis_client = record {
  ping = λ s. (ok tt, s);
  init_stream = λ stream s. (ok tt, s);
  group_create = λ stream group s. (none, s);
  add = λ stream body s. (ok tt, s);
  blocking_pop = λ key time s. (pop_timeout, s);
  left_push = λ key body s. (ok tt, s);
  right_push = λ key body s. (ok tt, s);
  expire = λ key time s. (ok tt, s);
  ack = λ stream group id s. s;
  close = λ s. (ok tt, s);
  stop = λ s. s;
}

abbrev incoming : Message units
incoming = record {
  id = "c1";
  kind = "deposit";
  request = request;
  reply_to = "q1";
  correlation_id = "c1";
  timestamp = "0";
}

abbrev messages : MessageCodec units Body
messages = record {
  marshal_message = λ m. ok (inr done);
  unmarshal_message = λ b. (none, incoming);
}

close-ClosedAdapter_example :
    ClosedAdapter {T = Unit {0}}
      (port amqp client redis_client codec messages tokens)
      (close amqp client redis_client codec messages tokens (rabbitmq adapter) tt).0.1
close-ClosedAdapter_example =
    close-ClosedAdapter amqp client redis_client codec messages tokens (rabbitmq adapter) tt
