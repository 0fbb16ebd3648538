-- ===== src/Examples/Delivery.antt =====
-- Messages carried both ways.
use nats_kafka.Base.Int.{pos}
use nats_kafka.Base.{inl, List, [], ◌∷◌, Bool, ◌≡◌, refl, some}
use nats_kafka.Base.Outcome.{ok, fail, foreign}
use nats_kafka.Examples.{ops, gear, bus, bridge_config, connector, kafka_message}
use nats_kafka.Kafka.{Message}
use nats_kafka.Connector.{Connector, Kind}
use nats_kafka.Connector.Writer.{Gear, ProducerMessage, writer, get_hash}
use nats_kafka.Connector.Writer.Laws.{writer-writer}
use nats_kafka.Connector.Deliver.{
  NatsMsg, Effect, stan_message, stream_message, stan_callback, jet_stream_callback, ack_of,
}
use nats_kafka.Connector.Deliver.Laws.{IsSafe, callbacks-IsSafe}
use nats_kafka.Connector.Listen.{Fetched, listen, to_nats_headers}
use nats_kafka.Connector.Listen.Headers.{values_of, record_values, values_of-to_nats_headers}
use nats_kafka.Connector.Listen.Order.{IsOrdered, listen-IsOrdered}

abbrev working : Gear
working = gear (λ k. ok tt)

abbrev refusing : Gear
refusing = gear (λ k. fail (foreign 1))

abbrev stream_msg : NatsMsg
stream_msg = record {
  subject = "orders.new";
  reply = "";
  payload = 1 ∷ 2 ∷ [];
  header = (97 ∷ [], some ((98 ∷ []) ∷ [])) ∷ [];
  metadata =
      some (record { num_pending = 4; timestamp = 48 ∷ []; stream_seq = 8; consumer_seq = 6 });
  dest = some "orders";
  elapsed = 1000;
}

abbrev source : Connector
source = connector Kind.jet_stream2kafka

abbrev outgoing_example : ProducerMessage
outgoing_example = record {
  topic = "orders";
  key = 107 ∷ [];
  value = 1 ∷ 2 ∷ [];
  headers = kafka_message.headers;
}

abbrev message_example : Message
message_example = record kafka_message { key = 107 ∷ [] }

callbacks-IsSafe_example :
    IsSafe working source.config
      (stan_message working source stream_msg)
      (Effect.acked ∷ [])
      (stan_callback ops working bridge_config stream_msg source).1
    × IsSafe working source.config
        (stream_message working source stream_msg)
        (ack_of bridge_config ∷ [])
        (jet_stream_callback ops working bridge_config stream_msg source).1
callbacks-IsSafe_example = callbacks-IsSafe ops working bridge_config stream_msg source

values_of-to_nats_headers_example :
    values_of (97 ∷ []) (to_nats_headers kafka_message.headers)
    ≡ record_values (97 ∷ []) kafka_message.headers
values_of-to_nats_headers_example = values_of-to_nats_headers (97 ∷ []) kafka_message.headers

-- A message, then the end of the listener.
abbrev fetched : List Fetched
fetched =
    Fetched.got kafka_message (record { cells = []; stan = some 5 }) 1000 Bool.false
    ∷ Fetched.cancelled
    ∷ []

listen-IsOrdered_example : IsOrdered (listen ops bus fetched (connector Kind.kafka2stan)).1
listen-IsOrdered_example = listen-IsOrdered ops bus fetched (connector Kind.kafka2stan)

-- Kafka has gone.
abbrev gone : Gear
gone = record working { new_sync_producer = λ c timeout. inl (foreign 2) }

writer-writer_example :
    writer gone (pos 7) "orders" (writer working bridge_config.connect_timeout "orders" source).1
    ≡ writer working bridge_config.connect_timeout "orders" source
unfolding get_hash
writer-writer_example =
    writer-writer working gone bridge_config.connect_timeout (pos 7) "orders" source refl
