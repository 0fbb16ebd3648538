-- ===== src/Connector/Deliver/Laws.antt =====
-- A message is acknowledged only once Kafka has it.
use nats_kafka.Base.{ℕ, List, [], ◌∷◌, length, ◌≡◌, refl, ◌⊎◌, inl, inr}
use nats_kafka.Base.Int.{ℤ}
use nats_kafka.Base.Outcome.{Error, Outcome, ok, fail, ◌>>=◌, >>=-eq-ok, Outcome-cases}
use nats_kafka.Conf.{ConnectorConfig, BridgeConfig}
use nats_kafka.Stats.Float.{FloatOps}
use nats_kafka.Stats.Holder.{StatsHolder, add_message_in}
use nats_kafka.Kafka.{Message}
use nats_kafka.Kafka.Key.{refine_key}
use nats_kafka.Connector.{Connector}
use nats_kafka.Connector.Writer.{Gear, ProducerMessage, writer, write, encode}
use nats_kafka.Connector.Writer.Laws.{write-ok}
use nats_kafka.Connector.Deliver.{
  NatsMsg, Effect, stan_message, stream_message, count_request, dest_of, deliver, stan_callback,
  jet_stream_callback, ack_of, count_stream,
}

-- sarama accepted `x`, which carries `m`.
abbrev pub Accepted : Gear → ConnectorConfig → Message → ProducerMessage → Type 0
Accepted g c m x =
    ((k : ℕ) × (g.send_message k x ≡ ok tt))
    × (encode g c m.value ≡ ok x.value)
    × (x.key ≡ refine_key m.key m.headers)
    × (x.headers ≡ m.headers)

-- Either nothing left the callback, or the message was accepted and then acknowledged.
abbrev pub IsSafe : Gear → ConnectorConfig → Outcome Message → List Effect → List Effect → Type 0
IsSafe g c built acks effects =
    (effects ≡ [])
    ⊎ ((m : Message) × (x : ProducerMessage) × (built ≡ ok m)
        × Accepted g c m x
        × (effects ≡ Effect.sent x ∷ acks))

deliver-IsSafe :
    (g : Gear) (timeout : ℤ) (m : NatsMsg) (built : Outcome Message) (acks : List Effect)
    (count : StatsHolder → Outcome StatsHolder) (c : Connector)
    → IsSafe g c.config built acks (deliver g timeout m built acks count c).1
unfolding deliver
deliver-IsSafe g timeout m built acks count c =
    let w = (writer g timeout (dest_of m) c).0 in
    elim (Outcome-cases (built >>= write g c.config w)) [
      | inr (inl (e, failed)) ↦ inl (rw (failed, deliver) refl)
      | inr (inr crashed) ↦ inl (rw (crashed, deliver) refl)
      | inl (x, written) ↦
          let (msg, made, sent) = >>=-eq-ok built (write g c.config w) written in
          let (k, known, accepted, encoded, key, headers) = write-ok g c.config w msg x sent in
          inr (msg, x, made, ((k, accepted), encoded, key, headers), rw (written, deliver) refl)
    ]

deliver_fail :
    (g : Gear) (timeout : ℤ) (m : NatsMsg) (built : Outcome Message) (acks : List Effect)
    (count : StatsHolder → Outcome StatsHolder) (c : Connector) (e : Error)
    → (built >>= write g c.config (writer g timeout (dest_of m) c).0) ≡ fail e
    → deliver g timeout m built acks count c ≡ (
      ok (record (writer g timeout (dest_of m) c).1 {
        stats = add_message_in (writer g timeout (dest_of m) c).1.stats (length m.payload);
      }),
      [],
    )
unfolding deliver
deliver_fail g timeout m built acks count c e failed = rw (failed, deliver) refl

-- When the write fails, the JetStream callback acknowledges nothing: the message is counted as received
-- and not as sent, and the connector keeps its configuration and goes on.
jet_stream_callback_fail :
    (f : FloatOps) (g : Gear) (b : BridgeConfig) (m : NatsMsg) (c : Connector) (e : Error)
    → (stream_message g c m >>= write g c.config (writer g b.connect_timeout (dest_of m) c).0)
      ≡ fail e
    → let d = (writer g b.connect_timeout (dest_of m) c).1 in
      jet_stream_callback f g b m c
      ≡ (ok (record d { stats = add_message_in d.stats (length m.payload) }), [])
unfolding jet_stream_callback
jet_stream_callback_fail f g b m c e failed =
    deliver_fail g b.connect_timeout m (stream_message g c m) (ack_of b ∷ []) (count_stream f g b m)
      c e failed

-- The acknowledging callbacks, of STAN and of JetStream: a message is acknowledged, in the way that the
-- configuration asks for, only after sarama has accepted the message that carries its payload, its key
-- and its headers; otherwise the callback has no effect outside the connector.
pub callbacks-IsSafe :
    (f : FloatOps) (g : Gear) (b : BridgeConfig) (m : NatsMsg) (c : Connector)
    → IsSafe g c.config (stan_message g c m) (Effect.acked ∷ []) (stan_callback f g b m c).1
      × IsSafe g c.config (stream_message g c m) (ack_of b ∷ []) (jet_stream_callback f g b m c).1
unfolding stan_callback jet_stream_callback
callbacks-IsSafe f g b m c = (
  deliver-IsSafe g b.connect_timeout m (stan_message g c m) (Effect.acked ∷ [])
      (count_request f g b m) c,
  deliver-IsSafe g b.connect_timeout m (stream_message g c m) (ack_of b ∷ []) (count_stream f g b m)
      c,
)
