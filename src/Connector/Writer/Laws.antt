-- ===== src/Connector/Writer/Laws.antt =====
-- What a successful `Write` sent, and that a topic keeps its writer.
use nats_kafka.Base.{ℕ, String, none, some, ◌≡◌, refl, sym, ap, ◌∙◌, Option-cases, inl, inr}
use nats_kafka.Base.Int.{ℤ}
use nats_kafka.Base.Outcome.{ok, >>=-eq-ok, ok_inj}
use nats_kafka.Base.Dict.{lookup, insert, lookup-insert_self}
use nats_kafka.Conf.{ConnectorConfig}
use nats_kafka.Kafka.{Message}
use nats_kafka.Kafka.Key.{refine_key}
use nats_kafka.Connector.{Connector, Producer}
use nats_kafka.Connector.Writer.{
  Gear, ProducerMessage, get_hash, new_writer, writer, outgoing, encode, write,
}

-- A message that `Write` reports as written was accepted by sarama, for the topic of the producer,
-- with the key that the subject header refines, the encoded value and the headers unchanged.
pub write-ok :
    (g : Gear) (c : ConnectorConfig) (w : Producer) (m : Message) (sent : ProducerMessage)
    → write g c w m ≡ ok sent
    → (k : ℕ) × (w ≡ Producer.sarama k sent.topic)
      × (g.send_message k sent ≡ ok tt)
      × (encode g c m.value ≡ ok sent.value)
      × (sent.key ≡ refine_key m.key m.headers)
      × (sent.headers ≡ m.headers)
unfolding write outgoing
write-ok g c (Producer.errored e) m sent h = cc
write-ok g c (Producer.sarama k topic) m sent h =
    let (value, encoded, rest) = >>=-eq-ok (encode g c m.value) _ h in
    let (u, accepted, eq) = >>=-eq-ok (g.send_message k (outgoing topic m value)) _ rest in
    let same = ok_inj eq in
    (
      k,
      ap (λ s. Producer.sarama k s.topic) same,
      ap (g.send_message k) (sym same) ∙ accepted,
      encoded ∙ ap (λ s. ok s.value) same,
      sym (ap (λ s. s.key) same),
      sym (ap (λ s. s.headers) same),
    )

writer_found :
    (g : Gear) (timeout : ℤ) (topic : String) (c : Connector) (w : Producer)
    → lookup (get_hash g topic) c.writers ≡ some w
    → writer g timeout topic c ≡ (w, c)
unfolding writer
writer_found g timeout topic c w found = rw (found, writer) refl

abbrev stored : Gear → ℤ → String → Connector → Connector
stored g timeout topic c = record c {
  writers = insert (get_hash g topic) (new_writer g c.config timeout topic) c.writers;
}

writer_missing :
    (g : Gear) (timeout : ℤ) (topic : String) (c : Connector)
    → lookup (get_hash g topic) c.writers ≡ none
    → writer g timeout topic c ≡ (new_writer g c.config timeout topic, stored g timeout topic c)
unfolding writer
writer_missing g timeout topic c missing = rw (missing, writer) refl

-- Asked again for the same topic, `writer` gives the same producer and stores nothing new, also where
-- making a producer would now give another one or fail, and whatever the timeout is then; all that must
-- stay is the hash of the topic.
pub writer-writer :
    (g g' : Gear) (timeout timeout' : ℤ) (topic : String) (c : Connector)
    → get_hash g' topic ≡ get_hash g topic
    → writer g' timeout' topic (writer g timeout topic c).1 ≡ writer g timeout topic c
writer-writer g g' timeout timeout' topic c same =
    elim (Option-cases (lookup (get_hash g topic) c.writers)) [
      | inr (w, found) ↦
          let first = writer_found g timeout topic c w found in
          ap (λ r. writer g' timeout' topic r.1) first
          ∙ writer_found g' timeout' topic c w (ap (λ h. lookup h c.writers) same ∙ found)
          ∙ sym first
      | inl missing ↦
          let made = writer_missing g timeout topic c missing in
          ap (λ r. writer g' timeout' topic r.1) made
          ∙ writer_found g' timeout' topic (stored g timeout topic c)
              (new_writer g c.config timeout topic)
              (ap (λ h. lookup h (stored g timeout topic c).writers) same
                ∙ lookup-insert_self (get_hash g topic) (new_writer g c.config timeout topic)
                    c.writers)
          ∙ sym made
    ]
