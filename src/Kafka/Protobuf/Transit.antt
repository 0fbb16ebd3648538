-- ===== src/Kafka/Protobuf/Transit.antt =====
-- A protobuf message on its way from `serializePayload` of a producer to `deserializePayload` of a consumer,
-- each with a serializer and a schema manager of its own.
use nats_kafka.Kafka.Payload.{Codecs}
use nats_kafka.Kafka.Protobuf.{Descriptors, TempFile, Manager, serialize, deserialize}

-- The packages with the protobuf serializer of a producer, whose manager is `m`, and the deserializer of a
-- consumer, whose manager is `m'`; the files are those that the calls can take.
unfoldable pub over_protobuf :
    (d : Descriptors) → Manager d → Manager d → TempFile → TempFile → TempFile → Codecs → Codecs
over_protobuf d m m' t t' t'' k = record k {
  pb_serialize = λ schema payload. (serialize d m t t' schema payload).0;
  pb_deserialize = λ schema clean. (deserialize d m' t'' schema clean).0;
}
