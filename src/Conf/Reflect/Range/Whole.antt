-- ===== src/Conf/Reflect/Range/Whole.antt =====
-- Connectors and whole configurations whose integers fit 64 bits.
use nats_kafka.Base.{refl, All}
use nats_kafka.Conf.{ConnectorConfig, BridgeConfig}
use nats_kafka.Conf.Values.{string_type}
use nats_kafka.Conf.Slots.{primitives, structs}
use nats_kafka.Conf.Parts.{
  logging_struct, tls_struct, sasl_struct, iam_struct, http_struct, nats_struct, streaming_struct,
  jet_stream_struct,
}
use nats_kafka.Conf.Reflect.{connector_struct, bridge_struct, zero_nats, zero_connector}
use nats_kafka.Conf.Parse.Print.{
  Fits, is_free, Fits-field, Fits-end, Fits_string, Fits_int, Fits_primitives, Fits_structs,
  Fits-struct,
}
use nats_kafka.Conf.Reflect.Range.{
  IsInt64, EachFits-structs, logging-Fits, tls-Fits, sasl-Fits, iam-Fits, HttpFits, http-Fits,
  NatsFits, nats-Fits, StreamingFits, streaming-Fits, JetStreamFits, jet_stream-Fits,
  AreOf-primitives,
}

pub record ConnectorFits (c : ConnectorConfig) : Type 0 where
  pub start_at_sequence : IsInt64 c.start_at_sequence
  pub start_at_time : IsInt64 c.start_at_time
  pub min_bytes : IsInt64 c.min_bytes
  pub max_bytes : IsInt64 c.max_bytes
  pub partition : IsInt64 c.partition
  pub schema_version : IsInt64 c.schema_version

connector-Fits :
    (a c : ConnectorConfig) → ConnectorFits c → Fits (connector_struct a) (connector_struct c)
unfolding connector_struct is_free IsInt64
connector-Fits a c h = Fits-field "ID" _ _ _ _ refl refl (Fits_string a.id c.id) (
    Fits-field "Type" _ _ _ _ refl refl (Fits_string a.type c.type) (
      Fits-field "NATSConnection" _ _ _ _ refl refl
        (Fits_string a.nats_connection c.nats_connection)
        (Fits-field "Channel" _ _ _ _ refl refl (Fits_string a.channel c.channel) (
          Fits-field "DurableName" _ _ _ _ refl refl (Fits_string a.durable_name c.durable_name) (
            Fits-field "StartAtSequence" _ _ _ _ refl refl
              (Fits_int 64 a.start_at_sequence c.start_at_sequence h.start_at_sequence)
              (Fits-field "StartAtTime" _ _ _ _ refl refl
                (Fits_int 64 a.start_at_time c.start_at_time h.start_at_time)
                (Fits-field "Subject" _ _ _ _ refl refl (Fits_string a.subject c.subject) (
                  Fits-field "QueueName" _ _ _ _ refl refl (Fits_string a.queue_name c.queue_name) (
                    Fits-field "Stream" _ _ _ _ refl refl (Fits_string a.stream c.stream) (
                      Fits-field "Brokers" _ _ _ _ refl refl
                        (Fits_primitives string_type (primitives a.brokers) (primitives c.brokers)
                          (AreOf-primitives c.brokers))
                        (Fits-field "Topic" _ _ _ _ refl refl (Fits_string a.topic c.topic) (
                          Fits-field "TLS" _ _ _ _ refl refl
                            (Fits-struct (tls_struct a.tls) (tls_struct c.tls)
                              (tls-Fits a.tls c.tls))
                            (Fits-field "SASL" _ _ _ _ refl refl
                              (Fits-struct (sasl_struct a.sasl) (sasl_struct c.sasl)
                                (sasl-Fits a.sasl c.sasl))
                              (Fits-field "IAM" _ _ _ _ refl refl
                                (Fits-struct (iam_struct a.iam) (iam_struct c.iam)
                                  (iam-Fits a.iam c.iam))
                                (Fits-field "MinBytes" _ _ _ _ refl refl
                                  (Fits_int 64 a.min_bytes c.min_bytes h.min_bytes)
                                  (Fits-field "MaxBytes" _ _ _ _ refl refl
                                    (Fits_int 64 a.max_bytes c.max_bytes h.max_bytes)
                                    (Fits-field "Partition" _ _ _ _ refl refl
                                      (Fits_int 64 a.partition c.partition h.partition)
                                      (Fits-field "GroupID" _ _ _ _ refl refl
                                        (Fits_string a.group_id c.group_id)
                                        (Fits-field "Balancer" _ _ _ _ refl refl
                                          (Fits_string a.balancer c.balancer)
                                          (Fits-field "KeyType" _ _ _ _ refl refl
                                            (Fits_string a.key_type c.key_type)
                                            (Fits-field "KeyValue" _ _ _ _ refl refl
                                              (Fits_string a.key_value c.key_value)
                                              (Fits-field "SchemaRegistryURL" _ _ _ _ refl refl
                                                (Fits_string a.schema_registry_url
                                                  c.schema_registry_url)
                                                (Fits-field "SubjectName" _ _ _ _ refl refl
                                                  (Fits_string a.subject_name c.subject_name)
                                                  (Fits-field "SchemaVersion" _ _ _ _ refl refl
                                                    (Fits_int 64 a.schema_version c.schema_version
                                                      h.schema_version)
                                                    (Fits-field "SchemaType" _ _ _ _ refl refl
                                                      (Fits_string a.schema_type c.schema_type)
                                                      (Fits-end))))))))))))))))))))))))))

pub record BridgeFits (c : BridgeConfig) : Type 0 where
  pub reconnect_interval : IsInt64 c.reconnect_interval
  pub connect_timeout : IsInt64 c.connect_timeout
  pub nats : NatsFits c.nats
  pub nats_clusters : All NatsFits c.nats_clusters
  pub stan : StreamingFits c.stan
  pub jet_stream : JetStreamFits c.jet_stream
  pub monitoring : HttpFits c.monitoring
  pub connect : All ConnectorFits c.connect

pub bridge-Fits : (a c : BridgeConfig) → BridgeFits c → Fits (bridge_struct a) (bridge_struct c)
unfolding bridge_struct is_free IsInt64
bridge-Fits a c h =
    Fits-field "ReconnectInterval" _ _ _ _ refl refl
      (Fits_int 64 a.reconnect_interval c.reconnect_interval h.reconnect_interval)
      (Fits-field "ConnectTimeout" _ _ _ _ refl refl
        (Fits_int 64 a.connect_timeout c.connect_timeout h.connect_timeout)
        (Fits-field "Logging" _ _ _ _ refl refl
          (Fits-struct (logging_struct a.logging) (logging_struct c.logging)
            (logging-Fits a.logging c.logging))
          (Fits-field "NATS" _ _ _ _ refl refl
            (Fits-struct (nats_struct a.nats) (nats_struct c.nats) (nats-Fits a.nats c.nats h.nats))
            (Fits-field "NATSClusters" _ _ _ _ refl refl
              (Fits_structs (nats_struct zero_nats) (structs nats_struct a.nats_clusters)
                (structs nats_struct c.nats_clusters)
                (EachFits-structs NatsFits nats_struct (nats_struct zero_nats) c.nats_clusters
                  (nats-Fits zero_nats) h.nats_clusters))
              (Fits-field "STAN" _ _ _ _ refl refl
                (Fits-struct (streaming_struct a.stan) (streaming_struct c.stan)
                  (streaming-Fits a.stan c.stan h.stan))
                (Fits-field "JetStream" _ _ _ _ refl refl
                  (Fits-struct (jet_stream_struct a.jet_stream) (jet_stream_struct c.jet_stream)
                    (jet_stream-Fits a.jet_stream c.jet_stream h.jet_stream))
                  (Fits-field "Monitoring" _ _ _ _ refl refl
                    (Fits-struct (http_struct a.monitoring) (http_struct c.monitoring)
                      (http-Fits a.monitoring c.monitoring h.monitoring))
                    (Fits-field "Connect" _ _ _ _ refl refl
                      (Fits_structs (connector_struct zero_connector)
                        (structs connector_struct a.connect) (structs connector_struct c.connect)
                        (EachFits-structs ConnectorFits connector_struct
                          (connector_struct zero_connector) c.connect
                          (connector-Fits zero_connector) h.connect))
                      (Fits-end)))))))))
