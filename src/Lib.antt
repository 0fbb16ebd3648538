-- ===== src/Lib.antt =====
-- The NATS-Kafka bridge, a Go program that carries messages between NATS, NATS streaming (STAN) or
-- JetStream and Kafka. A bridge (server/core/server.go) reads a configuration (server/conf/conf.go), connects
-- to one or more NATS clusters (server/core/nats.go) and runs connectors (server/core/connector.go and six files
-- beside it), each of which subscribes on one side and writes on the other through server/kafka. A connector
-- that fails is queued, and a timer restarts what is queued.
--
-- Files, with the code that they model:
-- - Base and its children: shared names, lists measured by native numbers, integers, Go's results (a value, an
--   error or a panic) and maps as association lists.
-- - Conf, Conf/Clusters: server/conf/conf.go, the structures and ValidateNATSClusters.
-- - Conf/Values, Conf/Parse, Conf/Load, Conf/Tls: server/conf/parse.go over a structure as reflection sees it,
--   load.go, utils.go and MakeTLSConfig.
-- - Conf/Slots, Conf/Parts, Conf/Reflect: the structures of conf.go, and of server/logging/logging.go, as reflection
--   sees them, so that a file is loaded into the configuration of the bridge.
-- - Nats: an interface of what the NATS client libraries answer.
-- - Stats/Histogram, Stats/Holder: server/core/histogram.go and stats.go. Stats/Float is the interface of
--   float64 arithmetic.
-- - Bridge/Cells, its children Dial and Redial: server/core/nats.go and the accessors of server.go.
-- - Bridge/Reconnect, Bridge/Server, Bridge/Server/Starting: the restart queue, its timer, the start of the
--   connectors, Stop and Start, of server/core/server.go; Bridge/Server/Steps has the interleavings as a step
--   relation.
-- - Connector, its children Subscribe and Lifecycle: creation, subscriptions, Start and Shutdown.
-- - Connector/Writer, Connector/Deliver: from a NATS message to Kafka, with acknowledgement and statistics.
-- - Connector/Listen: from Kafka to NATS, with the commit.
-- - Bridge/Timer: server/core/reconnecttimer.go, the channels of one timer as steps.
-- - Kafka/Words, Kafka/Partitioner: server/kafka/packer_utils.go and partitioner.go.
-- - Kafka/Key, Kafka/Payload: the record key and the schema framing of server/kafka/producer.go and consumer.go.
-- - Kafka/Varint, Kafka/Protobuf: the message indexes and the descriptors of server/kafka/pb_serializer.go,
--   pb_deserializer.go and pb_schema_manager.go; Kafka/Protobuf/Transit joins them to the framing.
-- - Kafka/Client, its children Consumer and Producer: the sarama configurations of NewConsumer, NewProducer and
--   NewManager, and what is done with the clients, of server/kafka/consumer.go, producer.go and manager.go.
-- - Kafka/Handshake: Fetch, Commit, Close and ConsumeClaim of server/kafka/consumer.go in group mode, as steps of one
--   listener and any number of claims.
-- - Monitor, Monitor/Report: server/core/monitoring.go, with the report of server/core/stats.go and the states of
--   the clusters of server.go.
-- - Program: main.go, server/core/flags.go, InitializeFromFlags and ApplyConfigFile.
-- - Examples and its children: concrete inputs.
--
-- What a lock protects is one step, and so is Start: the reconnect timer that it may set is taken to fire after it has
-- returned. The client libraries, sarama, the schema registry, regexp and text/template are
-- records of functions that the definitions take as arguments, and so are files, the network and the parser of texts:
-- every statement holds for all their answers.
-- Connections and subscriptions are numbers. Counters of type int64 are natural numbers, so they are faithful below
-- 2 ^ 63; the partition counters wrap at 2 ^ 64 and the words of server/kafka at 2 ^ 32. The only fuel is that of
-- the histogram's trim loop, one more than the number of bins, which each turn lowers; the loop that reads a
-- varint has its ten turns, and a varint is written into the eight bytes of the source's buffer.
--
-- Not modelled: logging, the text of the pages and of the JSON answers, the SCRAM and AWS packages, the mock of the
-- registry and the load generators. In the parser, fields of array types and the rounding to float32. Start takes the
-- result of startMonitoring, and the connectors the call that makes a Kafka client, as arguments. Two callers that
-- miss the cache of descriptors at once.
pub mod Base
pub mod Conf
pub mod Nats
pub mod Bridge
pub mod Connector
pub mod Kafka
pub mod Stats
pub mod Monitor
pub mod Program
pub mod Examples
