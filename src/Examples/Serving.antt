-- ===== src/Examples/Serving.antt =====
-- The monitoring server, the process and the clients of Kafka.
use nats_kafka.Base.{
  ℕ, Bool, true, false, not, ◌||◌, List, [], ◌∷◌, none, some, ◌≡◌, ◌≢◌, refl, ◌↔◌, ◌⊎◌,
  if◌then◌else◌, ◌==◌, Bool-cases, inl, inr,
}
use nats_kafka.Base.Int.{pos}
use nats_kafka.Base.Outcome.{Outcome, ok, fail, panic, message}
use nats_kafka.Base.Dict.{lookup}
use nats_kafka.Conf.{HttpConfig, ConnectorConfig, default_bridge_config, no_tls}
use nats_kafka.Conf.Tls.{Files}
use nats_kafka.Monitor.{
  Monitor, Net, Request, new_monitor, no_requests, start_monitoring, stop_monitoring, handle_each,
}
use nats_kafka.Monitor.Listening.{ServesHttp, ServesHttps}
use nats_kafka.Monitor.Serving.{IsWhole, start_monitoring_iff, stop_monitoring-start_monitoring}
use nats_kafka.Monitor.Requests.{is_page, requests_of, handle_each_lem}
use nats_kafka.Monitor.Report.{Clock, bridge_stats}
use nats_kafka.Monitor.Report.Totals.{requests_served, bridge_stats_lem}
use nats_kafka.Kafka.Client.{
  NetSettings, SaramaConfig, has_user, has_region, consumer_config, producer_config, manager_config,
}
use nats_kafka.Kafka.Client.Settings.{IsOff, is_encrypted, clients_secured}
use nats_kafka.Kafka.Client.Consumer.{
  Sarama, Client, Consumer, is_group, new_consumer, group_mode, close,
}
use nats_kafka.Kafka.Client.Consumer.Laws.{close-new_consumer, new_consumer_fails, Leaves}
use nats_kafka.Connector.{Kind}
use nats_kafka.Examples.{ops, orders_config, connector}

-- HTTP on any port, which turns out to be 8222.
abbrev http_config : HttpConfig
http_config = record {
  http_host = "";
  http_port = pos 8222;
  https_port = pos 0;
  tls = no_tls;
  read_timeout = pos 0;
  write_timeout = pos 0;
}

abbrev net : Net
net = record {
  join_host_port = λ h p. ":8222";
  load_x509_key_pair = λ c k. ok tt;
  listen = λ s a. ok 8222;
}

start_monitoring_iff_example : ((start_monitoring net http_config new_monitor).0 ≡ ok tt) ↔ (
    ((http_config.http_port ≡ pos 0) × (http_config.https_port ≡ pos 0))
    ⊎ (ServesHttp net http_config ⊎ ServesHttps net http_config))
start_monitoring_iff_example = start_monitoring_iff net http_config new_monitor

stop_monitoring-start_monitoring_example :
    let m : Monitor = (start_monitoring net http_config new_monitor).1 in
    (stop_monitoring (ok tt) m).1 ≡ (
      if true || not m.http
      then record m { http = false; http_handler = false; listener = none }
      else m)
unfolding IsWhole new_monitor
stop_monitoring-start_monitoring_example =
    stop_monitoring-start_monitoring net http_config new_monitor (ok tt) (refl, refl)

abbrev requests : List Request
requests =
    record { path = "/varz"; encodes = true }
    ∷ record { path = "/"; encodes = true }
    ∷ record { path = "/varz"; encodes = false }
    ∷ []

handle_each_lem_example :
    lookup "/varz" (handle_each requests no_requests) ≡ some (requests_of "/varz" requests)
unfolding is_page
handle_each_lem_example = handle_each_lem "/varz" requests refl

abbrev clock : Clock
clock = record { started = pos 100; now = pos 160; elapsed = "1m0s" }

bridge_stats_lem_example :
    ((bridge_stats ops clock [] no_requests (connector Kind.nats2kafka ∷ [])).0.request_count
      ≡ requests_served (connector Kind.nats2kafka ∷ []))
    × (bridge_stats ops clock [] no_requests
          (bridge_stats ops clock [] no_requests (connector Kind.nats2kafka ∷ [])).1
        ≡ bridge_stats ops clock [] no_requests (connector Kind.nats2kafka ∷ []))
bridge_stats_lem_example =
    bridge_stats_lem ops clock [] no_requests (connector Kind.nats2kafka ∷ [])

-- Certificates are all there and valid.
abbrev files : Files
files = record {
  load_x509_key_pair = λ c k. ok 1;
  parse_certificate = λ c. ok tt;
  read_file = λ p. ok 2;
}

abbrev new_config : SaramaConfig
new_config = record {
  client_id = "sarama";
  dial_timeout = pos 30000000000;
  net = record {
    sasl_enable = false;
    handshake = true;
    mechanism = none;
    scram = false;
    user = "";
    password = "";
    token_region = none;
    tls_enable = false;
    tls_config = none;
  };
  return_successes = false;
  least_bytes_partitioner = false;
  fetch_min = pos 1;
  fetch_max = pos 0;
}

clients_secured_example :
    let consumer : NetSettings = (consumer_config files new_config orders_config (pos 5)).net in
    let producer : NetSettings =
      (producer_config files new_config orders_config default_bridge_config).net in
    let manager : NetSettings =
      (manager_config files new_config orders_config default_bridge_config).net in
    let authenticated : Bool = has_user orders_config || has_region orders_config in
    ((consumer.sasl_enable ≡ authenticated)
      × (consumer.tls_enable
          ≡ is_encrypted files orders_config authenticated orders_config.iam.enable))
    × ((producer.sasl_enable ≡ authenticated)
        × (producer.tls_enable ≡ (
            orders_config.sasl.tls
            || is_encrypted files orders_config authenticated orders_config.iam.enable)))
    × ((manager.sasl_enable ≡ has_user orders_config)
        × (manager.tls_enable ≡ is_encrypted files orders_config (has_user orders_config) false))
unfolding IsOff
clients_secured_example =
    clients_secured files new_config orders_config default_bridge_config (pos 5) (refl, refl)

abbrev sarama : Sarama
sarama = record {
  new_config = new_config;
  new_consumer_group = λ bs g c. ok 5;
  new_consumer = λ bs c. ok 6;
  consume_partition = λ n t p. ok 7;
  to_upper = λ s. s;
}

-- The partition consumer does not close.
abbrev closes : ℕ → Outcome (Unit {0})
closes n = if n == 7 then fail (message "closing") else ok tt

closes_calmly : (n : ℕ) → closes n ≢ panic
closes_calmly n h = elim (Bool-cases (n == 7)) [
  | inl seven ↦ let no = rw seven at h in cc
  | inr other ↦ let no = rw other at h in cc
]

abbrev single_config : ConnectorConfig
single_config = record orders_config { group_id = "" }

-- A consumer of one partition.
abbrev reading : Consumer
reading = record {
  topic = orders_config.topic;
  sasl_on = (consumer_config files new_config single_config (pos 5)).net.sasl_enable;
  tls_on = (consumer_config files new_config single_config (pos 5)).net.tls_enable;
  tls_skip_verify = false;
  schema_type = none;
  client = Client.single 6 7;
}

close-new_consumer_example :
    ((close closes reading).1 ≡ (new_consumer files sarama single_config (pos 5)).1)
    × (group_mode reading ≡ is_group single_config)
unfolding new_consumer
close-new_consumer_example =
    close-new_consumer files sarama single_config (pos 5) reading closes refl closes_calmly

-- The partition is refused.
abbrev refused : Sarama
refused = record sarama { consume_partition = λ n t p. fail (message "refused") }

new_consumer_fails_example :
    Leaves refused single_config
      (consumer_config files new_config single_config (pos 5))
      (new_consumer files refused single_config (pos 5)).1
unfolding new_consumer
new_consumer_fails_example = new_consumer_fails files refused single_config (pos 5) refl
