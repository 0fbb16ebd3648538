-- ===== src/Kafka/Client.antt =====
-- The settings with which server/kafka opens its clients: `NewConsumer` of consumer.go, `NewProducer` of
-- producer.go and `NewManager` of manager.go up to the call of sarama.
pub mod Settings
pub mod Consumer
pub mod Producer
use nats_kafka.Base.{
  ℕ, ◌+◌, ◌*◌, ltb, String, Bool, true, false, List, Option, none, some, ◌||◌, ◌&&◌, not, str_eq,
  if◌then◌else◌,
}
use nats_kafka.Base.Int.{ℤ, pos, negsuc}
use nats_kafka.Base.Outcome.{Outcome, ok, fail, panic}
use nats_kafka.Conf.{ConnectorConfig, BridgeConfig, least_bytes}
use nats_kafka.Conf.Parse.{signed}
use nats_kafka.Conf.Tls.{Files, TlsConfig, plain_tls, make_tls_config}

pub data Mechanism : Type 0 where
  plaintext scram_sha256 scram_sha512 oauth : Mechanism

-- The fields of `sarama.Config` under `Net` that are set. `scram` tells whether a generator of SCRAM
-- clients is set, for the hash of the mechanism; `token_region` is that of `MSKAccessTokenProvider`.
pub record NetSettings : Type 0 where
  pub sasl_enable : Bool
  pub handshake : Bool
  pub mechanism : Option Mechanism
  pub scram : Bool
  pub user : String
  pub password : String
  pub token_region : Option String
  pub tls_enable : Bool
  pub tls_config : Option TlsConfig

pub record SaramaConfig : Type 0 where
  pub client_id : String
  -- in nanoseconds
  pub dial_timeout : ℤ
  pub net : NetSettings
  pub return_successes : Bool
  pub least_bytes_partitioner : Bool
  pub fetch_min : ℤ
  pub fetch_max : ℤ

-- `time.Duration(n) * time.Millisecond`, in 64 bits.
pub milliseconds : ℤ → ℤ
milliseconds (pos n) = signed 64 (pos (n * 1000000))
milliseconds (negsuc n) = signed 64 (negsuc (n * 1000000 + 999999))

abbrev pub is_positive : ℤ → Bool
is_positive (pos n) = ltb 0 n
is_positive (negsuc n) = false

unfoldable pub is_sha256 : String → Bool
is_sha256 m = str_eq m "scram-sha256" || (str_eq m "scram-sha-256" || str_eq m "sha256")

unfoldable pub is_sha512 : String → Bool
is_sha512 m = str_eq m "scram-sha512" || (str_eq m "scram-sha-512" || str_eq m "sha512")

unfoldable pub with_mechanism : String → NetSettings → NetSettings
unfolding is_sha256 is_sha512
with_mechanism m n =
    if is_sha256 m
    then record n { scram = true; mechanism = some Mechanism.scram_sha256 }
    else if is_sha512 m
    then record n { scram = true; mechanism = some Mechanism.scram_sha512 }
    else record n { mechanism = some Mechanism.plaintext }

-- The branch for `SASL.User != ""`.
unfoldable pub with_user : ConnectorConfig → NetSettings → NetSettings
unfolding with_mechanism
with_user c n =
    record (with_mechanism c.sasl.mechanism (record n { sasl_enable = true; handshake = true })) {
      user = c.sasl.user;
      password = c.sasl.password;
    }

unfoldable pub has_user : ConnectorConfig → Bool
has_user c = not (str_eq c.sasl.user "")

unfoldable pub has_region : ConnectorConfig → Bool
has_region c = c.iam.enable && not (str_eq c.iam.region "")

unfoldable pub with_sasl : ConnectorConfig → NetSettings → NetSettings
unfolding has_user has_region with_user
with_sasl c n =
    if has_user c
    then with_user c n
    else if has_region c
    then record n {
      sasl_enable = true;
      mechanism = some Mechanism.oauth;
      token_region = some c.iam.region;
    }
    else n

-- The second test of the chain: a configuration that was made without an error.
pub made : Outcome (Option TlsConfig) → Option TlsConfig
made (ok t) = t
made (fail e) = none
made panic = none

unfoldable pub with_tls_config : TlsConfig → NetSettings → NetSettings
with_tls_config t n = record n { tls_enable = true; tls_config = some t }

-- The first two branches of the chain, and `otherwise`.
unfoldable pub with_own_tls : Files → ConnectorConfig → NetSettings → NetSettings → NetSettings
unfolding with_tls_config made
with_own_tls f c otherwise n =
    if n.sasl_enable && c.sasl.insecure_skip_verify
    then with_tls_config (record plain_tls { insecure_skip_verify = c.sasl.insecure_skip_verify }) n
    else elim (made (make_tls_config f c.tls)) [ none ↦ otherwise | some t ↦ with_tls_config t n ]

-- The third branch, for `IAM.Enable`.
unfoldable pub with_iam_tls : Bool → NetSettings → NetSettings
unfolding with_tls_config
with_iam_tls enable n = if enable then with_tls_config plain_tls n else n

unfoldable pub with_tls : Files → ConnectorConfig → NetSettings → NetSettings
unfolding with_own_tls with_iam_tls
with_tls f c n = with_own_tls f c (with_iam_tls c.iam.enable n) n

-- What is passed to `sarama.NewConsumer`; `config` is that of `sarama.NewConfig`.
pub consumer_config : Files → SaramaConfig → ConnectorConfig → ℤ → SaramaConfig
unfolding with_sasl with_tls
consumer_config f config c dial_timeout = record config {
  dial_timeout = dial_timeout;
  client_id = "nats-kafka-consumer";
  net = with_tls f c (with_sasl c config.net);
  fetch_min = if is_positive c.min_bytes then signed 32 c.min_bytes else config.fetch_min;
  fetch_max = if is_positive c.max_bytes then signed 32 c.max_bytes else config.fetch_max;
}

pub producer_config : Files → SaramaConfig → ConnectorConfig → BridgeConfig → SaramaConfig
unfolding with_sasl with_tls milliseconds
producer_config f config c b =
    let n : NetSettings = with_tls f c (with_sasl c config.net) in
    record config {
      return_successes = true;
      dial_timeout = milliseconds b.connect_timeout;
      client_id = "nats-kafka-producer";
      least_bytes_partitioner =
          if str_eq c.balancer least_bytes then true else config.least_bytes_partitioner;
      net = if c.sasl.tls then record n { tls_enable = true } else n;
    }

-- The manager has no branch for IAM.
pub manager_config : Files → SaramaConfig → ConnectorConfig → BridgeConfig → SaramaConfig
unfolding has_user with_user with_own_tls milliseconds
manager_config f config c b =
    let n : NetSettings = if has_user c then with_user c config.net else config.net in
    record config {
      dial_timeout = milliseconds b.connect_timeout;
      client_id = "nats-kafka-manager";
      net = with_own_tls f c n n;
    }
