-- ===== src/Connector/Subscribe.antt =====
-- The subscriptions that a connector makes: `subscribeToNATS`, `subscribeToChannel` and
-- `subscribeToJetStream` of server/core/connector.go, with the options that they pass.
use nats_kafka.Base.{
  ℕ, String, Bool, true, false, List, [], ◌∷◌, ◌++◌, Option, none, some, str_eq, if◌then◌else◌, not,
}
use nats_kafka.Base.Int.{ℤ, pos, negsuc, eqb_ℤ, ltb_ℤ, pos_part}
use nats_kafka.Base.Outcome.{Outcome, fail, message}
use nats_kafka.Conf.{ConnectorConfig, BridgeConfig}
use nats_kafka.Bridge.Cells.{Cells, nats_for, jet_stream_for}

-- Where a subscription starts. A time is in seconds since 1970.
pub data Start : Type 0 where
  at_time : ℤ → Start
  with_last_received : Start
  at_sequence : ℕ → Start
  deliver_all : Start

pub data SubOption : Type 0 where
  durable : String → SubOption
  start : Start → SubOption
  manual_ack enable_flow_control : SubOption
  idle_heartbeat : ℤ → SubOption
  bind_stream : String → SubOption

-- What the client libraries answer to a subscription or to a new Kafka consumer. A queue name is
-- given where the call is `QueueSubscribe`.
pub record Broker : Type 0 where
  pub subscribe : ℕ → String → Option String → Outcome ℕ
  pub stan_subscribe : ℕ → String → List SubOption → Outcome ℕ
  pub js_subscribe : ℕ → String → Option String → List SubOption → Outcome ℕ
  pub new_consumer : ConnectorConfig → ℤ → Outcome ℕ

abbrev pub when {ℓ} : {A : Type ℓ} → Bool → A → List A
when true x = x ∷ []
when false x = []

-- The chain of tests on the start position, which both kinds of stream subscription share. The cast
-- to uint64 is of a positive number.
unfoldable pub start_position : ConnectorConfig → Start
start_position c =
    if not (eqb_ℤ c.start_at_time (pos 0))
    then Start.at_time c.start_at_time
    else if eqb_ℤ c.start_at_sequence (negsuc 0)
    then Start.with_last_received
    else if ltb_ℤ (pos 0) c.start_at_sequence
    then Start.at_sequence (pos_part c.start_at_sequence)
    else Start.deliver_all

unfoldable pub stan_options : ConnectorConfig → List SubOption
stan_options c =
    when (not (str_eq c.durable_name "")) (SubOption.durable c.durable_name)
    ++ (SubOption.start (start_position c) ∷ SubOption.manual_ack ∷ [])

unfoldable pub js_sub_options : BridgeConfig → ConnectorConfig → List SubOption
js_sub_options b c =
    SubOption.manual_ack
    ∷ (when (not (str_eq c.durable_name "")) (SubOption.durable c.durable_name)
        ++ (SubOption.start (start_position c)
            ∷ (when b.jet_stream.enable_flow_control SubOption.enable_flow_control
                ++ (when (ltb_ℤ (pos 0) b.jet_stream.heartbeat_interval)
                      (SubOption.idle_heartbeat b.jet_stream.heartbeat_interval)
                    ++ when (not (str_eq c.stream "")) (SubOption.bind_stream c.stream)))))

abbrev queue : String → Option String
queue name = if str_eq name "" then none else some name

unfoldable pub subscribe_to_nats : Broker → Cells → ConnectorConfig → Outcome ℕ
subscribe_to_nats k s c = elim (nats_for s c.nats_connection) [
  | none ↦ fail (message "bridge not connected to NATS on cluster %q")
  | some nc ↦ k.subscribe nc c.subject (queue c.queue_name)
]

unfoldable pub subscribe_to_channel : Broker → Cells → ConnectorConfig → Outcome ℕ
subscribe_to_channel k s c = elim s.stan [
  | none ↦ fail (message "bridge not configured to use NATS streaming")
  | some sc ↦ k.stan_subscribe sc c.channel (stan_options c)
]

unfoldable pub subscribe_to_jet_stream : Broker → BridgeConfig → Cells → ConnectorConfig → Outcome ℕ
subscribe_to_jet_stream k b s c = elim (jet_stream_for s c.nats_connection) [
  | none ↦ fail (message "bridge not connected to JetStream on cluster %q")
  | some js ↦ k.js_subscribe js c.subject (queue c.queue_name) (js_sub_options b c)
]
