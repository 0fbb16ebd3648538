-- ===== src/Examples/Parsing.antt =====
-- A configuration file of one entry, parsed into a structure of two fields.
use nats_kafka.Base.{true, false, [], ◌∷◌, ◌≡◌, refl, inl}
use nats_kafka.Base.Int.{pos}
use nats_kafka.Base.Outcome.{ok}
use nats_kafka.Conf.{BridgeConfig, default_bridge_config}
use nats_kafka.Conf.Values.{
  Entries, Struct, int_value, no_entry, entry, string_type, int_slot, primitives_slot, no_field,
  field,
}
use nats_kafka.Conf.Parse.{get, signed, of_pattern}
use nats_kafka.Conf.Parse.Print.{entries_of}
use nats_kafka.Conf.Load.{Outside}
use nats_kafka.Conf.Reflect.{bridge_struct, load_bridge_config}
use nats_kafka.Conf.Reflect.Range.{IsInt64}
use nats_kafka.Conf.Reflect.Range.Whole.{BridgeFits}
use nats_kafka.Conf.Reflect.Laws.{load_bridge_config-entries_of}
use nats_kafka.Examples.{conversions, orders_config}
use nats_kafka.Conf.Parse.Names.{HasEntry, get_insensitive}

abbrev target : Struct
target =
    field "servers" "" true (primitives_slot string_type [])
      (field "port" "" true (int_slot 64 (pos 0)) no_field)

abbrev file : Entries
file = entry "port" (int_value (pos 4222)) no_entry

get_insensitive_example : HasEntry (λ k. k ≡ "port") (get conversions file "port" "") file
unfolding HasEntry
get_insensitive_example =
    get_insensitive conversions file "port" (int_value (pos 4222)) (λ s. refl) refl
      (inl (refl, refl))

-- A bridge with one connector and two clusters of NATS.
abbrev orders_bridge : BridgeConfig
orders_bridge = record default_bridge_config {
  connect = orders_config ∷ [];
  nats_clusters =
      default_bridge_config.nats ∷ record default_bridge_config.nats { name = "east" } ∷ [];
}

-- Every file is there, and spells out that bridge.
abbrev outside : Outside
outside = record {
  read_file = λ file. ok "bridge";
  parse = λ text. ok (entries_of (bridge_struct orders_bridge));
  abs = λ path. ok path;
  stat = λ path. ok (record { is_regular = true; is_dir = false });
  is_not_exist = λ e. false;
}

orders_bridge-BridgeFits : BridgeFits orders_bridge
unfolding IsInt64 signed of_pattern
orders_bridge-BridgeFits = record {
  reconnect_interval = refl;
  connect_timeout = refl;
  nats = record { connect_timeout = refl; reconnect_wait = refl; max_reconnects = refl };
  nats_clusters = (
    record { connect_timeout = refl; reconnect_wait = refl; max_reconnects = refl },
    (record { connect_timeout = refl; reconnect_wait = refl; max_reconnects = refl }, tt),
  );
  stan = record { pub_ack_wait = refl; max_pub_acks_inflight = refl; connect_wait = refl };
  jet_stream = record {
    publish_async_max_pending = refl;
    max_wait = refl;
    heartbeat_interval = refl;
  };
  monitoring = record {
    http_port = refl;
    https_port = refl;
    read_timeout = refl;
    write_timeout = refl;
  };
  connect = (
    record {
      start_at_sequence = refl;
      start_at_time = refl;
      min_bytes = refl;
      max_bytes = refl;
      partition = refl;
      schema_version = refl;
    },
    tt,
  );
}

load_bridge_config-entries_of_example :
    load_bridge_config conversions outside "bridge.conf" default_bridge_config
    ≡ (ok tt, orders_bridge)
load_bridge_config-entries_of_example =
    load_bridge_config-entries_of conversions outside "bridge.conf" "bridge" default_bridge_config
      orders_bridge refl refl orders_bridge-BridgeFits
