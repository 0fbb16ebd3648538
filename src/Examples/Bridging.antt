-- ===== src/Examples/Bridging.antt =====
-- The bridge: a connector that has to be restarted, a stop, the configuration and the statistics.
use nats_kafka.Bridge.Timer.{Waiter, Timer, next, here}
use nats_kafka.Base.{
  ℕ, zero, suc, ◌+◌, ◌-◌, ◌^◌, ◌≤◌, String, true, false, List, [], ◌∷◌, none, some, ◌≡◌, refl, ◌⊎◌,
  inl, inr, arith, length, str_eq, eq_iff, ◌≢◌, ltb→lt, lt→ltb, get_elem?, ◌↔◌, map, if◌then◌else◌,
}
use nats_kafka.Base.Int.{pos}
use nats_kafka.Conf.Clusters.{
  fill_clusters, check_cluster, fill_cluster, check_connectors, check_connector, mem_name,
  has_servers,
}
use nats_kafka.Bridge.Cells.Dial.{
  connect_to_nats, connect_each, configured_cells, named_cells, new_cell, dial_cell, dial_options,
  client_name, join, nkey_options, connect_to_stan, connect_to_jet_stream, connect_each_jet_stream,
}
use nats_kafka.Bridge.Cells.{cell_has_jet_stream, contains, connectors_use_jet_stream}
use nats_kafka.Connector.{create_connector, new_connector, init_connector, titled}
use nats_kafka.Bridge.Server.{create_each}
use nats_kafka.Base.Outcome.{Outcome, ok}
use nats_kafka.Conf.{NatsConfig, BridgeConfig, nats_to_kafka, stan_to_kafka, kafka_to_stan}
use native.Mathlib.Nat.{div-le_of_le-mul, mul-le-mul_right}
use nats_kafka.Conf.Clusters.{validate_nats_clusters, fill_cluster}
use nats_kafka.Conf.Clusters.Laws.{
  IsWired, validate_nats_clusters_iff, validate_nats_clusters_fills, EachFilled,
}
use nats_kafka.Examples.{ops, answers, broker, bridge_config, connector, orders_config}
use nats_kafka.Stats.Float.{FloatLaws}
use nats_kafka.Stats.Histogram.{Histogram, new_histogram}
use nats_kafka.Stats.Histogram.Weights.{Weighs}
use nats_kafka.Stats.Histogram.Bounds.{observe, new_histogram-observe}
use nats_kafka.Bridge.Cells.{Cells, nats_for, check_nats_for}
use nats_kafka.Bridge.Cells.Redial.{Surroundings, redial_cell, begin_redial, needs_dial}
use nats_kafka.Bridge.Cells.Redial.Laws.{AllCurrent, redial_cell-AllCurrent}
use nats_kafka.Bridge.Reconnect.{Bridge, connector_error, queue_connector, ensure_reconnect_timer}
use nats_kafka.Base.Dict.{lookup, has, insert}
use nats_kafka.Connector.Subscribe.{subscribe_to_nats}
use nats_kafka.Stats.Holder.{add_connect}
use nats_kafka.Bridge.Reconnect.Queue.{HasUniqueIds, NoneLost}
use nats_kafka.Bridge.Reconnect.Checks.{Queued}
use nats_kafka.Bridge.Server.{initialize_connectors, Launch, launch_each, start_connectors, stop}
use nats_kafka.Bridge.Server.Starting.{
  Startup, start_bridge, prepare, with_contexts, with_stan, with_clusters, and_then, reset,
  validate, dial_clusters, dial_stan, make_contexts,
}
use nats_kafka.Bridge.Server.Starting.Sound.{start_bridge_lem}
use nats_kafka.Bridge.Server.Invariant.{IsSound}
use nats_kafka.Bridge.Server.Steps.{Step, Steps}
use nats_kafka.Bridge.Server.Startup.{no_connector_lost}
use nats_kafka.Bridge.Server.Stopping.{IsQuiet, stop_is_final}
use nats_kafka.Conf.Values.{map_value, string_value, entry, no_entry}
use nats_kafka.Conf.Parse.{parse_struct}
use nats_kafka.Conf.Load.{load_config_from_file, load_config_from_string}
use nats_kafka.Conf.Reflect.{load_bridge_config}
use nats_kafka.Examples.{conversions}
use nats_kafka.Program.{
  Flags, Environment, initialize_from_flags, apply_config_file, chosen_file, flagged, with_flags,
  new_process, main, hangups,
}
use nats_kafka.Program.Signals.{Succeeds, running_count, hangups-main}
use nats_kafka.Bridge.Server.{new_bridge}
use nats_kafka.Stats.Histogram.{trim_loop, Bin}
use nats_kafka.Stats.Histogram.Termination.{trim_loop_fuel, IsTrimmed}
use nats_kafka.Connector.{Connector, Kind}
use nats_kafka.Connector.Lifecycle.{
  start, shutdown, is_available, start_kind, start_nats2kafka, subscribed,
}
use nats_kafka.Connector.Lifecycle.Laws.{is_active, keeps_durable, is_active-shutdown}

HasUniqueIds-of_one : (c : Connector) → HasUniqueIds (c ∷ [])
HasUniqueIds-of_one c = record { at = at }
  where
    at :
        (i j : ℕ) (n : String)
        → get_elem? (map (λ d. d.stats.stats.id) (c ∷ [])) i ≡ some n
        → get_elem? (map (λ d. d.stats.stats.id) (c ∷ [])) j ≡ some n
        → i ≡ j
    at zero zero n h k = refl
    at zero (suc j) n h k = cc
    at (suc i) j n h k = cc

-- The client of the cluster "east" is connected.
abbrev east : Cells
east = record {
  cells = ("east", record { config = bridge_config.nats; nc = some 4; js = none }) ∷ [];
  stan = none;
}

abbrev launch : Launch
launch = record { answers = λ n. answers; broker = λ n. broker }

abbrev ready : Bridge
ready = record {
  running = true;
  config = bridge_config;
  net = east;
  connectors = connector Kind.nats2kafka ∷ [];
  reconnect = [];
  timer = false;
  stopped = false;
}

abbrev failed_once : Bridge
failed_once = connector_error 0 (start_connectors launch ready).1

no_connector_lost_example :
    NoneLost (Queued failed_once.reconnect) failed_once.connectors
    × ((failed_once.reconnect ≡ []) ⊎ (failed_once.timer ≡ true))
unfolding start_connectors launch_each start start_kind start_nats2kafka subscribed is_available
    subscribe_to_nats nats_for lookup check_nats_for connector_error queue_connector
    ensure_reconnect_timer add_connect has insert shutdown
no_connector_lost_example =
    no_connector_lost launch ready failed_once (HasUniqueIds-of_one (connector Kind.nats2kafka))
      refl refl (Steps.next Steps.here (Step.connector_fails 0 refl)) refl

stop_is_final_example : IsQuiet (connector_error 0 (stop ready))
stop_is_final_example =
    stop_is_final ready (connector_error 0 (stop ready)) refl ((inr (refl, refl, refl), refl), tt)
      (Steps.next Steps.here (Step.connector_fails 0 refl))

-- A connector with a subscription.
abbrev subscribed_connector : Connector
subscribed_connector = record (connector Kind.stan2kafka) { sub = some 7 }

is_active-shutdown_example :
    is_active (shutdown subscribed_connector)
    ≡ (if keeps_durable subscribed_connector then true else false)
is_active-shutdown_example = is_active-shutdown subscribed_connector (inr (refl, refl, refl))

abbrev clustered : BridgeConfig
clustered = record bridge_config {
  nats_clusters = record bridge_config.nats { name = "east"; servers = "nats://a" ∷ [] } ∷ [];
  connect = orders_config ∷ [];
}

differ : (s t : String) → str_eq s t ≡ false → s ≢ t
differ s t h e = ground (arith, eq_iff s t)

clustered-IsWired : IsWired clustered
clustered-IsWired = record {
  default_unnamed = refl;
  clusters_distinct = (λ e. cc, λ e. cc, tt, λ e. cc, tt);
  connectors_refer = (
    inr (
      inl refl,
      differ nats_to_kafka stan_to_kafka refl,
      differ nats_to_kafka kafka_to_stan refl,
    ),
    tt,
  );
}

abbrev startup : Startup
startup = record {
  dialling = answers;
  streaming = answers;
  contexts = answers;
  order = λ m. m;
  fresh = λ i. "id";
  launch = launch;
  monitoring = ok tt;
}

abbrev fresh_bridge : Bridge
fresh_bridge = record ready { running = false; config = clustered; connectors = [] }

start_bridge_lem_example : IsWired clustered × IsSound (start_bridge startup fresh_bridge).1
unfolding start_bridge prepare with_contexts with_stan with_clusters and_then reset validate
    dial_clusters dial_stan make_contexts initialize_connectors start_connectors launch_each start
    start_kind start_nats2kafka subscribed is_available subscribe_to_nats nats_for lookup
    check_nats_for add_connect has insert validate_nats_clusters fill_clusters check_cluster
    fill_cluster check_connectors check_connector mem_name has_servers connect_to_nats connect_each
    configured_cells named_cells new_cell dial_cell dial_options client_name join nkey_options
    connect_to_stan connect_to_jet_stream connect_each_jet_stream cell_has_jet_stream contains
    connectors_use_jet_stream create_connector new_connector init_connector titled create_each
start_bridge_lem_example =
    start_bridge_lem startup fresh_bridge (start_bridge startup fresh_bridge).1 refl
      (HasUniqueIds-of_one _) Steps.here

validate_nats_clusters_iff_example :
    ((validate_nats_clusters clustered).0 ≡ ok tt) ↔ IsWired clustered
validate_nats_clusters_iff_example = validate_nats_clusters_iff clustered

validate_nats_clusters_fills_example :
    (cs : List NatsConfig) × EachFilled clustered.nats clustered.nats_clusters cs
    × ((validate_nats_clusters clustered).1 ≡ record clustered { nats_clusters = cs })
validate_nats_clusters_fills_example = validate_nats_clusters_fills clustered clustered-IsWired

-- No other goroutine touches the cells.
abbrev undisturbed : Surroundings
undisturbed = record {
  answers = answers;
  dialling = λ s. s;
  answers_stored = answers;
  stored = λ s. s;
  answers_last = answers;
}

abbrev dropped : Cells
dropped = record {
  cells = ("east", record { config = bridge_config.nats; nc = none; js = none }) ∷ [];
  stan = none;
}

redial_cell-AllCurrent_example : AllCurrent (redial_cell undisturbed bridge_config "east" dropped).1
unfolding AllCurrent begin_redial needs_dial lookup insert
redial_cell-AllCurrent_example =
    redial_cell-AllCurrent undisturbed bridge_config "east" dropped (λ t h. h) (λ t h. h)
      (λ t d c before behind dials. inr (ground arith)) (inl refl, tt)

-- Times up to 2^63.
abbrev laws : FloatLaws ops
laws = record {
  Within = λ v. v ≤ 2 ^ 63;
  add_counts = λ a b h. refl;
  delta_small = λ u v hu hv. lt→ltb (v - u) (10 ^ 99) (omega arith);
  mean_within = λ u v a b hu hv ha hb h.
      div-le_of_le-mul (a + b) (omega (arith, mul-le-mul_right a hu, mul-le-mul_right b hv));
  lt_irrefl = λ x. ground (arith, ltb→lt x x);
  lt_below = λ x y z h k. ground (arith, ltb→lt y x, lt→ltb z x, ltb→lt z y);
  lt_trans = λ x y z h k. lt→ltb x z (omega (arith, ltb→lt x y h, ltb→lt y z k));
}

new_histogram-observe_example :
    (h : Histogram) × (observe ops laws (30 ∷ 10 ∷ 20 ∷ []) (new_histogram (pos 2)) ≡ ok h)
    × (h.total ≡ 3)
    × (length h.bins ≤ 2)
    × Weighs ops laws h.bins 3
new_histogram-observe_example =
    new_histogram-observe ops laws 2 (30 ∷ 10 ∷ 20 ∷ []) (omega arith) (omega arith)
      (omega arith, (omega arith, (omega arith, tt)))

-- Every file names one NATS server.
abbrev environment : Environment
environment = record {
  config_variable = "bridge.conf";
  conversions = conversions;
  outside = record {
    read_file = λ path. ok "...";
    parse = λ text.
        ok (entry "nats" (map_value (entry "servers" (string_value "nats://a") no_entry)) no_entry);
    abs = λ path. ok path;
    stat = λ path. ok (record { is_regular = true; is_dir = false });
    is_not_exist = λ e. false;
  };
}

abbrev no_flags : Flags
no_flags = record { config_file = ""; debug = false; verbose = true; debug_and_verbose = false }

starts : Succeeds environment no_flags startup
unfolding start_bridge prepare with_contexts with_stan with_clusters and_then reset validate
    dial_clusters dial_stan make_contexts initialize_connectors start_connectors launch_each start
    start_kind start_nats2kafka subscribed is_available subscribe_to_nats nats_for lookup
    check_nats_for add_connect has insert validate_nats_clusters fill_clusters check_cluster
    fill_cluster check_connectors check_connector mem_name has_servers connect_to_nats connect_each
    configured_cells named_cells new_cell dial_cell dial_options client_name join nkey_options
    connect_to_stan connect_to_jet_stream connect_each_jet_stream cell_has_jet_stream contains
    connectors_use_jet_stream create_connector new_connector init_connector titled create_each
    Succeeds initialize_from_flags apply_config_file chosen_file flagged with_flags new_bridge
    load_bridge_config load_config_from_file load_config_from_string parse_struct
starts = (refl, refl)

hangups-main_example :
    running_count
      (hangups environment no_flags
        (startup ∷ startup ∷ startup ∷ [])
        (main environment no_flags startup new_process)).bridges
    ≡ 3
hangups-main_example =
    hangups-main environment no_flags startup (startup ∷ startup ∷ startup ∷ []) starts
      (starts, (starts, (starts, tt)))

abbrev three_bins : List Bin
three_bins =
    record { value = 1; count = 1 }
    ∷ record { value = 5; count = 1 }
    ∷ record { value = 6; count = 2 }
    ∷ []

trim_loop_fuel_example :
    (r : Outcome (List Bin)) × (trim_loop ops 9 (pos 1) three_bins ≡ some r)
    × (trim_loop ops 4 (pos 1) three_bins ≡ some r)
    × IsTrimmed (pos 1) r
trim_loop_fuel_example = trim_loop_fuel ops 9 4 (pos 1) three_bins (omega arith) (omega arith)

-- A timer whose goroutine waits, and one that was cancelled then.
abbrev waiting_timer : Timer
waiting_timer = record { elapsed = false; cancelled = false; waiter = Waiter.selecting }

abbrev cancelled_timer : Timer
cancelled_timer = record { elapsed = false; cancelled = true; waiter = Waiter.selecting }
