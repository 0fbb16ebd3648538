-- ===== src/Conf/Clusters.antt =====
-- `ValidateNATSClusters`: the checks on the named clusters and on the connectors' references, and the
-- defaults that a named cluster takes over from the default one. The clusters are filled in place,
-- so those in front of a refused one are filled in the configuration that comes back.
pub mod Laws
use nats_kafka.Base.{ℕ, String, Bool, true, false, List, [], ◌∷◌, not, ◌||◌, str_eq, if◌then◌else◌}
use nats_kafka.Base.Int.{pos, eqb_ℤ}
use nats_kafka.Base.Outcome.{Outcome, ok, fail, message, ◌>>=◌, ◌>>◌, guard}
use nats_kafka.Conf.{NatsConfig, ConnectorConfig, BridgeConfig, stan_to_kafka, kafka_to_stan}

-- The keys of the map `names`.
abbrev pub Names : Type 0
Names = List String

unfoldable pub mem_name : String → Names → Bool
mem_name n [] = false
mem_name n (m ∷ ms) = str_eq n m || mem_name n ms

unfoldable pub has_servers : List String → Bool
has_servers [] = false
has_servers (s ∷ ss) = true

-- The tests on one entry, in the order of the source. A text is empty if it equals "".
unfoldable pub check_cluster : Names → NatsConfig → Outcome (Unit {0})
unfolding has_servers
check_cluster names c = do
  guard (not (str_eq c.name "")) (message "natsclusters entry %d is missing a name")
  guard (not (str_eq c.name "default"))
      (message "natsclusters name %q is reserved for the default nats block")
  guard (not (mem_name c.name names)) (message "duplicate natsclusters name %q")
  guard (has_servers c.servers) (message "natsclusters entry %q has no servers")

unfoldable pub fill_cluster : NatsConfig → NatsConfig → NatsConfig
fill_cluster d c = record c {
  client_name = if str_eq c.client_name "" then d.client_name else c.client_name;
  connect_timeout =
      if eqb_ℤ c.connect_timeout (pos 0) then d.connect_timeout else c.connect_timeout;
  reconnect_wait = if eqb_ℤ c.reconnect_wait (pos 0) then d.reconnect_wait else c.reconnect_wait;
  max_reconnects = if eqb_ℤ c.max_reconnects (pos 0) then d.max_reconnects else c.max_reconnects;
}

-- Over the clusters, with the names met so far: the names at the end, and the clusters filled.
unfoldable pub fill_clusters :
    NatsConfig → Names → List NatsConfig → Outcome Names × List NatsConfig
fill_clusters d names [] = (ok names, [])
fill_clusters d names (c ∷ cs) =
    let rest = fill_clusters d (c.name ∷ names) cs in
    elim (check_cluster names c) [
      | Outcome.ok _ ↦ (rest.0, fill_cluster d c ∷ rest.1)
      | Outcome.fail e ↦ (fail e, c ∷ cs)
      | Outcome.panic ↦ (Outcome.panic, c ∷ cs)
    ]

unfoldable pub check_connector : Names → ConnectorConfig → Outcome (Unit {0})
check_connector names c = if str_eq c.nats_connection "" then ok tt else do
  guard (mem_name c.nats_connection names)
      (message "connector %q (type %q) references unknown natsconnection %q")
  guard (not (str_eq c.type stan_to_kafka || str_eq c.type kafka_to_stan))
      (message "connector %q (type %q) cannot set natsconnection")

unfoldable pub check_connectors : Names → List ConnectorConfig → Outcome (Unit {0})
check_connectors names [] = ok tt
check_connectors names (c ∷ cs) = do check_connector names c; check_connectors names cs

-- The error, if any, and the configuration afterwards.
unfoldable pub validate_nats_clusters : BridgeConfig → Outcome (Unit {0}) × BridgeConfig
validate_nats_clusters b =
    if not (str_eq b.nats.name "")
    then (fail (message "the default nats block must not set a name, found %q"), b)
    else let filled = fill_clusters b.nats [] b.nats_clusters in
      (
        filled.0 >>= (λ names. check_connectors names b.connect),
        record b { nats_clusters = filled.1 },
      )
