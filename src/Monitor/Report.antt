-- ===== src/Monitor/Report.antt =====
-- The statistics that `HandleVarz` answers with: `stats` of server/core/monitoring.go,
-- `natsConnectionStats` of server/core/server.go, and `BridgeStats` of server/core/stats.go.
pub mod Totals
use Prim.Native.String.{[] as empty, ◌∷◌ as char}
use Prim.Native.Char.{code}
use nats_kafka.Base.{
  ℕ, ◌+◌, String, Bool, true, false, List, [], ◌∷◌, ltb, ◌==◌, Option, none, some, if◌then◌else◌,
}
use nats_kafka.Base.Int.{ℤ}
use nats_kafka.Base.Dict.{Dict, insert}
use nats_kafka.Nats.{Answers}
use nats_kafka.Stats.Float.{FloatOps}
use nats_kafka.Stats.Holder.{ConnectorStats, read_stats}
use nats_kafka.Bridge.Cells.{Cell, display_name, is_connected}
use nats_kafka.Connector.{Connector}

pub record NatsConnectionStats : Type 0 where
  pub name : String
  pub connected : Bool
  pub connected_url : String

pub record BridgeStats : Type 0 where
  pub start_time : ℤ
  pub server_time : ℤ
  pub up_time : String
  pub request_count : ℕ
  pub nats : List NatsConnectionStats
  pub connections : List ConnectorStats
  pub http_requests : Dict ℕ

-- `s < t` of strings. The order of code points is that of the bytes in UTF-8.
unfoldable pub string_lt : String → String → Bool
string_lt empty empty = false
string_lt empty (char d t) = true
string_lt (char c s) empty = false
string_lt (char c s) (char d t) =
    let rest = string_lt s t in
    if ltb (code c) (code d) then true else if code c == code d then rest else false

-- `connected_url` is `ConnectedUrl` of a connection, and `sort_slice` is `sort.Slice` by the order given.
module _ (a : Answers) (connected_url : ℕ → String)
    (sort_slice : (NatsConnectionStats → NatsConnectionStats → Bool)
      → List NatsConnectionStats
      → List NatsConnectionStats) where
  pub cell_stats : Cell → NatsConnectionStats
  unfolding display_name is_connected
  cell_stats c = record {
    name = display_name c;
    connected = is_connected a c;
    connected_url = elim c.nc [ none ↦ "" | some k ↦ connected_url k ];
  }

  -- The loop over the map of cells, in the order of its entries.
  pub each_cell : Dict Cell → List NatsConnectionStats
  unfolding cell_stats
  each_cell [] = []
  each_cell ((name, c) ∷ cells) = cell_stats c ∷ each_cell cells

  pub nats_connection_stats : Dict Cell → List NatsConnectionStats
  unfolding each_cell string_lt
  nats_connection_stats cells = sort_slice (λ x y. string_lt x.name y.name) (each_cell cells)

-- The loop over the connectors, with `count` the requests so far. Reading a holder stores what is read.
pub each_connector : FloatOps → ℕ → List Connector → ℕ × List ConnectorStats × List Connector
each_connector f count [] = (count, [], [])
each_connector f count (c ∷ cs) =
    let (s, h) = read_stats f c.stats in
    let (total, ss, cs') = each_connector f (count + s.request_count) cs in
    (total, s ∷ ss, record c { stats = h } ∷ cs')

-- The loop that copies the counters of the requests.
pub copy_into : Dict ℕ → Dict ℕ → Dict ℕ
copy_into copy [] = copy
copy_into copy ((k, v) ∷ d) = copy_into (insert k v copy) d

-- The clock: the time of the start and now, in seconds, and the text of their difference.
pub record Clock : Type 0 where
  pub started : ℤ
  pub now : ℤ
  pub elapsed : String

pub bridge_stats :
    FloatOps
    → Clock
    → List NatsConnectionStats
    → Dict ℕ
    → List Connector
    → BridgeStats × List Connector
unfolding each_connector copy_into
bridge_stats f clock nats http_req_stats cs =
    let (total, ss, cs') = each_connector f 0 cs in
    (
      record {
        start_time = clock.started;
        server_time = clock.now;
        up_time = clock.elapsed;
        request_count = total;
        nats = nats;
        connections = ss;
        http_requests = copy_into [] http_req_stats;
      },
      cs',
    )
