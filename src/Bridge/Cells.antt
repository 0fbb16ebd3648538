-- ===== src/Bridge/Cells.antt =====
-- The NATS clusters ("cells") of the bridge and its STAN connection: server/core/nats.go, and the
-- look-ups of server/core/server.go. Each function is what runs while the natsLock is held, so it is
-- one step on the value; `redial_cell` releases the lock to dial, and takes what the other goroutines
-- do meanwhile as an argument.
pub mod Dial
pub mod Redial
use Prim.Native.String.{◌++◌ as append}
use text.Mathlib.Text.{find?}
use nats_kafka.Base.{
  ℕ, String, Bool, true, false, List, [], ◌∷◌, Option, none, some, ◌&&◌, ◌||◌, not, str_eq,
  if◌then◌else◌,
}
use nats_kafka.Base.Outcome.{Outcome, ok, fail, panic, message, ◌>>=◌}
use nats_kafka.Base.Dict.{Dict, lookup, insert}
use nats_kafka.Conf.{NatsConfig, ConnectorConfig, BridgeConfig}
use nats_kafka.Nats.{Status, Answers}

-- A JetStream context is the number of the connection that it was derived from.
pub record Cell : Type 0 where
  pub config : NatsConfig
  pub nc : Option ℕ
  pub js : Option ℕ

pub record Cells : Type 0 where
  pub cells : Dict Cell
  pub stan : Option ℕ

unfoldable pub display_name : Cell → String
display_name c = if str_eq c.config.name "" then "default" else c.config.name

-- `nc.ConnectedUrl() != ""` and `nc.IsClosed()`
abbrev pub is_connected_status : Status → Bool
is_connected_status Status.connected = true
is_connected_status Status.reconnecting = false
is_connected_status Status.closed = false

abbrev pub is_closed_status : Status → Bool
is_closed_status Status.connected = false
is_closed_status Status.reconnecting = false
is_closed_status Status.closed = true

unfoldable pub is_connected : Answers → Cell → Bool
is_connected a c = elim c.nc [ none ↦ false | some k ↦ is_connected_status (a.status k) ]

unfoldable pub nats_for : Cells → String → Option ℕ
nats_for s cluster = elim (lookup cluster s.cells) [ none ↦ none | some c ↦ c.nc ]

unfoldable pub jet_stream_for : Cells → String → Option ℕ
jet_stream_for s cluster = elim (lookup cluster s.cells) [ none ↦ none | some c ↦ c.js ]

unfoldable pub check_nats_for : Answers → Cells → String → Bool
unfolding is_connected
check_nats_for a s cluster = elim (lookup cluster s.cells) [
  | none ↦ false
  | some c ↦ is_connected a c
]

abbrev is_some {ℓ} : {A : Type ℓ} → Option A → Bool
is_some none = false
is_some (some x) = true

abbrev default_down : Answers → Option Cell → Bool
default_down a none = false
default_down a (some c) = is_some c.nc && not (is_connected a c)

unfoldable pub check_stan : Answers → Cells → Bool
unfolding is_connected
check_stan a s = if default_down a (lookup "" s.cells) then false else is_some s.stan

unfoldable pub check_jet_stream_for : Answers → Cells → String → Bool
unfolding is_connected
check_jet_stream_for a s cluster = elim (lookup cluster s.cells) [
  | none ↦ false
  | some c ↦ if not (is_connected a c) then false else is_some c.js
]

-- `strings.Contains(s, t)`
unfoldable pub contains : String → String → Bool
contains s t = is_some (find? s t)

unfoldable pub connectors_use_jet_stream : List ConnectorConfig → String → Bool
unfolding contains
connectors_use_jet_stream [] name = false
connectors_use_jet_stream (c ∷ cs) name =
    if str_eq c.nats_connection name && contains c.type "JetStream"
    then true
    else connectors_use_jet_stream cs name

unfoldable pub cell_has_jet_stream : BridgeConfig → String → Bool
unfolding connectors_use_jet_stream
cell_has_jet_stream b name = connectors_use_jet_stream b.connect name
