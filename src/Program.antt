-- ===== src/Program.antt =====
-- main.go, with `Flags` of server/core/flags.go and `InitializeFromFlags`, `ApplyConfigFile` and
-- `logErrorFatal`. What is logged and printed is left out.
pub mod Signals
pub mod Settings
use nats_kafka.Base.{
  ℕ, suc, zero, ◌+◌, String, Bool, true, false, List, [], ◌∷◌, ◌++◌, Option, none, some, ◌||◌,
  str_eq, if◌then◌else◌, get_elem?, set, length,
}
use nats_kafka.Base.Outcome.{Error, Outcome, ok, fail, panic, message, ◌>>=◌}
use nats_kafka.Conf.{BridgeConfig, LoggingConfig, default_bridge_config}
use nats_kafka.Conf.Parse.{Conversions}
use nats_kafka.Conf.Load.{Outside}
use nats_kafka.Conf.Reflect.{load_bridge_config}
use nats_kafka.Bridge.Reconnect.{Bridge}
use nats_kafka.Bridge.Server.{new_bridge, stop}
use nats_kafka.Bridge.Server.Starting.{Startup, start_bridge}

pub record Flags : Type 0 where
  pub config_file : String
  pub debug : Bool
  pub verbose : Bool
  pub debug_and_verbose : Bool

-- What the process finds outside: `$NATS_KAFKA_BRIDGE_CONFIG`, empty if it is not set, and the files, with
-- the parser that reads them.
pub record Environment : Type 0 where
  pub config_variable : String
  pub conversions : Conversions
  pub outside : Outside

unfoldable pub chosen_file : Environment → String → String
chosen_file e file = if str_eq file "" then e.config_variable else file

unfoldable pub apply_config_file :
    Environment → String → BridgeConfig → Outcome (Unit {0}) × BridgeConfig
unfolding chosen_file
apply_config_file e file c =
    if str_eq (chosen_file e file) ""
    then (fail (message "no config file specified"), c)
    else load_bridge_config e.conversions e.outside (chosen_file e file) c

unfoldable pub with_flags : Flags → BridgeConfig → BridgeConfig
with_flags f c = record c {
  logging = record c.logging {
    debug = f.debug || f.debug_and_verbose || c.logging.debug;
    trace = f.verbose || f.debug_and_verbose || c.logging.trace;
  };
}

unfoldable pub flagged :
    Flags → Outcome (Unit {0}) × BridgeConfig → Outcome (Unit {0}) × BridgeConfig
unfolding with_flags
flagged f (ok u, c) = (ok tt, with_flags f c)
flagged f (fail e, c) = (fail e, c)
flagged f (panic, c) = (panic, c)

unfoldable pub initialize_from_flags : Environment → Flags → Bridge → Outcome (Unit {0}) × Bridge
unfolding apply_config_file flagged
initialize_from_flags e f b =
    let (r, c) = flagged f (apply_config_file e f.config_file default_bridge_config) in
    (r, record b { config = c })

-- The process: the bridges that were made, in that order, the one that the variable `server` of `main`
-- points to, by its place, and whether `os.Exit` was called.
pub record Process : Type 0 where
  pub bridges : List Bridge
  pub server : Option ℕ
  pub exited : Bool

pub new_process : Process
new_process = record { bridges = []; server = none; exited = false }

pub data Signal : Type 0 where
  interrupt hangup : Signal

-- `logErrorFatal` stops the bridge and leaves the process; a panic ends it as it is.
pub left : List Bridge → Option ℕ → Bridge → Process
left others server b = record { bridges = others ++ stop b ∷ []; server = server; exited = true }

pub crashed : List Bridge → Option ℕ → Process
crashed bridges server = record { bridges = bridges; server = server; exited = true }

pub started : List Bridge → Option ℕ → Outcome (Unit {0}) × Bridge → Process
unfolding left crashed
started others server (ok u, b) = record {
  bridges = others ++ b ∷ [];
  server = server;
  exited = false;
}
started others server (fail e, b) = left others server b
started others server (panic, b) = crashed (others ++ b ∷ []) server

pub initialized : Startup → List Bridge → Option ℕ → Outcome (Unit {0}) × Bridge → Process
unfolding started
initialized u others server (ok _, b) = started others server (start_bridge u b)
initialized u others server (fail e, b) = left others server b
initialized u others server (panic, b) = crashed (others ++ b ∷ []) server

-- A new bridge is configured and started.
unfoldable pub bring_up : Environment → Flags → Startup → List Bridge → Option ℕ → Process
unfolding initialize_from_flags initialized
bring_up e f u others server = initialized u others server (initialize_from_flags e f new_bridge)

-- `main` up to `Goexit`.
unfoldable pub main : Environment → Flags → Startup → Process → Process
unfolding bring_up
main e f u p = bring_up e f u p.bridges (some (length p.bridges))

-- The turn of the signal handler for a bridge that `server` points to. On SIGHUP it declares a `server` of its own for the new bridge, so
-- that the variable of `main` stays as it is.
unfoldable pub on_bridge : Environment → Flags → Startup → Signal → Process → ℕ → Bridge → Process
unfolding bring_up crashed
on_bridge e f u Signal.interrupt p i b = crashed (set p.bridges i (stop b)) p.server
on_bridge e f u Signal.hangup p i b = bring_up e f u (set p.bridges i (stop b)) p.server

-- One turn; `server.Logger()` of a nil pointer panics.
unfoldable pub on_signal : Environment → Flags → Startup → Signal → Process → Process
unfolding on_bridge
on_signal e f u s p = if p.exited then p else elim p.server [
  | none ↦ crashed p.bridges none
  | some i ↦ elim (get_elem? p.bridges i) [ none ↦ p | some b ↦ on_bridge e f u s p i b ]
]

-- A SIGHUP for each start.
pub hangups : Environment → Flags → List Startup → Process → Process
unfolding on_signal
hangups e f [] p = p
hangups e f (u ∷ us) p = hangups e f us (on_signal e f u Signal.hangup p)
