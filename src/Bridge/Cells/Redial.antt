-- ===== src/Bridge/Cells/Redial.antt =====
-- `redialCell` of server/core/nats.go: a cell whose client is missing or closed is dialled again, with
-- the natsLock released for the dial.
pub mod Laws
use nats_kafka.Base.{
  ℕ, String, Bool, true, false, Option, none, some, not, ◌&&◌, ◌||◌, if◌then◌else◌,
}
use nats_kafka.Base.Outcome.{Outcome, ok, fail, panic, message, ◌>>=◌}
use nats_kafka.Base.Dict.{Dict, lookup, insert}
use nats_kafka.Conf.{BridgeConfig}
use nats_kafka.Nats.{Answers}
use nats_kafka.Bridge.Cells.{Cell, Cells, is_closed_status, cell_has_jet_stream}
use nats_kafka.Bridge.Cells.Dial.{dial_cell, connect_cell_jet_stream}

-- `cell.nc == nil || cell.nc.IsClosed()`
unfoldable pub needs_dial : Answers → Cell → Bool
needs_dial a c = elim c.nc [ none ↦ true | some k ↦ is_closed_status (a.status k) ]

-- `cell.js == nil`
abbrev pub no_context : Cell → Bool
no_context c = elim c.js [ none ↦ true | some k ↦ false ]

-- The last locked section: the JetStream context, where one is needed and missing.
pub ensure_jet_stream : Answers → BridgeConfig → String → Cells → Outcome (Unit {0}) × Cells
ensure_jet_stream a b name s = elim (lookup name s.cells) [
  | none ↦ (ok tt, s)
  | some c ↦
      if no_context c && cell_has_jet_stream b c.config.name
      then elim (connect_cell_jet_stream a b c) [
        | Outcome.ok c' ↦ (ok tt, record s { cells = insert name c' s.cells })
        | Outcome.fail e ↦ (fail e, s)
        | Outcome.panic ↦ (panic, s)
      ]
      else (ok tt, s)
]

-- The first locked section: whether a dial is needed, in which case the old context is dropped.
unfoldable pub begin_redial : Answers → String → Cell → Cells → Bool × Cells
unfolding needs_dial
begin_redial a name c s =
    if needs_dial a c
    then (true, record s { cells = insert name (record c { js = none }) s.cells })
    else (false, s)

-- The section behind the dial: the new connection `k` is stored, unless another goroutine has made
-- one meanwhile; then the new one is closed and the function returns.
pub store_dialled : Answers → String → ℕ → Cells → Bool × Cells
unfolding needs_dial
store_dialled a name k s = elim (lookup name s.cells) [
  | none ↦ (true, s)
  | some c ↦
      if needs_dial a c
      then (true, record s { cells = insert name (record c { nc = some k }) s.cells })
      else (false, s)
]

-- What surrounds the sections: the libraries' answers in each of the three locked sections, and what
-- the other goroutines do to the cells at the two points where the lock is free. A cell that they
-- drop from the map is a pointer that nothing reaches: writing to it changes nothing.
pub record Surroundings : Type 0 where
  pub answers : Answers
  pub dialling : Cells → Cells
  pub answers_stored : Answers
  pub stored : Cells → Cells
  pub answers_last : Answers

pub finish_redial : Surroundings → BridgeConfig → String → ℕ → Cells → Outcome (Unit {0}) × Cells
unfolding store_dialled
finish_redial w b name k s =
    let (go_on, s') = store_dialled w.answers_stored name k s in
    if go_on then ensure_jet_stream w.answers_last b name (w.stored s') else (ok tt, s')

pub redial_cell : Surroundings → BridgeConfig → String → Cells → Outcome (Unit {0}) × Cells
unfolding begin_redial finish_redial
redial_cell w b name s = elim (lookup name s.cells) [
  | none ↦ (fail (message "unknown nats cluster %q"), s)
  | some c ↦
      let (dial, s') = begin_redial w.answers name c s in
      if dial
      then elim (dial_cell w.answers c) [
        | Outcome.ok k ↦ finish_redial w b name k (w.dialling s')
        | Outcome.fail e ↦ (fail e, w.dialling s')
        | Outcome.panic ↦ (panic, w.dialling s')
      ]
      else ensure_jet_stream w.answers_last b name s'
]
