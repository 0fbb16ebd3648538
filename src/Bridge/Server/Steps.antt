-- ===== src/Bridge/Server/Steps.antt =====
-- What can happen to a bridge that has been started, as steps. The locks make each of them atomic; a
-- goroutine that has passed `checkRunning` and waits for the reconnectLock may act late, when the
-- bridge has been stopped meanwhile, and so may the goroutine of a timer. `natsClosed` is `nats_lost`
-- for a named cluster and `stops` for the default one.
use nats_kafka.Base.{ℕ, ◌≡◌}
use nats_kafka.Base.Outcome.{ok}
use nats_kafka.Nats.{Answers}
use nats_kafka.Bridge.Reconnect.{
  Bridge, Pass, connector_error, queue_connector, requeue, stan_connection_lost, nats_disconnected,
  timer_fires,
}
use nats_kafka.Bridge.Server.{stop}

pub data Step (b b' : Bridge) : Type 0 where
  connector_fails : (k : ℕ) → b' ≡ connector_error k b → Step b b'
  connector_failed_late : (k : ℕ) → b' ≡ queue_connector k b → Step b b'
  stan_lost : (a : Answers) → b' ≡ stan_connection_lost a b → Step b b'
  nats_lost : (a : Answers) → b' ≡ nats_disconnected a b → Step b b'
  checked_late : (a : Answers) → b' ≡ requeue a b → Step b b'
  fired : (p : Pass) → timer_fires p b ≡ ok b' → Step b b'
  stops : b' ≡ stop b → Step b b'

pub data Steps (b : Bridge) : Bridge → Type 0 where
  here : Steps b b
  next : {c d : Bridge} → Steps b c → Step c d → Steps b d
