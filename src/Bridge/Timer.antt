-- ===== src/Bridge/Timer.antt =====
-- server/core/reconnecttimer.go: the channels of one timer, and the goroutine that waits for them.
pub mod Laws
use nats_kafka.Base.{Bool, true, false, ◌≡◌, if◌then◌else◌}
use nats_kafka.Base.Outcome.{Outcome, ok, panic}

-- The goroutine of `After`: not there yet, at its `select`, at `ch <- b`, or gone once `b` was received.
pub data Waiter : Type 0 where
  absent selecting : Waiter
  sending answered : Bool → Waiter

-- `reconnectTimer`: whether the time is over, whether `cancel` is closed, and the goroutine.
pub record Timer : Type 0 where
  pub elapsed : Bool
  pub cancelled : Bool
  pub waiter : Waiter

unfoldable pub new_timer : Timer
new_timer = record { elapsed = false; cancelled = false; waiter = Waiter.absent }

-- `Cancel`; to close a channel twice is a panic.
unfoldable pub cancel : Timer → Outcome Timer
cancel s = if s.cancelled then panic else ok (record s { cancelled = true })

-- What can happen; `ch` has no buffer, so a value is sent when it is received.
pub data Step (s s' : Timer) : Type 0 where
  after : s.waiter ≡ Waiter.absent → s' ≡ record s { waiter = Waiter.selecting } → Step s s'
  -- the clock of `time.After`, which runs once the goroutine is at its `select`
  elapses : s.waiter ≡ Waiter.selecting → s' ≡ record s { elapsed = true } → Step s s'
  cancels : cancel s ≡ ok s' → Step s s'
  fires :
      s.waiter ≡ Waiter.selecting
      → s.elapsed ≡ true
      → s' ≡ record s { waiter = Waiter.sending true }
      → Step s s'
  gives_up :
      s.waiter ≡ Waiter.selecting
      → s.cancelled ≡ true
      → s' ≡ record s { waiter = Waiter.sending false }
      → Step s s'
  receives :
      (b : Bool)
      → s.waiter ≡ Waiter.sending b
      → s' ≡ record s { waiter = Waiter.answered b }
      → Step s s'

pub data Steps (s : Timer) : Timer → Type 0 where
  here : Steps s s
  next : {m e : Timer} → Steps s m → Step m e → Steps s e
