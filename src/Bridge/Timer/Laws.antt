-- ===== src/Bridge/Timer/Laws.antt =====
-- What the channel of `After` answers, and that it does.
use nats_kafka.Base.{Bool, true, false, ◌≡◌}
use nats_kafka.Bridge.Timer.{Waiter, Timer, Steps}

-- What a value tells: true that the time is over, false that the timer was cancelled.
unfoldable pub Tells : Bool → Timer → Type 0
Tells true s = s.elapsed ≡ true
Tells false s = s.cancelled ≡ true

-- The value that the goroutine has chosen tells the truth.
Sound : Waiter → Timer → Type 0
unfolding Tells
Sound Waiter.absent s = Unit {0}
Sound Waiter.selecting s = Unit {0}
Sound (Waiter.sending b) s = Tells b s
Sound (Waiter.answered b) s = Tells b s

-- A value can be received, and it tells the truth.
pub WillAnswer : Timer → Type 0
unfolding Tells
WillAnswer s = (b : Bool) × (s' : Timer) × Steps s s' × (s'.waiter ≡ Waiter.answered b) × Tells b s'
