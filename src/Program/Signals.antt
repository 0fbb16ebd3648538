-- ===== src/Program/Signals.antt =====
-- How many bridges a process runs.
use nats_kafka.Base.{
  ℕ, suc, ◌+◌, true, false, not, List, [], ◌∷◌, ◌++◌, Option, some, ◌≡◌, refl, ap, ◌∙◌, All, length,
  ◌==◌, if◌then◌else◌, Bool-cases, inl, inr, arith,
}
use nats_kafka.Base.Outcome.{Outcome, ok, fail, panic}
use nats_kafka.Bridge.Reconnect.{Bridge, ensure_reconnect_timer, stop_reconnect_timer}
use nats_kafka.Bridge.Server.{new_bridge, stop, initialize_connectors, start_connectors}
use nats_kafka.Bridge.Server.Starting.{
  Startup, and_then, reset, validate, dial_clusters, dial_stan, make_contexts, with_clusters,
  with_stan, with_contexts, prepare, start_bridge,
}
use nats_kafka.Program.{
  Flags, Environment, Process, new_process, initialize_from_flags, started, initialized, bring_up,
  main, on_bridge, on_signal, hangups,
}

Keeps : (Bridge → Outcome (Unit {0}) × Bridge) → Type 0
Keeps f = (b : Bridge) → (f b).1.running ≡ b.running

and_then-running :
    (p : Outcome (Unit {0}) × Bridge) (f : Bridge → Outcome (Unit {0}) × Bridge)
    → Keeps f
    → (and_then p f).1.running ≡ p.1.running
unfolding and_then Keeps
and_then-running (ok u, b) f keeps = keeps b
and_then-running (fail e, b) f keeps = refl
and_then-running (panic, b) f keeps = refl

dial_clusters-running : (u : Startup) → Keeps (dial_clusters u)
unfolding dial_clusters Keeps
dial_clusters-running u b = elim (Bool-cases (not b.running)) [
  | inl off ↦ rw off refl
  | inr on ↦ rw on refl
]

start_connectors-running : (u : Startup) → Keeps (start_connectors u.launch)
unfolding start_connectors ensure_reconnect_timer Keeps
start_connectors-running u b = ground arith

-- A bridge runs behind `Start`, whatever that came to.
start_bridge-running : (u : Startup) (b : Bridge) → (start_bridge u b).1.running ≡ true
unfolding start_bridge prepare with_contexts with_stan with_clusters dial_stan make_contexts
    initialize_connectors validate reset Keeps
start_bridge-running u b =
    and_then-running (and_then (prepare u b) (start_connectors u.launch)) (λ b'. (u.monitoring, b'))
      (λ b'. refl)
    ∙ and_then-running (prepare u b) (start_connectors u.launch) (start_connectors-running u)
    ∙ and_then-running (with_contexts u b) (initialize_connectors u.fresh) (λ b'. refl)
    ∙ and_then-running (with_stan u b) (make_contexts u) (λ b'. refl)
    ∙ and_then-running (with_clusters u b) (dial_stan u) (λ b'. refl)
    ∙ and_then-running (validate (reset b)) (dial_clusters u) (dial_clusters-running u)

-- The bridges that run.
pub running_count : List Bridge → ℕ
running_count [] = 0
running_count (b ∷ bs) = let rest = running_count bs in if b.running then suc rest else rest

-- The flags give a configuration, and `Start` returns no error on it.
unfoldable pub Succeeds : Environment → Flags → Startup → Type 0
Succeeds e f u =
    ((initialize_from_flags e f new_bridge).0 ≡ ok tt)
    × ((start_bridge u (initialize_from_flags e f new_bridge).1).0 ≡ ok tt)

running_count-append :
    (bs cs : List Bridge) → running_count (bs ++ cs) ≡ running_count bs + running_count cs
unfolding running_count
running_count-append [] cs = omega arith
running_count-append (b ∷ bs) cs = let rest = running_count-append bs cs in ground (arith, rest)

started_ok :
    (others : List Bridge) (server : Option ℕ) (r : Outcome (Unit {0}) × Bridge)
    → r.0 ≡ ok tt
    → started others server r
      ≡ record { bridges = others ++ r.1 ∷ []; server = server; exited = false }
unfolding started
started_ok others server (ok u, b) h = refl
started_ok others server (fail e, b) h = cc
started_ok others server (panic, b) h = cc

initialized_ok :
    (u : Startup) (others : List Bridge) (server : Option ℕ) (r : Outcome (Unit {0}) × Bridge)
    → r.0 ≡ ok tt
    → initialized u others server r ≡ started others server (start_bridge u r.1)
unfolding initialized
initialized_ok u others server (ok _, b) h = refl
initialized_ok u others server (fail e, b) h = cc
initialized_ok u others server (panic, b) h = cc

bring_up_ok :
    (e : Environment) (f : Flags) (u : Startup) (others : List Bridge) (server : Option ℕ)
    → Succeeds e f u
    → (b : Bridge) × (b.running ≡ true)
      × (bring_up e f u others server
          ≡ record { bridges = others ++ b ∷ []; server = server; exited = false })
unfolding bring_up Succeeds
bring_up_ok e f u others server (configured, runs) =
    let b = (initialize_from_flags e f new_bridge).1 in
    (
      (start_bridge u b).1,
      start_bridge-running u b,
      initialized_ok u others server (initialize_from_flags e f new_bridge) configured
          ∙ started_ok others server (start_bridge u b) runs,
    )

-- The process with the bridge of `main` first.
abbrev at_first : Bridge → List Bridge → Process
at_first b bs = record { bridges = b ∷ bs; server = some 0; exited = false }

stop-running : (b : Bridge) → (stop b).running ≡ false
unfolding stop stop_reconnect_timer
stop-running b = ground arith

hangups-running_count :
    (e : Environment) (f : Flags) (us : List Startup) (b : Bridge) (bs : List Bridge)
    → All (Succeeds e f) us
    → b.running ≡ false
    → running_count (hangups e f us (at_first b bs)).bridges ≡ running_count bs + length us
unfolding hangups on_signal on_bridge running_count
hangups-running_count e f [] b bs h off = rw off (omega arith)
hangups-running_count e f (u ∷ us) b bs h off =
    let (b', on, next) = bring_up_ok e f u (stop b ∷ bs) (some 0) h.0 in
    let rest = hangups-running_count e f us (stop b) (bs ++ b' ∷ []) h.1 (stop-running b) in
    let one : running_count (b' ∷ []) ≡ 1 = rw on refl in
    let sum = running_count-append bs (b' ∷ []) in
    ap (λ p. running_count (hangups e f us p).bridges) next ∙ rest ∙ omega arith

-- After a start and a number of SIGHUPs, each of which is answered with a bridge that starts, the process
-- runs one bridge if that number is 0 or 1, and as many as there were SIGHUPs otherwise.
pub hangups-main :
    (e : Environment) (f : Flags) (u : Startup) (us : List Startup)
    → Succeeds e f u
    → All (Succeeds e f) us
    → running_count (hangups e f us (main e f u new_process)).bridges
      ≡ (if length us == 0 then 1 else length us)
unfolding main new_process hangups on_signal on_bridge running_count
hangups-main e f u [] h hs =
    let (b, on, up) = bring_up_ok e f u [] (some 0) h in
    ap (λ p. running_count p.bridges) up ∙ rw on refl
hangups-main e f u (v ∷ vs) h hs =
    let (b, on, up) = bring_up_ok e f u [] (some 0) h in
    let (b', on', next) = bring_up_ok e f v (stop b ∷ []) (some 0) hs.0 in
    let rest = hangups-running_count e f vs (stop b) (b' ∷ []) hs.1 (stop-running b) in
    let one : running_count (b' ∷ []) ≡ 1 = rw on' refl in
    let several : (suc (length vs) == 0) ≡ false = ground arith in
    ap (λ p. running_count (hangups e f (v ∷ vs) p).bridges) up
    ∙ ap (λ p. running_count (hangups e f vs p).bridges) next
    ∙ rest
    ∙ rw several (omega arith)
