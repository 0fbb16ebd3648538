-- ===== src/Bridge/Server/Starting/Sound.antt =====
-- What holds after `Start`.
use nats_kafka.Base.{ℕ, String, [], ◌≡◌, refl, sym, ap, ◌∙◌, subst, Bool-cases, inl, inr, not}
use nats_kafka.Base.Outcome.{Outcome, ok, fail, panic}
use nats_kafka.Bridge.Reconnect.{Bridge}
use nats_kafka.Bridge.Reconnect.Queue.{ids, HasUniqueIds}
use nats_kafka.Bridge.Server.{initialize_connectors, start_connectors}
use nats_kafka.Bridge.Server.Steps.{Steps}
use nats_kafka.Bridge.Server.Invariant.{IsSound, Steps-IsSound}
use nats_kafka.Bridge.Server.Startup.{start_connectors-IsSound, ids-start_connectors}
use nats_kafka.Conf.Clusters.Laws.{IsWired, validate_nats_clusters_iff}
use nats_kafka.Bridge.Server.Starting.{
  Startup, and_then, reset, validate, dial_clusters, dial_stan, make_contexts, with_clusters,
  with_stan, with_contexts, prepare, start_bridge,
}

and_then-ok :
    (p : Outcome (Unit {0}) × Bridge) (f : Bridge → Outcome (Unit {0}) × Bridge)
    → (and_then p f).0 ≡ ok tt
    → (p.0 ≡ ok tt) × (and_then p f ≡ f p.1)
unfolding and_then
and_then-ok (ok u, b) f h = (refl, refl)
and_then-ok (fail e, b) f h = cc
and_then-ok (panic, b) f h = cc

-- The restart queue stays empty up to the start of the connectors.
and_then-empty :
    (p : Outcome (Unit {0}) × Bridge) (f : Bridge → Outcome (Unit {0}) × Bridge)
    → ((b : Bridge) → (f b).1.reconnect ≡ b.reconnect)
    → p.1.reconnect ≡ []
    → (and_then p f).1.reconnect ≡ []
unfolding and_then
and_then-empty (ok u, b) f keeps h = keeps b ∙ h
and_then-empty (fail e, b) f keeps h = h
and_then-empty (panic, b) f keeps h = h

dial_clusters_keeps : (u : Startup) (b : Bridge) → (dial_clusters u b).1.reconnect ≡ b.reconnect
unfolding dial_clusters
dial_clusters_keeps u b = elim (Bool-cases (not b.running)) [
  | inl off ↦ rw off refl
  | inr on ↦ rw on refl
]

dial_stan_keeps : (u : Startup) (b : Bridge) → (dial_stan u b).1.reconnect ≡ b.reconnect
unfolding dial_stan
dial_stan_keeps u b = refl

make_contexts_keeps : (u : Startup) (b : Bridge) → (make_contexts u b).1.reconnect ≡ b.reconnect
unfolding make_contexts
make_contexts_keeps u b = refl

reset-validate_empty : (b : Bridge) → (validate (reset b)).1.reconnect ≡ []
unfolding reset validate
reset-validate_empty b = refl

initialize_connectors_keeps :
    (fresh : ℕ → String) (b : Bridge) → (initialize_connectors fresh b).1.reconnect ≡ b.reconnect
unfolding initialize_connectors
initialize_connectors_keeps fresh b = refl

prepare-empty : (u : Startup) (b : Bridge) → (prepare u b).1.reconnect ≡ []
unfolding prepare with_contexts with_stan with_clusters
prepare-empty u b =
    let clusters =
      and_then-empty (validate (reset b)) (dial_clusters u) (dial_clusters_keeps u)
        (reset-validate_empty b) in
    let streaming = and_then-empty (with_clusters u b) (dial_stan u) (dial_stan_keeps u) clusters in
    let contexts =
      and_then-empty (with_stan u b) (make_contexts u) (make_contexts_keeps u) streaming in
    and_then-empty (with_contexts u b) (initialize_connectors u.fresh)
      (initialize_connectors_keeps u.fresh) contexts

validate-IsWired : (b : Bridge) → (validate (reset b)).0 ≡ ok tt → IsWired b.config
unfolding reset validate
validate-IsWired b h = (validate_nats_clusters_iff b.config).0 h

prepare-IsWired : (u : Startup) (b : Bridge) → (prepare u b).0 ≡ ok tt → IsWired b.config
unfolding prepare with_contexts with_stan with_clusters
prepare-IsWired u b h =
    let contexts = (and_then-ok (with_contexts u b) (initialize_connectors u.fresh) h).0 in
    let streaming = (and_then-ok (with_stan u b) (make_contexts u) contexts).0 in
    let clusters = (and_then-ok (with_clusters u b) (dial_stan u) streaming).0 in
    validate-IsWired b (and_then-ok (validate (reset b)) (dial_clusters u) clusters).0

-- If `Start` returns no error, from whatever state an earlier run has left, the configuration was wired
-- correctly; and if its connectors have distinct identifiers, every state that steps lead to is sound:
-- until the bridge is stopped, each connector is active or queued, and a queue that is not empty has
-- its timer.
pub start_bridge_lem :
    (u : Startup) (b b' : Bridge)
    → (start_bridge u b).0 ≡ ok tt
    → HasUniqueIds (start_bridge u b).1.connectors
    → Steps (start_bridge u b).1 b'
    → IsWired b.config × IsSound b'
unfolding start_bridge
start_bridge_lem u b b' done unique steps =
    let (h6, last) =
      and_then-ok (and_then (prepare u b) (start_connectors u.launch)) (λ x. (u.monitoring, x))
        done in
    let (h5, run) = and_then-ok (prepare u b) (start_connectors u.launch) h6 in
    let state = ap (λ p. p.1) last ∙ ap (λ p. p.1) run in
    let empty = prepare-empty u b in
    let started = ap (λ p. p.0) (sym run) ∙ h6 in
    let same =
      ap (λ x. ids x.connectors) state
      ∙ ids-start_connectors u.launch (prepare u b).1 empty started in
    let sound =
      start_connectors-IsSound u.launch (prepare u b).1 (record { at = rw same at unique.at }) empty
        started in
    (prepare-IsWired u b h5, Steps-IsSound (subst IsSound (sym state) sound) steps)
