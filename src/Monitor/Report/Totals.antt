-- ===== src/Monitor/Report/Totals.antt =====
-- The sums of the report, and reading it again.
use nats_kafka.Base.{ℕ, ◌+◌, List, [], ◌∷◌, ◌≡◌, refl, ap, ◌∙◌, arith}
use nats_kafka.Base.Dict.{Dict}
use nats_kafka.Stats.Float.{FloatOps}
use nats_kafka.Stats.Holder.{read_stats}
use nats_kafka.Connector.{Connector}
use nats_kafka.Monitor.Report.{NatsConnectionStats, Clock, each_connector, bridge_stats}

-- The requests of all connectors.
pub requests_served : List Connector → ℕ
requests_served [] = 0
requests_served (c ∷ cs) = c.stats.stats.request_count + requests_served cs

each_connector_total :
    (f : FloatOps) (count : ℕ) (cs : List Connector)
    → (each_connector f count cs).0 ≡ count + requests_served cs
unfolding each_connector read_stats requests_served
each_connector_total f count [] = omega arith
each_connector_total f count (c ∷ cs) =
    let rest = each_connector_total f (count + c.stats.stats.request_count) cs in rest ∙ omega arith

-- A second report after the first.
each_connector_again :
    (f : FloatOps) (count : ℕ) (cs : List Connector)
    → each_connector f count (each_connector f count cs).2 ≡ each_connector f count cs
unfolding each_connector read_stats
each_connector_again f count [] = refl
each_connector_again f count (c ∷ cs) =
    let rest = each_connector_again f (count + c.stats.stats.request_count) cs in
    ap
      (λ r.
        (r.0, (read_stats f c.stats).0 ∷ r.1, record c { stats = (read_stats f c.stats).1 } ∷ r.2))
      rest

-- The requests of the report are those of all connectors together. Making a report changes no counter: a
-- second one at the same time, with nothing in between, is the same and leaves the connectors as the first.
pub bridge_stats_lem :
    (f : FloatOps) (clock : Clock) (nats : List NatsConnectionStats) (reqs : Dict ℕ)
    (cs : List Connector)
    → ((bridge_stats f clock nats reqs cs).0.request_count ≡ requests_served cs)
      × (bridge_stats f clock nats reqs (bridge_stats f clock nats reqs cs).1
          ≡ bridge_stats f clock nats reqs cs)
unfolding bridge_stats
bridge_stats_lem f clock nats reqs cs =
    (each_connector_total f 0 cs ∙ omega arith, rw (each_connector_again f 0 cs) refl)
