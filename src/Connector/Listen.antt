-- ===== src/Connector/Listen.antt =====
-- The listener that carries messages from Kafka to NATS: `setUpListener`, the three message handlers and
-- `convertFromKafkaToNatsHeaders` of server/core/connector.go.
pub mod Headers
pub mod Order
use nats_kafka.Base.{
  ℕ, String, List, [], ◌∷◌, ◌++◌, Bool, true, false, not, Option, none, some, length, str_eq,
  bytes_eq, if◌then◌else◌,
}
use nats_kafka.Base.Outcome.{Error, Outcome, ok, fail, panic, message, ◌>>=◌}
use nats_kafka.Stats.Float.{FloatOps}
use nats_kafka.Stats.Holder.{add_message_in, add_request}
use nats_kafka.Kafka.{Bytes, Header, Message, or_empty}
use nats_kafka.Bridge.Cells.{Cells, nats_for, jet_stream_for}
use nats_kafka.Connector.{Connector, Kind, cluster_of}

-- `nats.Header`: every key with its values.
abbrev pub NatsHeader : Type 0
NatsHeader = List (Bytes × List Bytes)

-- `nHdrs.Add`
pub add_header : Bytes → Bytes → NatsHeader → NatsHeader
add_header k v [] = (k, v ∷ []) ∷ []
add_header k v ((j, vs) ∷ m) =
    if bytes_eq j k then (j, vs ++ (v ∷ [])) ∷ m else (j, vs) ∷ add_header k v m

-- The loop over the Kafka headers; a header without a value is left out.
pub collect_headers : List Header → NatsHeader → NatsHeader
unfolding add_header
collect_headers [] m = m
collect_headers (h ∷ hs) m = elim h.value [
  | none ↦ collect_headers hs m
  | some v ↦ collect_headers hs (add_header h.key v m)
]

pub to_nats_headers : List Header → NatsHeader
unfolding collect_headers
to_nats_headers hs = collect_headers hs []

-- What a handler publishes: the subject or channel, the headers and the data.
pub record Publication : Type 0 where
  pub subject : String
  pub header : NatsHeader
  pub body : Bytes

-- What the packages answer: the template on a message, `none` for an error, the three ways to publish,
-- of which the first number is the connection or the context, and `target.Commit`.
pub record Bus : Type 0 where
  pub dest : Message → Option String
  pub publish : ℕ → Publication → Outcome (Unit {0})
  pub stan_publish : ℕ → Publication → Outcome (Unit {0})
  pub js_publish : ℕ → Publication → Outcome (Unit {0})
  pub commit : Message → Outcome (Unit {0})

module _ (k : Bus) where
  pub dest_of : Message → String
  dest_of m = elim (k.dest m) [ none ↦ "" | some t ↦ t ]

  pub publication : Message → Publication
  unfolding dest_of to_nats_headers
  publication m = record { subject = dest_of m; header = to_nats_headers m.headers; body = m.value }

  pub nats_message_handler : Cells → Connector → Message → Outcome (Unit {0})
  unfolding publication
  nats_message_handler s c m = elim (nats_for s (cluster_of c)) [
    | none ↦ fail (message "bridge not connected to NATS on cluster %q")
    | some nc ↦ k.publish nc (publication m)
  ]

  -- A STAN message has no headers. `Stan()` can be nil, on which the call panics.
  pub stan_message_handler : Cells → Message → Outcome (Unit {0})
  unfolding dest_of
  stan_message_handler s m = elim s.stan [
    | none ↦ panic
    | some stan ↦ k.stan_publish stan (record { subject = dest_of m; header = []; body = m.value })
  ]

  pub jet_stream_message_handler : Cells → Connector → Message → Outcome (Unit {0})
  unfolding publication
  jet_stream_message_handler s c m = elim (jet_stream_for s (cluster_of c)) [
    | none ↦ fail (message "bridge not connected to JetStream on cluster %q")
    | some js ↦ k.js_publish js (publication m)
  ]

  -- The handler that `Start` gives to `setUpListener`; the other connectors have none.
  pub handler : Cells → Connector → Message → Outcome (Unit {0})
  unfolding nats_message_handler stan_message_handler jet_stream_message_handler
  handler s c m = elim c.kind [
    | Kind.nats2kafka ↦ panic
    | Kind.stan2kafka ↦ panic
    | Kind.jet_stream2kafka ↦ panic
    | Kind.kafka2nats ↦ nats_message_handler s c m
    | Kind.kafka2stan ↦ stan_message_handler s m
    | Kind.kafka2jet_stream ↦ jet_stream_message_handler s c m
  ]

-- What a listener does: a message published, a message committed, and an error handed to
-- `ConnectorError`.
pub data Action : Type 0 where
  published committed : Message → Action
  reported : Error → Action

-- One return of `Fetch` with what holds then: the connections, the nanoseconds that the callback takes
-- and whether `done` is closed when the callback is through.
pub data Fetched : Type 0 where
  got : Message → Cells → ℕ → Bool → Fetched
  cancelled : Fetched
  failed : Error → Fetched

-- `conn.config.GroupID != ""`
abbrev pub in_group : Connector → Bool
in_group c = not (str_eq c.config.group_id "")

counted_in : Connector → Message → Connector
counted_in c m = record c { stats = add_message_in c.stats (length m.value) }

module _ (f : FloatOps) (k : Bus) where
  pub counted_request : Connector → Message → ℕ → Outcome Connector
  counted_request c m ns = do
    stats ← add_request f c.stats (length m.value) (length m.value) ns
    ok (record c { stats = stats })

  -- `listenerCallbackFunc`
  pub listener_callback : Cells → Message → ℕ → Connector → Outcome Connector × List Action
  unfolding counted_in counted_request handler
  listener_callback s m ns c = elim (handler k s c m) [
    | Outcome.panic ↦ (panic, [])
    | Outcome.fail e ↦ (ok (counted_in c m), [])
    | Outcome.ok u ↦
        if in_group c
        then elim (k.commit m) [
          | Outcome.panic ↦ (panic, Action.published m ∷ [])
          | Outcome.fail e ↦ (ok (counted_in c m), Action.published m ∷ Action.reported e ∷ [])
          | Outcome.ok v ↦ (counted_request c m ns, Action.published m ∷ Action.committed m ∷ [])
        ]
        else (counted_request c m ns, Action.published m ∷ [])
  ]

  -- The listener's loop on what `Fetch` returns, one after the other; at the end of the list it waits.
  pub listen : List Fetched → Connector → Outcome Connector × List Action
  unfolding listener_callback
  listen [] c = (ok c, [])
  listen (Fetched.cancelled ∷ rest) c = (ok c, [])
  listen (Fetched.failed e ∷ rest) c = (ok c, Action.reported e ∷ [])
  listen (Fetched.got m s ns done ∷ rest) c =
      let (r, actions) = listener_callback s m ns c in
      elim r [
        | Outcome.panic ↦ (panic, actions)
        | Outcome.fail e ↦ (fail e, actions)
        | Outcome.ok c' ↦
            let (r', more) = listen rest c' in
            if done then (ok c', actions) else (r', actions ++ more)
      ]
