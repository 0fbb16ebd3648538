-- ===== src/Bridge/Cells/Dial.antt =====
-- How connections are made: `dialCell`, `connectToNATS`, `connectToSTAN`, `connectCellJetStream` and
-- `connectToJetStream` of server/core/nats.go.
use Prim.Native.String.{◌++◌ as append}
use nats_kafka.Base.{
  ℕ, String, Bool, true, false, List, [], ◌∷◌, ◌++◌, none, some, ◌||◌, not, str_eq, if◌then◌else◌,
}
use nats_kafka.Base.Int.{pos, ltb_ℤ}
use nats_kafka.Base.Outcome.{Outcome, ok, fail, panic, message, ◌>>=◌, ◌>>◌}
use nats_kafka.Base.Dict.{Dict, lookup, insert}
use nats_kafka.Conf.{NatsConfig, BridgeConfig}
use nats_kafka.Nats.{NatsOption, JsOption, Answers}
use nats_kafka.Bridge.Cells.{Cell, Cells, cell_has_jet_stream}

abbrev when {ℓ} : {A : Type ℓ} → Bool → A → List A
when true x = x ∷ []
when false x = []

unfoldable pub client_name : NatsConfig → String
client_name c =
    if str_eq c.name ""
    then c.client_name
    else append c.client_name (append " [" (append c.name "]"))

-- The options of `dialCell` in front of the one that is made from the nkey seed.
unfoldable pub dial_options : NatsConfig → List NatsOption
unfolding client_name
dial_options c =
    (NatsOption.name (client_name c)
      ∷ NatsOption.max_reconnects c.max_reconnects
      ∷ NatsOption.reconnect_wait c.reconnect_wait
      ∷ NatsOption.timeout c.connect_timeout
      ∷ NatsOption.error_handler
      ∷ NatsOption.discovered_servers_handler
      ∷ NatsOption.disconnect_handler
      ∷ NatsOption.reconnect_handler
      ∷ NatsOption.closed_handler
      ∷ NatsOption.no_callbacks_after_client_close
      ∷ [])
    ++ (when (not (str_eq c.tls.root "")) (NatsOption.root_cas c.tls.root)
        ++ (when (not (str_eq c.tls.cert "")) (NatsOption.client_cert c.tls.cert c.tls.key)
            ++ when (not (str_eq c.user_credentials ""))
                (NatsOption.user_credentials c.user_credentials)))

-- `strings.Join(servers, ",")`
unfoldable pub join : List String → String
join [] = ""
join (s ∷ []) = s
join (s ∷ t ∷ ss) = append s (append "," (join (t ∷ ss)))

unfoldable pub nkey_options : Answers → NatsConfig → Outcome (List NatsOption)
nkey_options a c =
    if str_eq c.user_nkey ""
    then ok []
    else do k ← a.nkey_option_from_seed c.user_nkey; ok (NatsOption.nkey k ∷ [])

unfoldable pub dial_cell : Answers → Cell → Outcome ℕ
unfolding dial_options join nkey_options
dial_cell a c = do
  nkey ← nkey_options a c.config
  a.connect (join c.config.servers) (dial_options c.config ++ nkey)

-- The loop of `connectToNATS`, in the order of the map: a cluster that cannot be reached ends it
-- with the error if it is the default one, and is left without a connection otherwise.
unfoldable pub connect_each : Answers → Dict Cell → Outcome (Unit {0}) × Dict Cell
connect_each a [] = (ok tt, [])
connect_each a ((n, c) ∷ m) =
    let rest = connect_each a m in
    elim (dial_cell a c) [
      | Outcome.ok k ↦ (rest.0, (n, record c { nc = some k }) ∷ rest.1)
      | Outcome.fail e ↦
          if str_eq c.config.name "" then (fail e, (n, c) ∷ m) else (rest.0, (n, c) ∷ rest.1)
      | Outcome.panic ↦ (Outcome.panic, (n, c) ∷ m)
    ]

unfoldable pub new_cell : NatsConfig → Cell
new_cell c = record { config = c; nc = none; js = none }

unfoldable pub named_cells : List NatsConfig → Dict Cell → Dict Cell
unfolding new_cell
named_cells [] m = m
named_cells (c ∷ cs) m = named_cells cs (insert c.name (new_cell c) m)

unfoldable pub configured_cells : BridgeConfig → Dict Cell
unfolding named_cells new_cell
configured_cells b = named_cells b.nats_clusters (("", new_cell b.nats) ∷ [])

-- `connectToNATS` behind its test of `running`. `order` is the order in which `range` visits the new
-- map.
unfoldable pub connect_to_nats :
    Answers → BridgeConfig → (Dict Cell → Dict Cell) → Cells → Outcome (Unit {0}) × Cells
unfolding configured_cells
connect_to_nats a b order s =
    let (r, m) = connect_each a (order (configured_cells b)) in (r, record s { cells = m })

unfoldable pub connect_to_stan : Answers → BridgeConfig → Cells → Outcome (Unit {0}) × Cells
connect_to_stan a b s = elim s.stan [
  | some k ↦ (ok tt, s)
  | none ↦ if str_eq b.stan.cluster_id "" then (ok tt, s) else elim (lookup "" s.cells) [
    | none ↦ (fail (message "default NATS connection is not available for NATS streaming"), s)
    | some c ↦ elim c.nc [
      | none ↦ (fail (message "default NATS connection is not available for NATS streaming"), s)
      | some k ↦
          let prefix =
            if str_eq b.stan.discover_prefix ""
            then a.default_discover_prefix
            else b.stan.discover_prefix in
          elim (a.stan_connect (record b.stan { discover_prefix = prefix }) k) [
            | Outcome.ok sc ↦ (ok tt, record s { stan = some sc })
            | Outcome.fail e ↦ (fail e, s)
            | Outcome.panic ↦ (Outcome.panic, s)
          ]
    ]
  ]
]

js_options : BridgeConfig → List JsOption
js_options b =
    when (ltb_ℤ (pos 0) b.jet_stream.max_wait) (JsOption.max_wait b.jet_stream.max_wait)
    ++ when (ltb_ℤ (pos 0) b.jet_stream.publish_async_max_pending)
        (JsOption.publish_async_max_pending b.jet_stream.publish_async_max_pending)

-- A context on the cell's connection; a call on a nil connection panics.
unfoldable pub connect_cell_jet_stream : Answers → BridgeConfig → Cell → Outcome Cell
unfolding js_options
connect_cell_jet_stream a b c = elim c.nc [
  | none ↦ panic
  | some k ↦ do a.jet_stream k (js_options b); ok (record c { js = some k })
]

-- `cell.js != nil || cell.nc == nil`
abbrev ready_or_down : Cell → Bool
ready_or_down c = elim c.js [ none ↦ elim c.nc [ none ↦ true | some k ↦ false ] | some k ↦ true ]

-- The loop of `connectToJetStream`.
unfoldable pub connect_each_jet_stream :
    Answers → BridgeConfig → Dict Cell → Outcome (Unit {0}) × Dict Cell
connect_each_jet_stream a b [] = (ok tt, [])
connect_each_jet_stream a b ((n, c) ∷ m) =
    let rest = connect_each_jet_stream a b m in
    if not (cell_has_jet_stream b c.config.name) || ready_or_down c
    then (rest.0, (n, c) ∷ rest.1)
    else elim (connect_cell_jet_stream a b c) [
      | Outcome.ok c' ↦ (rest.0, (n, c') ∷ rest.1)
      | Outcome.fail e ↦ (fail e, (n, c) ∷ m)
      | Outcome.panic ↦ (Outcome.panic, (n, c) ∷ m)
    ]

unfoldable pub connect_to_jet_stream : Answers → BridgeConfig → Cells → Outcome (Unit {0}) × Cells
connect_to_jet_stream a b s =
    let (r, m) = connect_each_jet_stream a b s.cells in (r, record s { cells = m })
