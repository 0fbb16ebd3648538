-- ===== src/Conf/Reflect/Laws.antt =====
-- The configuration of the bridge and a file that spells it out.
use nats_kafka.Base.{String, Bool, false, List, [], ◌∷◌, ◌≡◌, refl, ap, ◌∙◌}
use nats_kafka.Base.Outcome.{ok}
use nats_kafka.Conf.{NatsConfig, ConnectorConfig, BridgeConfig}
use nats_kafka.Conf.Values.{Entries, Struct}
use nats_kafka.Conf.Slots.{slot_at, primitives, texts, strings_of, structs, elements, structs_of}
use nats_kafka.Conf.Parts.{nats_struct, nats_of}
use nats_kafka.Conf.Reflect.{
  connector_struct, connector_of, bridge_struct, bridge_of, load_bridge_config,
}
use nats_kafka.Conf.Parse.{Conversions, parse_struct}
use nats_kafka.Conf.Load.{Outside, load_config_from_file, load_config_from_string}
use nats_kafka.Conf.Parse.Print.{entries_of}
use nats_kafka.Conf.Parse.Print.Reading.{parse_struct-entries_of}
use nats_kafka.Conf.Reflect.Range.Whole.{BridgeFits, bridge-Fits}

texts-primitives : (xs : List String) → texts (primitives xs) ≡ xs
unfolding texts primitives
texts-primitives [] = refl
texts-primitives (x ∷ xs) = ap (λ ys. x ∷ ys) (texts-primitives xs)

elements-structs :
    {A : Type 0} (f : A → Struct) (g : Struct → A) (xs : List A)
    → ((x : A) → g (f x) ≡ x)
    → elements g (structs f xs) ≡ xs
unfolding elements structs
elements-structs f g [] h = refl
elements-structs f g (x ∷ xs) h =
    ap (λ y. y ∷ elements g (structs f xs)) (h x) ∙ ap (λ ys. x ∷ ys) (elements-structs f g xs h)

nats_of-nats_struct : (n : NatsConfig) → nats_of (nats_struct n) ≡ n
unfolding nats_struct nats_of slot_at strings_of
nats_of-nats_struct n = ap (λ xs. record n { servers = xs }) (texts-primitives n.servers)

connector_of-connector_struct : (c : ConnectorConfig) → connector_of (connector_struct c) ≡ c
unfolding connector_struct connector_of slot_at strings_of
connector_of-connector_struct c = ap (λ xs. record c { brokers = xs }) (texts-primitives c.brokers)

bridge_of-bridge_struct : (b : BridgeConfig) → bridge_of (bridge_struct b) ≡ b
unfolding bridge_struct bridge_of slot_at structs_of
bridge_of-bridge_struct b =
    let clusters = elements-structs nats_struct nats_of b.nats_clusters nats_of-nats_struct in
    let connectors =
      elements-structs connector_struct connector_of b.connect connector_of-connector_struct in
    ap
      (λ n. record b {
        nats = n;
        nats_clusters = elements nats_of (structs nats_struct b.nats_clusters);
        connect = elements connector_of (structs connector_struct b.connect);
      })
      (nats_of-nats_struct b.nats)
    ∙ ap
        (λ ns. record b {
          nats_clusters = ns;
          connect = elements connector_of (structs connector_struct b.connect);
        })
        clusters
    ∙ ap (λ cs. record b { connect = cs }) connectors

load_config_from_file_of_parsed :
    (c : Conversions) (o : Outside) (file text : String) (m : Entries) (s : Struct) (strict : Bool)
    → o.read_file file ≡ ok text
    → o.parse text ≡ ok m
    → load_config_from_file c o file s strict ≡ parse_struct c strict m s
unfolding load_config_from_file load_config_from_string
load_config_from_file_of_parsed c o file text m s strict read parsed =
    rw (read, load_config_from_file, parsed, load_config_from_string) refl

-- A file that spells out a configuration of the bridge loads as exactly that configuration, whatever the
-- configuration was before, if the file can be read and parsed and the integers of the configuration
-- fit 64 bits.
pub load_bridge_config-entries_of :
    (c : Conversions) (o : Outside) (file text : String) (b b' : BridgeConfig)
    → o.read_file file ≡ ok text
    → o.parse text ≡ ok (entries_of (bridge_struct b'))
    → BridgeFits b'
    → load_bridge_config c o file b ≡ (ok tt, b')
unfolding load_bridge_config
load_bridge_config-entries_of c o file text b b' read parsed fits =
    let loaded : load_config_from_file c o file (bridge_struct b) false
        ≡ (ok tt, bridge_struct b') =
      load_config_from_file_of_parsed c o file text (entries_of (bridge_struct b'))
        (bridge_struct b) false read parsed
      ∙ (parse_struct-entries_of c false (bridge_struct b) (bridge_struct b')
          (bridge-Fits b b' fits)) in
    ap (λ r. (r.0, bridge_of r.1)) loaded ∙ ap (λ x. (ok tt, x)) (bridge_of-bridge_struct b')
