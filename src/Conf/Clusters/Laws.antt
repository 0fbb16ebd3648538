-- ===== src/Conf/Clusters/Laws.antt =====
-- The configurations that `validate_nats_clusters` accepts, described apart from the code, and what
-- it makes of them.
use nats_kafka.Base.{
  String, true, false, List, [], ◌∷◌, map, ◌≡◌, ◌≢◌, refl, ap, ◌⊎◌, inl, inr, ◌↔◌, arith, All, Any,
  eq_iff, Bool-cases, str_eq, Bool, if◌then◌else◌,
}
use nats_kafka.Base.Int.{pos, eqb_ℤ, eqb_ℤ_iff}
use nats_kafka.Base.Outcome.{ok, Outcome-cases, >>=-eq-ok}
use nats_kafka.Conf.{NatsConfig, ConnectorConfig, BridgeConfig, stan_to_kafka, kafka_to_stan}
use nats_kafka.Conf.Clusters.{
  Names, mem_name, check_cluster, fill_cluster, fill_clusters, check_connector, check_connectors,
  validate_nats_clusters,
}

-- Each cluster has servers and a name that is not reserved and stands neither in `names` nor
-- at an earlier cluster.
abbrev pub Distinct : Names → List NatsConfig → Type 0
Distinct names [] = Unit
Distinct names (c ∷ cs) =
    (c.name ≢ "")
    × (c.name ≢ "default")
    × All (λ m. c.name ≢ m) names
    × (c.servers ≢ [])
    × Distinct (c.name ∷ names) cs

abbrev pub Refers : List NatsConfig → ConnectorConfig → Type 0
Refers cs k =
    (k.nats_connection ≡ "")
    ⊎ (Any (λ c. k.nats_connection ≡ c.name) cs
        × (k.type ≢ stan_to_kafka)
        × (k.type ≢ kafka_to_stan))

pub record IsWired (b : BridgeConfig) : Type 0 where
  pub default_unnamed : b.nats.name ≡ ""
  pub clusters_distinct : Distinct [] b.nats_clusters
  pub connectors_refer : All (Refers b.nats_clusters) b.connect

mem_name_fresh : (n : String) (ms : Names) → (mem_name n ms ≡ false) ↔ All (λ m. n ≢ m) ms
unfolding mem_name
mem_name_fresh n [] = (λ h. tt, λ h. refl)
mem_name_fresh n (m ∷ ms) =
    let rest = mem_name_fresh n ms in
    (λ h. ground (arith, eq_iff n m, rest), λ h. ground (arith, eq_iff n m, rest))

check_cluster_iff :
    (names : Names) (c : NatsConfig)
    → (check_cluster names c ≡ ok tt)
      ↔ ((c.name ≢ "") × (c.name ≢ "default") × All (λ m. c.name ≢ m) names × (c.servers ≢ []))
unfolding check_cluster
check_cluster_iff names c =
    let fresh = mem_name_fresh c.name names in
    let e1 = eq_iff c.name "" in
    let e2 = eq_iff c.name "default" in
    (λ h. ground (arith, fresh, e1, e2), λ h. ground (arith, fresh, e1, e2))

-- The names at the end of `fill_clusters`, latest first.
abbrev names_after : Names → List NatsConfig → Names
names_after names [] = names
names_after names (c ∷ cs) = names_after (c.name ∷ names) cs

fill_clusters_ok :
    (d : NatsConfig) (names : Names) (cs : List NatsConfig)
    → Distinct names cs
    → fill_clusters d names cs ≡ (ok (names_after names cs), map (fill_cluster d) cs)
unfolding fill_clusters
fill_clusters_ok d names [] h = refl
fill_clusters_ok d names (c ∷ cs) (a, b, n, s, rest) =
    let passed = (check_cluster_iff names c).1 (a, b, n, s) in
    rw (passed, fill_clusters, fill_clusters_ok d (c.name ∷ names) cs rest)

fill_clusters_sound :
    (d : NatsConfig) (names : Names) (cs : List NatsConfig) {ns : Names}
    → (fill_clusters d names cs).0 ≡ ok ns
    → Distinct names cs
unfolding fill_clusters
fill_clusters_sound d names [] h = tt
fill_clusters_sound d names (c ∷ cs) h = elim (Outcome-cases (check_cluster names c)) [
  | inl (u, passed) ↦
      let (a, b, n, s) = (check_cluster_iff names c).0 passed in
      (a, b, n, s, fill_clusters_sound d (c.name ∷ names) cs (rw (passed, fill_clusters) at h))
  | inr (inl (e, refused)) ↦ cc (rw (refused, fill_clusters) at h)
  | inr (inr stopped) ↦ cc (rw (stopped, fill_clusters) at h)
]

mem_name-names_after :
    (n : String) (names : Names) (cs : List NatsConfig)
    → (mem_name n (names_after names cs) ≡ true)
      ↔ ((mem_name n names ≡ true) ⊎ Any (λ c. n ≡ c.name) cs)
unfolding mem_name
mem_name-names_after n names [] = (λ h. inl h, λ h. ground arith)
mem_name-names_after n names (c ∷ cs) =
    let rest = mem_name-names_after n (c.name ∷ names) cs in
    let e = eq_iff n c.name in (λ h. ground (arith, rest, e), λ h. ground (arith, rest, e))

module _ (cs : List NatsConfig) where
  check_connector_iff :
      (k : ConnectorConfig) → (check_connector (names_after [] cs) k ≡ ok tt) ↔ Refers cs k
  unfolding check_connector mem_name
  check_connector_iff k =
      let known = mem_name-names_after k.nats_connection [] cs in
      let e1 = eq_iff k.nats_connection "" in
      let e2 = eq_iff k.type stan_to_kafka in
      let e3 = eq_iff k.type kafka_to_stan in
      (λ h. ground (arith, known, e1, e2, e3), λ h. ground (arith, known, e1, e2, e3))

  check_connectors_iff :
      (ks : List ConnectorConfig)
      → (check_connectors (names_after [] cs) ks ≡ ok tt) ↔ All (Refers cs) ks
  unfolding check_connectors
  check_connectors_iff [] = (λ h. tt, λ h. refl)
  check_connectors_iff (k ∷ ks) =
      let one = check_connector_iff k in
      let rest = check_connectors_iff ks in
      (λ h. ground (arith, one, rest), λ h. ground (arith, one, rest))

-- Whatever the configuration, it is accepted exactly when the default block is unnamed, the clusters
-- have servers and distinct names that are not reserved, and each connector that names a cluster
-- names one of these and is no STAN connector.
pub validate_nats_clusters_iff :
    (b : BridgeConfig) → ((validate_nats_clusters b).0 ≡ ok tt) ↔ IsWired b
unfolding validate_nats_clusters
validate_nats_clusters_iff b = (sound, complete)
  where
    unnamed : (str_eq b.nats.name "" ≡ true) ↔ (b.nats.name ≡ "")
    unnamed = eq_iff b.nats.name ""

    wired :
        {ns : Names}
        → b.nats.name ≡ ""
        → (fill_clusters b.nats [] b.nats_clusters).0 ≡ ok ns
        → check_connectors ns b.connect ≡ ok tt
        → IsWired b
    wired {ns} e filled checked =
        let distinct = fill_clusters_sound b.nats [] b.nats_clusters filled in
        let names : ns ≡ names_after [] b.nats_clusters =
          cc (filled, ap (λ p. p.0) (fill_clusters_ok b.nats [] b.nats_clusters distinct)) in
        record {
          default_unnamed = e;
          clusters_distinct = distinct;
          connectors_refer =
              (check_connectors_iff b.nats_clusters b.connect).0 (rw names at checked);
        }

    sound : (validate_nats_clusters b).0 ≡ ok tt → IsWired b
    sound h = elim (Bool-cases (str_eq b.nats.name "")) [
      | inl same ↦
          let (ns, filled, checked) =
            >>=-eq-ok (fill_clusters b.nats [] b.nats_clusters).0 _ (rw same at h) in
          wired (unnamed.0 same) filled checked
      | inr named ↦ cc (rw named at h)
    ]

    complete : IsWired b → (validate_nats_clusters b).0 ≡ ok tt
    complete w =
        rw
          (
            unnamed.1 w.default_unnamed,
            fill_clusters_ok b.nats [] b.nats_clusters w.clusters_distinct,
          )
          ((check_connectors_iff b.nats_clusters b.connect).1 w.connectors_refer)

-- A value that is unset is taken from the default block, and every other one is kept.
pub Takes : {A : Type 0} (unset default before behind : A) → Type 0
Takes unset default before behind =
    ((before ≡ unset) × (behind ≡ default)) ⊎ ((before ≢ unset) × (behind ≡ before))

-- The second cluster is the first with the defaults of the block `d`.
pub record Filled (d c c' : NatsConfig) : Type 0 where
  pub client_name : Takes "" d.client_name c.client_name c'.client_name
  pub connect_timeout : Takes (pos 0) d.connect_timeout c.connect_timeout c'.connect_timeout
  pub reconnect_wait : Takes (pos 0) d.reconnect_wait c.reconnect_wait c'.reconnect_wait
  pub max_reconnects : Takes (pos 0) d.max_reconnects c.max_reconnects c'.max_reconnects
  pub name : c'.name ≡ c.name
  pub servers : c'.servers ≡ c.servers
  pub tls : c'.tls ≡ c.tls
  pub user_credentials : c'.user_credentials ≡ c.user_credentials
  pub user_nkey : c'.user_nkey ≡ c.user_nkey

pub EachFilled : NatsConfig → List NatsConfig → List NatsConfig → Type 0
EachFilled d [] [] = Unit {0}
EachFilled d (c ∷ cs) (c' ∷ cs') = Filled d c c' × EachFilled d cs cs'
EachFilled d _ _ = ⊥

Takes_of_test :
    {A : Type 0} (same : Bool) (unset default before : A)
    → ((same ≡ true) ↔ (before ≡ unset))
    → Takes unset default before (if same then default else before)
unfolding Takes
Takes_of_test true unset default before h = inl (h.0 refl, refl)
Takes_of_test false unset default before h = inr (λ e. let no = h.1 e in cc, refl)

fill_cluster-Filled : (d c : NatsConfig) → Filled d c (fill_cluster d c)
unfolding fill_cluster
fill_cluster-Filled d c = record {
  client_name =
      Takes_of_test (str_eq c.client_name "") "" d.client_name c.client_name
        (eq_iff c.client_name "");
  connect_timeout =
      Takes_of_test (eqb_ℤ c.connect_timeout (pos 0)) (pos 0) d.connect_timeout c.connect_timeout
        (eqb_ℤ_iff c.connect_timeout (pos 0));
  reconnect_wait =
      Takes_of_test (eqb_ℤ c.reconnect_wait (pos 0)) (pos 0) d.reconnect_wait c.reconnect_wait
        (eqb_ℤ_iff c.reconnect_wait (pos 0));
  max_reconnects =
      Takes_of_test (eqb_ℤ c.max_reconnects (pos 0)) (pos 0) d.max_reconnects c.max_reconnects
        (eqb_ℤ_iff c.max_reconnects (pos 0));
  name = refl;
  servers = refl;
  tls = refl;
  user_credentials = refl;
  user_nkey = refl;
}

EachFilled-map : (d : NatsConfig) (cs : List NatsConfig) → EachFilled d cs (map (fill_cluster d) cs)
unfolding EachFilled
EachFilled-map d [] = tt
EachFilled-map d (c ∷ cs) = (fill_cluster-Filled d c, EachFilled-map d cs)

-- A configuration that is wired as above comes back with nothing changed but the named clusters; in each
-- of these the client name, the timeouts and the number of reconnects that are unset are those of the
-- default block, and all else is as it was.
pub validate_nats_clusters_fills :
    (b : BridgeConfig)
    → IsWired b
    → (cs : List NatsConfig) × EachFilled b.nats b.nats_clusters cs
      × ((validate_nats_clusters b).1 ≡ record b { nats_clusters = cs })
unfolding validate_nats_clusters
validate_nats_clusters_fills b w = (
  map (fill_cluster b.nats) b.nats_clusters,
  EachFilled-map b.nats b.nats_clusters,
  rw (
    (eq_iff b.nats.name "").1 w.default_unnamed,
    fill_clusters_ok b.nats [] b.nats_clusters w.clusters_distinct,
  ),
)
