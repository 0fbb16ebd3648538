-- ===== src/Kafka/Client/Settings.antt =====
-- Which connections are authenticated and encrypted.
use nats_kafka.Base.{
  Bool, true, false, Option, none, some, ◌||◌, ◌&&◌, ◌≡◌, refl, ap, ◌∙◌, if◌then◌else◌, Bool-cases,
  Option-cases, inl, inr, arith,
}
use mathlib.Core.Path.{ap₂}
use nats_kafka.Base.Int.{ℤ}
use nats_kafka.Conf.{ConnectorConfig, BridgeConfig}
use nats_kafka.Conf.Tls.{Files, TlsConfig, make_tls_config}
use nats_kafka.Kafka.Client.{
  NetSettings, SaramaConfig, has_user, has_region, with_mechanism, with_user, with_sasl, made,
  with_tls_config, with_own_tls, with_iam_tls, with_tls, consumer_config, producer_config,
  manager_config,
}

-- What `NewConfig` leaves off.
unfoldable pub IsOff : NetSettings → Type 0
IsOff n = (n.sasl_enable ≡ false) × (n.tls_enable ≡ false)

abbrev is_loaded : Option TlsConfig → Bool
is_loaded none = false
is_loaded (some t) = true

-- A certificate and its key are named, they load, and so does the root if one is named.
pub has_certificate : Files → ConnectorConfig → Bool
has_certificate f c = is_loaded (made (make_tls_config f c.tls))

with_user_enables :
    (c : ConnectorConfig) (n : NetSettings)
    → ((with_user c n).sasl_enable ≡ true) × ((with_user c n).tls_enable ≡ n.tls_enable)
unfolding with_user with_mechanism
with_user_enables c n = ground arith

with_sasl_enables :
    (c : ConnectorConfig) (n : NetSettings)
    → n.sasl_enable ≡ false
    → ((with_sasl c n).sasl_enable ≡ (has_user c || has_region c))
      × ((with_sasl c n).tls_enable ≡ n.tls_enable)
unfolding with_sasl
with_sasl_enables c n off = let user = with_user_enables c n in ground (arith, user)

with_own_tls_enables :
    (f : Files) (c : ConnectorConfig) (o n : NetSettings)
    → o.sasl_enable ≡ n.sasl_enable
    → ((with_own_tls f c o n).sasl_enable ≡ n.sasl_enable)
      × ((with_own_tls f c o n).tls_enable ≡ (
          (n.sasl_enable && c.sasl.insecure_skip_verify) || (has_certificate f c || o.tls_enable)))
unfolding with_own_tls has_certificate with_tls_config
with_own_tls_enables f c o n same =
    elim (Bool-cases (n.sasl_enable && c.sasl.insecure_skip_verify)) [
      | inl skip ↦ rw skip (refl, refl)
      | inr checked ↦ elim (Option-cases (made (make_tls_config f c.tls))) [
        | inl missing ↦ rw (checked, missing, has_certificate) (same, refl)
        | inr (t, loaded) ↦ rw (checked, loaded, has_certificate) (refl, refl)
      ]
    ]

with_iam_tls_enables :
    (enable : Bool) (n : NetSettings)
    → n.tls_enable ≡ false
    → ((with_iam_tls enable n).sasl_enable ≡ n.sasl_enable)
      × ((with_iam_tls enable n).tls_enable ≡ enable)
unfolding with_iam_tls with_tls_config
with_iam_tls_enables true n off = (refl, refl)
with_iam_tls_enables false n off = (refl, off)

with_tls_enables :
    (f : Files) (c : ConnectorConfig) (n : NetSettings)
    → n.tls_enable ≡ false
    → ((with_tls f c n).sasl_enable ≡ n.sasl_enable)
      × ((with_tls f c n).tls_enable ≡ (
          (n.sasl_enable && c.sasl.insecure_skip_verify) || (has_certificate f c || c.iam.enable)))
unfolding with_tls
with_tls_enables f c n off =
    let iam = with_iam_tls_enables c.iam.enable n off in
    let own = with_own_tls_enables f c (with_iam_tls c.iam.enable n) n iam.0 in
    (
      own.0,
      own.1
          ∙ ap (λ x. (n.sasl_enable && c.sasl.insecure_skip_verify) || (has_certificate f c || x))
              iam.1,
    )

-- When a connection is encrypted because of the settings of the connector.
pub is_encrypted : Files → ConnectorConfig → (authenticated iam : Bool) → Bool
is_encrypted f c authenticated iam =
    (authenticated && c.sasl.insecure_skip_verify) || (has_certificate f c || iam)

abbrev user_only : ConnectorConfig → NetSettings → NetSettings
user_only c n = if has_user c then with_user c n else n

with_user_only :
    (c : ConnectorConfig) (n : NetSettings)
    → n.sasl_enable ≡ false
    → n.tls_enable ≡ false
    → ((user_only c n).sasl_enable ≡ has_user c) × ((user_only c n).tls_enable ≡ false)
with_user_only c n sasl tls = let user = with_user_enables c n in ground (arith, user)

producer_tls :
    (forced : Bool) (n : NetSettings) {sasl tls : Bool}
    → n.sasl_enable ≡ sasl
    → n.tls_enable ≡ tls
    → ((if forced then record n { tls_enable = true } else n).sasl_enable ≡ sasl)
      × ((if forced then record n { tls_enable = true } else n).tls_enable ≡ (forced || tls))
producer_tls true n s t = (s, refl)
producer_tls false n s t = (s, t)

-- Which of the three clients authenticate and encrypt, over settings that do neither. Consumer and
-- producer authenticate by the user or, without one, by the region of IAM; the manager by the user only.
-- All encrypt if the verification is skipped on a connection that authenticates, or if the certificate
-- loads; consumer and producer also if IAM is on, and the producer alone if `tls` of SASL is set. A
-- certificate that does not load is no error.
pub clients_secured :
    (f : Files) (config : SaramaConfig) (c : ConnectorConfig) (b : BridgeConfig) (timeout : ℤ)
    → IsOff config.net
    → let consumer : NetSettings = (consumer_config f config c timeout).net in
      let producer : NetSettings = (producer_config f config c b).net in
      let manager : NetSettings = (manager_config f config c b).net in
      ((consumer.sasl_enable ≡ (has_user c || has_region c))
        × (consumer.tls_enable ≡ is_encrypted f c (has_user c || has_region c) c.iam.enable))
      × ((producer.sasl_enable ≡ (has_user c || has_region c))
          × (producer.tls_enable
              ≡ (c.sasl.tls || is_encrypted f c (has_user c || has_region c) c.iam.enable)))
      × ((manager.sasl_enable ≡ has_user c)
          × (manager.tls_enable ≡ is_encrypted f c (has_user c) false))
unfolding consumer_config producer_config manager_config is_encrypted IsOff
clients_secured f config c b timeout off =
    let sasl = with_sasl_enables c config.net off.0 in
    let tls = with_tls_enables f c (with_sasl c config.net) (sasl.1 ∙ off.1) in
    let encrypted = tls.1 ∙ ap (λ x. is_encrypted f c x c.iam.enable) sasl.0 in
    let own = with_user_only c config.net off.0 off.1 in
    let manager = with_own_tls_enables f c (user_only c config.net) (user_only c config.net) refl in
    (
      (tls.0 ∙ sasl.0, encrypted),
      (producer_tls c.sasl.tls (with_tls f c (with_sasl c config.net)) (tls.0 ∙ sasl.0) encrypted),
      (
        manager.0 ∙ own.0,
        manager.1
            ∙ ap₂ (λ x y. (x && c.sasl.insecure_skip_verify) || (has_certificate f c || y)) own.0
                own.1,
      ),
    )
