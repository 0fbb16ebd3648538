-- ===== src/Monitor/Listening.antt =====
-- When the listener of the monitoring server can be opened, described apart from the code.
use nats_kafka.Base.{
  ℕ, String, Bool, true, false, ◌≡◌, ◌≢◌, refl, sym, ap, ◌∙◌, ◌↔◌, ◌⊎◌, inl, inr, Bool-cases,
}
use nats_kafka.Base.Int.{ℤ, pos, negsuc, eqb_ℤ, eqb_ℤ_iff}
use nats_kafka.Base.Outcome.{Outcome, ok, fail, panic, reworded, >>=-eq-ok}
use nats_kafka.Conf.{HttpConfig}
use nats_kafka.Monitor.{Net, asked_port, open_listener}

-- The port that is asked for: -1 stands for any, which is 0.
pub Asks : ℤ → ℤ → Type 0
Asks port asked = ((port ≡ negsuc 0) × (asked ≡ pos 0)) ⊎ ((port ≢ negsuc 0) × (asked ≡ port))

-- The port can be listened on.
pub CanListen : Net → (secure : Bool) → String → ℤ → Type 0
CanListen n secure host port =
    (asked : ℤ) × (taken : ℕ) × Asks port asked
    × (n.listen secure (n.join_host_port host asked) ≡ ok taken)

-- HTTP alone is asked for, and its port can be listened on.
pub record ServesHttp (n : Net) (c : HttpConfig) : Type 0 where
  pub plain : c.http_port ≢ pos 0
  pub not_secure : c.https_port ≡ pos 0
  pub listens : CanListen n false c.http_host c.http_port

-- HTTPS alone is asked for, with a certificate and a key that load, and its port can be listened on.
pub record ServesHttps (n : Net) (c : HttpConfig) : Type 0 where
  pub not_plain : c.http_port ≡ pos 0
  pub secure : c.https_port ≢ pos 0
  pub has_cert : c.tls.cert ≢ ""
  pub has_key : c.tls.key ≢ ""
  pub loads : n.load_x509_key_pair c.tls.cert c.tls.key ≡ ok tt
  pub listens : CanListen n true c.http_host c.https_port

Asks-asked_port : (port : ℤ) → Asks port (asked_port port)
unfolding Asks asked_port
Asks-asked_port port = elim (Bool-cases (eqb_ℤ port (negsuc 0))) [
  | inl any ↦ inl ((eqb_ℤ_iff port (negsuc 0)).0 any, rw (any, asked_port) refl)
  | inr one ↦
      inr (λ e. let no = sym one ∙ (eqb_ℤ_iff port (negsuc 0)).1 e in cc, rw (one, asked_port) refl)
]

asked_port_unique : (port asked : ℤ) → Asks port asked → asked ≡ asked_port port
unfolding Asks
asked_port_unique port asked h = elim (Asks-asked_port port) [
  | inl (e, q) ↦ elim h [ inl (e', q') ↦ q' ∙ sym q | inr (e', q') ↦ elim (e' e) [ ] ]
  | inr (e, q) ↦ elim h [ inl (e', q') ↦ elim (e e') [ ] | inr (e', q') ↦ q' ∙ sym q ]
]

reworded-eq-ok : (t : String) (r : Outcome ℕ) (port : ℕ) → (reworded t r ≡ ok port) ↔ (r ≡ ok port)
reworded-eq-ok t (ok a) port = (λ h. h, λ h. h)
reworded-eq-ok t (fail e) port = (λ h. cc, λ h. cc)
reworded-eq-ok t panic port = (λ h. cc, λ h. cc)

can_listen :
    (n : Net) (secure : Bool) (host : String) (port : ℤ) (taken : ℕ)
    → n.listen secure (n.join_host_port host (asked_port port)) ≡ ok taken
    → CanListen n secure host port
unfolding CanListen
can_listen n secure host port taken h = (asked_port port, taken, Asks-asked_port port, h)

listens_on :
    (n : Net) (secure : Bool) (host : String) (port : ℤ)
    → CanListen n secure host port
    → (taken : ℕ) × (n.listen secure (n.join_host_port host (asked_port port)) ≡ ok taken)
unfolding CanListen
listens_on n secure host port (asked, taken, asks, h) = (
  taken,
  ap (λ p. n.listen secure (n.join_host_port host p)) (sym (asked_port_unique port asked asks)) ∙ h,
)

-- A listener is opened exactly if the port can be listened on, for HTTPS with a key pair that loads.
pub open_plain_iff :
    (n : Net) (c : HttpConfig)
    → ((port : ℕ) × (open_listener n c false ≡ ok port)) ↔ CanListen n false c.http_host c.http_port
unfolding open_listener
open_plain_iff n c = (
  λ (port, h). can_listen n false c.http_host c.http_port port ((reworded-eq-ok _ _ port).0 h),
  λ h.
      let (port, e) = listens_on n false c.http_host c.http_port h in
      (port, (reworded-eq-ok _ _ port).1 e),
)

pub open_secure_iff :
    (n : Net) (c : HttpConfig)
    → ((port : ℕ) × (open_listener n c true ≡ ok port)) ↔ (
        (n.load_x509_key_pair c.tls.cert c.tls.key ≡ ok tt)
        × CanListen n true c.http_host c.https_port)
unfolding open_listener
open_secure_iff n c = (
  λ (port, h).
      let (u, loads, rest) = >>=-eq-ok (n.load_x509_key_pair c.tls.cert c.tls.key) _ h in
      (loads, can_listen n true c.http_host c.https_port port ((reworded-eq-ok _ _ port).0 rest)),
  λ (loads, h).
      let (port, e) = listens_on n true c.http_host c.https_port h in
      (port, rw loads ((reworded-eq-ok _ _ port).1 e)),
)
