-- ===== src/Monitor/Serving.antt =====
-- When the monitoring server listens.
use nats_kafka.Base.{
  ℕ, Bool, true, false, not, ◌&&◌, ◌||◌, Option, none, some, ◌≡◌, ◌≢◌, refl, sym, ap, ◌∙◌, ◌↔◌, ◌⊎◌,
  inl, inr, if◌then◌else◌, Bool-cases, arith, eq_iff,
}
use nats_kafka.Base.Int.{ℤ, pos, eqb_ℤ_iff}
use nats_kafka.Base.Outcome.{Outcome, ok, fail, panic, is_ok}
use nats_kafka.Conf.{HttpConfig}
use nats_kafka.Monitor.Listening.{ServesHttp, ServesHttps, open_plain_iff, open_secure_iff}
use nats_kafka.Monitor.{
  Monitor, Net, no_requests, open_listener, served, serve, is_set, lacks_certificate, checked,
  start_monitoring, close_listener, stop_monitoring,
}

abbrev is_some : Option ℕ → Bool
is_some none = false
is_some (some n) = true

-- The three pointers are set together or not at all.
unfoldable pub IsWhole : Monitor → Type 0
IsWhole m = (m.http_handler ≡ m.http) × (is_some m.listener ≡ m.http)

served_iff :
    (n : Net) (c : HttpConfig) (secure : Bool) (m : Monitor) (r : Outcome ℕ)
    → ((served n c secure m r).0 ≡ ok tt) ↔ ((port : ℕ) × (r ≡ ok port))
unfolding served
served_iff n c secure m (ok port) = (λ h. (port, refl), λ h. refl)
served_iff n c secure m (fail e) = (λ h. cc, λ h. let no = h.1 in cc)
served_iff n c secure m panic = (λ h. cc, λ h. let no = h.1 in cc)

checked_iff :
    (plain secure uncertified : Bool) (m : Monitor) (serving : Outcome (Unit {0}) × Monitor)
    → ((checked plain secure uncertified m serving).0 ≡ ok tt) ↔ (
        ((plain ≡ false) × (secure ≡ false))
        ⊎ ((plain ≡ not secure) × ((secure && uncertified) ≡ false) × (serving.0 ≡ ok tt)))
unfolding checked
checked_iff true true u m x =
    (λ h. cc, λ h. elim h [ inl off ↦ let no = off.0 in cc | inr on ↦ let no = on.0 in cc ])
checked_iff true false u m x =
    (λ h. inr (refl, refl, h), λ h. elim h [ inl off ↦ let no = off.0 in cc | inr on ↦ on.2 ])
checked_iff false true true m x =
    (λ h. cc, λ h. elim h [ inl off ↦ let no = off.1 in cc | inr on ↦ let no = on.1 in cc ])
checked_iff false true false m x =
    (λ h. inr (refl, refl, h), λ h. elim h [ inl off ↦ let no = off.1 in cc | inr on ↦ on.2 ])
checked_iff false false u m x = (λ h. inl (refl, refl), λ h. refl)

is_set_iff : (port : ℤ) → (is_set port ≡ false) ↔ (port ≡ pos 0)
unfolding is_set
is_set_iff port =
    let test = eqb_ℤ_iff port (pos 0) in (λ h. ground (arith, test), λ h. ground (arith, test))

is_set_other : (port : ℤ) → (is_set port ≡ true) ↔ (port ≢ pos 0)
unfolding is_set
is_set_other port =
    let test = eqb_ℤ_iff port (pos 0) in (λ h. ground (arith, test), λ h. ground (arith, test))

lacks_certificate_iff :
    (c : HttpConfig) → (lacks_certificate c ≡ false) ↔ ((c.tls.cert ≢ "") × (c.tls.key ≢ ""))
unfolding lacks_certificate
lacks_certificate_iff c =
    let cert = eq_iff c.tls.cert "" in
    let key = eq_iff c.tls.key "" in
    (λ h. ground (arith, cert, key), λ h. ground (arith, cert, key))

-- The part behind the checks opens the listener.
serve_iff :
    (n : Net) (c : HttpConfig) (secure : Bool) (m : Monitor)
    → ((serve n c secure m).0 ≡ ok tt) ↔ ((port : ℕ) × (open_listener n c secure ≡ ok port))
unfolding serve
serve_iff n c secure m =
    served_iff n c secure (record m { http_req_stats = no_requests }) (open_listener n c secure)

serving_sound :
    (n : Net) (c : HttpConfig) (m : Monitor)
    → is_set c.http_port ≡ not (is_set c.https_port)
    → (is_set c.https_port && lacks_certificate c) ≡ false
    → (serve n c (is_set c.https_port) m).0 ≡ ok tt
    → ServesHttp n c ⊎ ServesHttps n c
serving_sound n c m one certified h = elim (Bool-cases (is_set c.https_port)) [
  | inl secure ↦
      let (loads, listens) = (open_secure_iff n c).0 ((serve_iff n c true m).0 (rw secure at h)) in
      let (cert, key) = (lacks_certificate_iff c).0 (rw secure at certified) in
      inr (record {
        not_plain = (is_set_iff c.http_port).0 (one ∙ ap not secure);
        secure = (is_set_other c.https_port).0 secure;
        has_cert = cert;
        has_key = key;
        loads = loads;
        listens = listens;
      })
  | inr plain ↦ inl (record {
    plain = (is_set_other c.http_port).0 (one ∙ ap not plain);
    not_secure = (is_set_iff c.https_port).0 plain;
    listens = (open_plain_iff n c).0 ((serve_iff n c false m).0 (rw plain at h));
  })
]

http_complete :
    (n : Net) (c : HttpConfig) (m : Monitor)
    → ServesHttp n c
    → (is_set c.http_port ≡ not (is_set c.https_port))
      × ((is_set c.https_port && lacks_certificate c) ≡ false)
      × ((serve n c (is_set c.https_port) m).0 ≡ ok tt)
http_complete n c m h =
    let plain = (is_set_other c.http_port).1 h.plain in
    let off = (is_set_iff c.https_port).1 h.not_secure in
    (
      plain ∙ ap not (sym off),
      ap (λ b. b && lacks_certificate c) off,
      rw off ((serve_iff n c false m).1 ((open_plain_iff n c).1 h.listens)),
    )

https_complete :
    (n : Net) (c : HttpConfig) (m : Monitor)
    → ServesHttps n c
    → (is_set c.http_port ≡ not (is_set c.https_port))
      × ((is_set c.https_port && lacks_certificate c) ≡ false)
      × ((serve n c (is_set c.https_port) m).0 ≡ ok tt)
https_complete n c m h =
    let off = (is_set_iff c.http_port).1 h.not_plain in
    let secure = (is_set_other c.https_port).1 h.secure in
    (
      off ∙ ap not (sym secure),
      ap (λ b. b && lacks_certificate c) secure
          ∙ (lacks_certificate_iff c).1 (h.has_cert, h.has_key),
      rw secure ((serve_iff n c true m).1 ((open_secure_iff n c).1 (h.loads, h.listens))),
    )

-- Monitoring starts without an error exactly if neither port is set, or HTTP alone is and its port can be
-- listened on, or HTTPS alone is, with a certificate and a key that load and a port that can be listened
-- on. A port of -1 asks for any port.
pub start_monitoring_iff :
    (n : Net) (c : HttpConfig) (m : Monitor)
    → ((start_monitoring n c m).0 ≡ ok tt)
      ↔ (((c.http_port ≡ pos 0) × (c.https_port ≡ pos 0)) ⊎ (ServesHttp n c ⊎ ServesHttps n c))
unfolding start_monitoring
start_monitoring_iff n c m =
    let whole =
      checked_iff (is_set c.http_port) (is_set c.https_port) (lacks_certificate c) m
        (serve n c (is_set c.https_port) m) in
    (
      λ h. elim (whole.0 h) [
        | inl off ↦ inl ((is_set_iff c.http_port).0 off.0, (is_set_iff c.https_port).0 off.1)
        | inr on ↦ inr (serving_sound n c m on.0 on.1 on.2)
      ],
      λ h. whole.1 (elim h [
        | inl off ↦ inl ((is_set_iff c.http_port).1 off.0, (is_set_iff c.https_port).1 off.1)
        | inr (inl http) ↦ inr (http_complete n c m http)
        | inr (inr https) ↦ inr (https_complete n c m https)
      ]),
    )

served-IsWhole :
    (n : Net) (c : HttpConfig) (secure : Bool) (m : Monitor) (r : Outcome ℕ)
    → IsWhole m
    → IsWhole (served n c secure m r).1
unfolding served IsWhole
served-IsWhole n c secure m (ok port) h = (refl, refl)
served-IsWhole n c secure m (fail e) h = h
served-IsWhole n c secure m panic h = h

checked-IsWhole :
    (plain secure uncertified : Bool) (m : Monitor) (x : Outcome (Unit {0}) × Monitor)
    → IsWhole m
    → IsWhole x.1
    → IsWhole (checked plain secure uncertified m x).1
unfolding checked
checked-IsWhole true true u m x h k = h
checked-IsWhole true false u m x h k = k
checked-IsWhole false true true m x h k = h
checked-IsWhole false true false m x h k = k
checked-IsWhole false false u m x h k = h

-- The server, its handler and its listener are set together or not at all, whatever starting came to.
pub start_monitoring-IsWhole :
    (n : Net) (c : HttpConfig) (m : Monitor) → IsWhole m → IsWhole (start_monitoring n c m).1
unfolding start_monitoring serve IsWhole
start_monitoring-IsWhole n c m h =
    checked-IsWhole (is_set c.http_port) (is_set c.https_port) (lacks_certificate c) m
      (serve n c (is_set c.https_port) m) h
      (served-IsWhole n c (is_set c.https_port) (record m { http_req_stats = no_requests })
        (open_listener n c (is_set c.https_port)) h)

stop_monitoring_of_whole :
    (m : Monitor) (shut : Outcome (Unit {0}))
    → IsWhole m
    → (stop_monitoring shut m).1 ≡ (
        if is_ok shut || not m.http
        then record m { http = false; http_handler = false; listener = none }
        else m)
unfolding stop_monitoring close_listener IsWhole
stop_monitoring_of_whole m (ok u) h = elim (Bool-cases m.http) [
  | inl on ↦ rw (on, h.0 ∙ on) refl
  | inr off ↦ rw (off, h.0 ∙ off) refl
]
stop_monitoring_of_whole m (fail e) h = elim (Bool-cases m.http) [
  | inl on ↦ rw (on, h.0 ∙ on) refl
  | inr off ↦ rw (off, h.0 ∙ off) refl
]
stop_monitoring_of_whole m panic h = elim (Bool-cases m.http) [
  | inl on ↦ rw (on, h.0 ∙ on) refl
  | inr off ↦ rw (off, h.0 ∙ off) refl
]

-- Whatever starting came to, stopping afterwards leaves nothing behind if `Shutdown` returns no error:
-- no listener, no server and no handler. The URL and the counters stay. With an error nothing is
-- changed, so that the listener is not closed.
pub stop_monitoring-start_monitoring :
    (n : Net) (c : HttpConfig) (m : Monitor) (shut : Outcome (Unit {0}))
    → IsWhole m
    → let m' : Monitor = (start_monitoring n c m).1 in
      (stop_monitoring shut m').1 ≡ (
        if is_ok shut || not m'.http
        then record m' { http = false; http_handler = false; listener = none }
        else m')
stop_monitoring-start_monitoring n c m shut h =
    stop_monitoring_of_whole (start_monitoring n c m).1 shut (start_monitoring-IsWhole n c m h)
