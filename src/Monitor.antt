-- ===== src/Monitor.antt =====
-- server/core/monitoring.go: the HTTP server of the bridge and its counters.
pub mod Listening
pub mod Serving
pub mod Requests
pub mod Report
use Prim.Native.String.{◌++◌ as append}
use nats_kafka.Base.{
  ℕ, ◌+◌, String, Bool, true, false, List, [], ◌∷◌, Option, none, some, ◌&&◌, ◌||◌, not, str_eq,
  if◌then◌else◌,
}
use nats_kafka.Base.Int.{ℤ, pos, negsuc, eqb_ℤ}
use nats_kafka.Base.Outcome.{reworded, ◌>>◌, Error, Outcome, ok, fail, panic, message, wrap, ◌>>=◌}
use nats_kafka.Base.Dict.{Dict, lookup, insert}
use nats_kafka.Conf.{HttpConfig}

abbrev pub root_path : String
root_path = "/"

abbrev pub varz_path : String
varz_path = "/varz"

abbrev pub healthz_path : String
healthz_path = "/healthz"

-- The fields of the bridge that `statsLock` and the monitoring server use. `listener` is the port that is
-- listened on; `http` and `http_handler` tell whether the pointer is set.
pub record Monitor : Type 0 where
  pub http_req_stats : Dict ℕ
  pub listener : Option ℕ
  pub http : Bool
  pub http_handler : Bool
  pub monitoring_url : String

unfoldable pub new_monitor : Monitor
new_monitor = record {
  http_req_stats = [];
  listener = none;
  http = false;
  http_handler = false;
  monitoring_url = "";
}

-- The network: `net.JoinHostPort` of a host and the text of a port, whether a pair of files is a
-- certificate, and `net.Listen` or, if secure, `tls.Listen`, which gives the port that it took.
pub record Net : Type 0 where
  pub join_host_port : String → ℤ → String
  pub load_x509_key_pair : String → String → Outcome (Unit {0})
  pub listen : (secure : Bool) → String → Outcome ℕ

abbrev pub no_requests : Dict ℕ
no_requests = (root_path, 0) ∷ (varz_path, 0) ∷ (healthz_path, 0) ∷ []

-- -1 asks for any free port.
pub asked_port : ℤ → ℤ
asked_port port = if eqb_ℤ port (negsuc 0) then pos 0 else port

-- A listener, with the certificate that a secure one needs.
pub open_listener : Net → HttpConfig → Bool → Outcome ℕ
unfolding asked_port
open_listener n c false =
    reworded "can't listen to the monitor port: %v"
      (n.listen false (n.join_host_port c.http_host (asked_port c.http_port)))
open_listener n c true = do
  n.load_x509_key_pair c.tls.cert c.tls.key
  reworded "can't listen to the monitor port: %v"
      (n.listen true (n.join_host_port c.http_host (asked_port c.https_port)))

pub url_of : Net → HttpConfig → Bool → ℕ → String
url_of n c secure port =
    let mhp : String = n.join_host_port c.http_host (pos port) in
    let host = if str_eq c.http_host "" then append "localhost" mhp else mhp in
    append (append (if secure then "https" else "http") "://") (append host "/")

-- What is stored once the port is listened on.
pub served : Net → HttpConfig → Bool → Monitor → Outcome ℕ → Outcome (Unit {0}) × Monitor
unfolding url_of
served n c secure m (fail e) = (fail e, m)
served n c secure m panic = (panic, m)
served n c secure m (ok port) = (
  ok tt,
  record m {
    monitoring_url = url_of n c secure port;
    listener = some port;
    http = true;
    http_handler = true;
  },
)

-- The part from the counters on.
pub serve : Net → HttpConfig → Bool → Monitor → Outcome (Unit {0}) × Monitor
unfolding open_listener served
serve n c secure m =
    served n c secure (record m { http_req_stats = no_requests }) (open_listener n c secure)

unfoldable pub is_set : ℤ → Bool
is_set port = not (eqb_ℤ port (pos 0))

unfoldable pub lacks_certificate : HttpConfig → Bool
lacks_certificate c = str_eq c.tls.cert "" || str_eq c.tls.key ""

-- The checks of the configuration, of which ports are set and whether the certificate is missing;
-- `serving` is what goes on behind them.
pub checked :
    (plain secure uncertified : Bool)
    → Monitor
    → Outcome (Unit {0}) × Monitor
    → Outcome (Unit {0}) × Monitor
checked plain secure uncertified m serving =
    if plain && secure
    then (fail (message "can't specify both HTTP (%v) and HTTPs (%v) ports"), m)
    else if not plain && not secure
    then (ok tt, m)
    else if secure && uncertified
    then (fail (message "TLS cert and key required for HTTPS"), m)
    else serving

-- `startMonitoring`
pub start_monitoring : Net → HttpConfig → Monitor → Outcome (Unit {0}) × Monitor
unfolding is_set lacks_certificate checked serve
start_monitoring n c m =
    checked (is_set c.http_port) (is_set c.https_port) (lacks_certificate c) m
      (serve n c (is_set c.https_port) m)

-- `StopMonitoring`; `shut` is what `Shutdown` returns.
pub close_listener : Monitor → Monitor
close_listener m = record m { listener = none }

unfoldable pub stop_monitoring : Outcome (Unit {0}) → Monitor → Outcome (Unit {0}) × Monitor
unfolding close_listener
stop_monitoring shut m =
    if m.http && m.http_handler
    then elim shut [
      | fail e ↦ (fail e, m)
      | panic ↦ (panic, m)
      | ok u ↦ (ok tt, close_listener (record m { http = false; http_handler = false }))
    ]
    else (ok tt, close_listener m)

-- `m[path]++`
pub count : String → Dict ℕ → Dict ℕ
count path d = insert path (elim (lookup path d) [ none ↦ 0 | some n ↦ n ] + 1) d

-- How a request is answered. The mux hands a path to the handler of that path, and every other one to
-- that of "/".
pub data Answer : Type 0 where
  found_page not_found server_error : Answer

-- A request on a path; `encodes` tells whether `json.Marshal` takes the statistics of that moment.
pub record Request : Type 0 where
  pub path : String
  pub encodes : Bool

pub handle_root : String → Dict ℕ → Answer × Dict ℕ
unfolding count
handle_root path d =
    if not (str_eq path "/") then (Answer.not_found, d) else (Answer.found_page, count root_path d)

pub handle_varz : Bool → Dict ℕ → Answer × Dict ℕ
unfolding count
handle_varz encodes d =
    (if encodes then Answer.found_page else Answer.server_error, count varz_path d)

pub handle_healthz : Dict ℕ → Answer × Dict ℕ
unfolding count
handle_healthz d = (Answer.found_page, count healthz_path d)

unfoldable pub handle : Request → Dict ℕ → Answer × Dict ℕ
unfolding handle_root handle_varz handle_healthz
handle r d =
    if str_eq r.path varz_path
    then handle_varz r.encodes d
    else if str_eq r.path healthz_path
    then handle_healthz d
    else handle_root r.path d

-- One request after the other: the counters behind them.
pub handle_each : List Request → Dict ℕ → Dict ℕ
unfolding handle
handle_each [] d = d
handle_each (r ∷ rs) d = handle_each rs (handle r d).1
