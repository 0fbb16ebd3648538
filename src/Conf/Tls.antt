-- ===== src/Conf/Tls.antt =====
-- `MakeTLSConfig` of server/conf/conf.go. Certificates and files are those of crypto/tls, crypto/x509 and
-- the operating system.
use nats_kafka.Base.{ℕ, String, Bool, false, Option, none, some, ◌||◌, not, str_eq, if◌then◌else◌}
use nats_kafka.Base.Outcome.{Outcome, reworded, ok, ◌>>=◌, ◌>>◌}
use nats_kafka.Conf.{TlsConf}

-- `tls.LoadX509KeyPair` with `x509.ParseCertificate` of what it gives, and `os.ReadFile`; a file is a
-- number that stands for its contents.
pub record Files : Type 0 where
  pub load_x509_key_pair : String → String → Outcome ℕ
  pub parse_certificate : ℕ → Outcome (Unit {0})
  pub read_file : String → Outcome ℕ

-- `tls.Config`: the certificate, the least version (12 for 1.2) and the certificate pool, where they are set.
pub record TlsConfig : Type 0 where
  pub certificate : Option ℕ
  pub min_version : Option ℕ
  pub root_cas : Option ℕ
  pub insecure_skip_verify : Bool

pub plain_tls : TlsConfig
plain_tls = record {
  certificate = none;
  min_version = none;
  root_cas = none;
  insecure_skip_verify = false;
}

unfoldable pub with_root : Files → TlsConf → TlsConfig → Outcome (Option TlsConfig)
with_root f t c =
    if not (str_eq t.root "")
    then (do pool ← f.read_file t.root; ok (some (record c { root_cas = some pool })))
    else ok (some c)

-- No certificate is no configuration, and no error.
pub make_tls_config : Files → TlsConf → Outcome (Option TlsConfig)
unfolding with_root plain_tls
make_tls_config f t = if str_eq t.cert "" || str_eq t.key "" then ok none else (do
  cert ← reworded "error loading X509 certificate/key pair: %v" (f.load_x509_key_pair t.cert t.key)
  reworded "error parsing certificate: %v" (f.parse_certificate cert)
  with_root f t (record plain_tls { certificate = some cert; min_version = some 12 }))
