-- ===== src/Modules/Cpe.antt =====
-- backend/app/modules/cpe.py: product names and CPE names. `lower` is `str.lower`, and `re` is Python's `re`.
use scan_ledger.Prelude.{Option, none, some, [], ◌∷◌, String, string_eq, Dict, get}
use scan_ledger.Text.{strip, some_text}
use scan_ledger.Text.Join.{f_string}
use scan_ledger.Modules.Fingerprints.{Pattern, no_flags}

pub record CpeIdentity : Type 0 where
  pub vendor : String
  pub product : String

abbrev identity : String → String → CpeIdentity
identity vendor product = record { vendor = vendor; product = product }

abbrev pub curated_cpe_map : Dict String CpeIdentity
curated_cpe_map =
    ("openssh", identity "openbsd" "openssh")
    ∷ ("dropbear", identity "dropbear_ssh_project" "dropbear_ssh")
    ∷ ("apache", identity "apache" "http_server")
    ∷ ("apache httpd", identity "apache" "http_server")
    ∷ ("httpd", identity "apache" "http_server")
    ∷ ("nginx", identity "f5" "nginx")
    ∷ ("lighttpd", identity "lighttpd" "lighttpd")
    ∷ ("iis", identity "microsoft" "internet_information_services")
    ∷ ("microsoft-iis", identity "microsoft" "internet_information_services")
    ∷ ("vsftpd", identity "vsftpd_project" "vsftpd")
    ∷ ("proftpd", identity "proftpd" "proftpd")
    ∷ ("filezilla server", identity "filezilla-project" "filezilla_server")
    ∷ ("pure-ftpd", identity "pureftpd" "pure-ftpd")
    ∷ ("mysql", identity "oracle" "mysql")
    ∷ ("mariadb", identity "mariadb" "mariadb")
    ∷ ("postgresql", identity "postgresql" "postgresql")
    ∷ ("redis", identity "redis" "redis")
    ∷ ("mongodb", identity "mongodb" "mongodb")
    ∷ ("elasticsearch", identity "elastic" "elasticsearch")
    ∷ ("postfix", identity "postfix" "postfix")
    ∷ ("exim", identity "exim" "exim")
    ∷ ("dovecot", identity "dovecot" "dovecot")
    ∷ ("samba", identity "samba" "samba")
    ∷ ("openssl", identity "openssl" "openssl")
    ∷ ("tomcat", identity "apache" "tomcat")
    ∷ ("apache tomcat", identity "apache" "tomcat")
    ∷ ("jenkins", identity "jenkins" "jenkins")
    ∷ ("grafana", identity "grafana" "grafana")
    ∷ ("jetty", identity "eclipse" "jetty")
    ∷ ("node.js", identity "nodejs" "node.js")
    ∷ ("werkzeug", identity "palletsprojects" "werkzeug")
    ∷ ("gunicorn", identity "gunicorn" "gunicorn")
    ∷ ("squid", identity "squid-cache" "squid")
    ∷ ("haproxy", identity "haproxy" "haproxy")
    ∷ ("openvpn", identity "openvpn" "openvpn")
    ∷ ("vnc", identity "realvnc" "vnc")
    ∷ ("memcached", identity "memcached" "memcached")
    ∷ []

abbrev pub version_pattern : Pattern
version_pattern = record { text = "^\\d+(?:\\.\\d+)*"; flags = no_flags }

-- `match_all p s` is `p.match(s).group(0)`, `none` without a match.
module _ (lower : String → String) (match_all : Pattern → String → Option String) where
  unfoldable pub normalize_version : Option String → Option String
  unfolding some_text strip
  normalize_version version = elim (some_text version) [
    | none ↦ none
    | some v ↦ match_all version_pattern (strip v)
  ]

  unfoldable pub lookup : Option String → Option CpeIdentity
  unfolding some_text strip
  lookup product = elim (some_text product) [
    | none ↦ none
    | some name ↦ get curated_cpe_map (lower (strip name))
  ]

  -- `version or '*'`
  abbrev pub version_part : Option String → String
  version_part version = elim (some_text version) [ none ↦ "*" | some v ↦ v ]

  unfoldable pub build_cpe_name : CpeIdentity → Option String → String
  unfolding some_text f_string
  build_cpe_name i version = f_string (
      "cpe:2.3:a:"
      ∷ i.vendor
      ∷ ":"
      ∷ i.product
      ∷ ":"
      ∷ version_part version
      ∷ ":*:*:*:*:*:*:*"
      ∷ [])

  unfoldable pub cpe_for : Option String → Option String → Option String
  unfolding lookup build_cpe_name normalize_version
  cpe_for product version = elim (lookup product) [
    | none ↦ none
    | some i ↦ some (build_cpe_name i (normalize_version version))
  ]
