-- ===== src/Modules/Fingerprints.antt =====
-- backend/app/modules/fingerprints.py: a service named from what it sent. Python's `re` is an argument:
-- `search` and `match_start` give the groups of a match, the first one first, `none` for a group that took
-- no part in it.
pub mod Stated
use scan_ledger.Prelude.{ℕ, Option, none, some, List, [], ◌∷◌, String, Dict, get, nat_eq}
use scan_ledger.Text.{strip, some_text}
use scan_ledger.Models.Domain.{Confidence}

-- The flags that the patterns are compiled with: re.I, re.S, re.I | re.M, re.I | re.S, and no flag.
pub data Flags : Type 0 where
  ignore_case dot_all ignore_case_multi_line ignore_case_dot_all no_flags : Flags

pub record Pattern : Type 0 where
  pub text : String
  pub flags : Flags

abbrev pub Groups : Type 0
Groups = List (Option String)

pub record Re : Type 0 where
  pub search : Pattern → String → Option Groups
  -- `pattern.match`
  pub match_start : Pattern → String → Option Groups

-- `match.group(1)` and `match.group(2)`, with `none` for a group that the pattern does not have
abbrev pub group_1 : Groups → Option String
group_1 [] = none
group_1 (g ∷ groups) = g

abbrev pub group_2 : Groups → Option String
group_2 [] = none
group_2 (g ∷ groups) = group_1 groups

pub record ServiceGuess : Type 0 where
  pub service : String
  pub product : Option String
  pub version : Option String
  pub confidence : Confidence

pub record BannerPattern : Type 0 where
  pub service : String
  pub product : String
  pub pattern : Pattern

abbrev banner_pattern : String → String → String → Flags → BannerPattern
banner_pattern service product text flags = record {
  service = service;
  product = product;
  pattern = record { text = text; flags = flags };
}

abbrev pub banner_patterns : List BannerPattern
banner_patterns =
    banner_pattern "ssh" "OpenSSH" "SSH-[\\d.]+-OpenSSH[_-]([\\w.]+)" ignore_case
    ∷ banner_pattern "ssh" "Dropbear" "SSH-[\\d.]+-dropbear[_-]?([\\w.]*)" ignore_case
    ∷ banner_pattern "ftp" "vsftpd" "vsftpd\\s+([\\d.]+)" ignore_case
    ∷ banner_pattern "ftp" "ProFTPD" "ProFTPD\\s+([\\d.]+)" ignore_case
    ∷ banner_pattern "ftp" "FileZilla Server" "FileZilla Server\\s+([\\d.]+)" ignore_case
    ∷ banner_pattern "smtp" "Postfix" "\\bPostfix\\b(?:\\s+([\\d.]+))?" ignore_case
    ∷ banner_pattern "smtp" "Exim" "\\bExim\\s+([\\d.]+)" ignore_case
    ∷ banner_pattern "imap" "Dovecot" "\\bDovecot\\b(?:\\s+([\\d.]+))?" ignore_case
    ∷ banner_pattern "mysql" "MySQL" "([\\d]+\\.[\\d]+\\.[\\d]+)[\\w-]*\\x00" ignore_case
    ∷ banner_pattern "mysql" "MariaDB" "([\\d.]+)-MariaDB" ignore_case
    ∷ banner_pattern "redis" "Redis" "redis_version:([\\d.]+)" ignore_case
    ∷ banner_pattern "postgresql" "PostgreSQL" "PostgreSQL\\s+([\\d.]+)" ignore_case
    ∷ banner_pattern "telnet" "Telnet" "^\\xff[\\xfb-\\xfe]" dot_all
    ∷ []

abbrev pub well_known_service_names : Dict ℕ String
well_known_service_names =
    (21, "ftp")
    ∷ (22, "ssh")
    ∷ (23, "telnet")
    ∷ (25, "smtp")
    ∷ (53, "dns")
    ∷ (80, "http")
    ∷ (110, "pop3")
    ∷ (135, "msrpc")
    ∷ (139, "netbios-ssn")
    ∷ (143, "imap")
    ∷ (443, "https")
    ∷ (445, "microsoft-ds")
    ∷ (993, "imaps")
    ∷ (995, "pop3s")
    ∷ (1433, "ms-sql")
    ∷ (3306, "mysql")
    ∷ (3389, "ms-wbt-server")
    ∷ (5432, "postgresql")
    ∷ (5900, "vnc")
    ∷ (6379, "redis")
    ∷ (8080, "http-proxy")
    ∷ (8443, "https-alt")
    ∷ (9200, "elasticsearch")
    ∷ (27017, "mongodb")
    ∷ []

abbrev pub http_server_header : Pattern
http_server_header = record { text = "^server:\\s*(.+)$"; flags = ignore_case_multi_line }

abbrev pub http_product_version : Pattern
http_product_version = record { text = "^([A-Za-z][\\w.+-]*)(?:/([\\w.]+))?"; flags = no_flags }

-- `Confidence.HIGH if version else Confidence.MEDIUM`
abbrev pub confidence_of : Option String → Confidence
confidence_of version = elim (some_text version) [
  | some v ↦ Confidence.high
  | none ↦ Confidence.medium
]

-- `service_name_for_port`
unfoldable pub service_name_for_port : ℕ → Option ServiceGuess
service_name_for_port port = elim (get well_known_service_names port) [
  | none ↦ none
  | some name ↦
      some (record { service = name; product = none; version = none; confidence = Confidence.low })
]

-- The guess of an entry that matched.
unfoldable pub guess_of : BannerPattern → Groups → ServiceGuess
unfolding some_text
guess_of entry groups =
    let version = some_text (group_1 groups) in
    record {
      service = entry.service;
      product = some entry.product;
      version = version;
      confidence = confidence_of version;
    }

-- What the match against a product and its version gives.
abbrev pub header_guess : Option Groups → ServiceGuess
header_guess none = record {
  service = "http";
  product = none;
  version = none;
  confidence = Confidence.low;
}
header_guess (some groups) = record {
  service = "http";
  product = group_1 groups;
  version = group_2 groups;
  confidence = confidence_of (group_2 groups);
}

module _ (re : Re) where
  -- The loop over the patterns.
  unfoldable pub first_match : List BannerPattern → String → Option ServiceGuess
  unfolding guess_of
  first_match [] banner = none
  first_match (entry ∷ entries) banner =
      let rest = first_match entries banner in
      elim (re.search entry.pattern banner) [
        | none ↦ rest
        | some groups ↦ some (guess_of entry groups)
      ]

  unfoldable pub identify_from_banner : String → ℕ → Option ServiceGuess
  unfolding first_match
  identify_from_banner banner port = first_match banner_patterns banner

  unfoldable pub identify_from_http_server_header : String → ServiceGuess
  unfolding strip
  identify_from_http_server_header header_value =
      header_guess (re.match_start http_product_version (strip header_value))
