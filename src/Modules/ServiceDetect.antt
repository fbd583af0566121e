-- ===== src/Modules/ServiceDetect.antt =====
-- backend/app/modules/service_detect.py. What each call of the guard's `open_stream` gives when it ends, and
-- what the stream is then read as, are arguments, as are `str` on an address, `decode` and Python's `re`.

pub mod Honest
pub mod Identified
pub mod Ran
pub mod Total
use scan_ledger.Prelude.{
  ℕ, Bool, true, false, Option, none, some, List, [], ◌∷◌, String, string_eq, ◌==◌, nat_eq, any,
  map, if◌then◌else◌, Outcome, returns, raises, ◌>>=◌, Dict,
}
use scan_ledger.Text.{some_text, first_chars}
use scan_ledger.Text.Join.{f_string}
use scan_ledger.Text.Decimal.{str_of}
use scan_ledger.Net.{IpAddress, size}
use scan_ledger.Models.Domain.{FindingCategory, Confidence, confidence_text}
use scan_ledger.Models.Findings.{Finding}
use scan_ledger.Guard.ScanGuard.{ValidatedTarget}
use scan_ledger.Guard.Connect.{ConnectError, timeout_error, connection_refused, other_os_error}
use scan_ledger.Guard.Stream.{Bytes}
use scan_ledger.Scan.Concurrency.{concat, in_bounded_waves}
use scan_ledger.Modules.Ports.{hosts_from, or_else}
use scan_ledger.Modules.Sweep.{ProbeResult, Swept, collect}
use scan_ledger.Modules.OpenPorts.{open_ports_by_host}
use scan_ledger.Modules.Fingerprints.{
  Re, ServiceGuess, group_1, http_server_header, identify_from_banner,
  identify_from_http_server_header, service_name_for_port,
}

abbrev pub service_name : String
service_name = "service_detect"

abbrev pub tls_ports : List ℕ
tls_ports = 443 ∷ 465 ∷ 636 ∷ 993 ∷ 995 ∷ 8443 ∷ []

abbrev pub is_tls_port : ℕ → Bool
is_tls_port port = any tls_ports (λ p. port == p)

-- What the module is given, and how the network answers it.
pub record ServiceContext (V S : Type 0) : Type 0 where
  pub target : ValidatedTarget
  pub prior_findings : List (Finding V)
  pub cancel_at : String → ℕ → Bool
  -- `guard.open_stream(target, address, port, governor, use_tls=…)`, when it has ended
  pub stream_of : IpAddress → ℕ → Bool → Outcome ConnectError S
  -- The first read of the stream: `none` for a TimeoutError or an OSError.
  pub volunteered : S → Option Bytes
  -- The read after this text was written and drained.
  pub replied : S → String → Option Bytes

-- The port, and what was made of it: service, product, version and transport.
pub record ServiceFacts : Type 0 where
  pub port : ℕ
  pub service : String
  pub product : Option String
  pub version : Option String
  pub transport : String

abbrev pub request_to : String → String
request_to host = f_string (
    "GET / HTTP/1.1\r\nHost: " ∷ host ∷ "\r\nUser-Agent: ScanLedger\r\n"
    ∷ "Accept: */*\r\nConnection: close\r\n\r\n" ∷ [])

abbrev pub version_text : Option String → String
version_text version = elim (some_text version) [ none ↦ "" | some v ↦ f_string (" " ∷ v ∷ []) ]

abbrev pub unstated_text : Option String → String
unstated_text version = elim (some_text version) [
  | none ↦ " The service did not state a version."
  | some v ↦ ""
]

abbrev pub transport_of : Bool → String
transport_of use_tls = if use_tls then "tls" else "tcp"

-- `guess.product or guess.service`
abbrev pub described_as : ServiceGuess → String
described_as guess = or_else (some_text guess.product) guess.service

-- `banner[:2000] if banner else None`
abbrev pub evidence_in : String → Option String
evidence_in banner = elim (some_text (some banner)) [
  | none ↦ none
  | some b ↦ some (first_chars 2000 b)
]

-- `_service_finding`
unfoldable pub service_finding : String → ℕ → ServiceGuess → String → Bool → Finding ServiceFacts
unfolding f_string str_of some_text first_chars
service_finding host port guess banner use_tls =
    let described = described_as guess in
    let version = version_text guess.version in
    record {
      host = host;
      port = some port;
      category = FindingCategory.port_service;
      kind = "service.detected";
      title = f_string (host ∷ ":" ∷ str_of port ∷ "/tcp runs " ∷ described ∷ version ∷ []);
      summary = f_string (
          "Identified as "
          ∷ described
          ∷ version
          ∷ " ("
          ∷ confidence_text guess.confidence
          ∷ " confidence, "
          ∷ transport_of use_tls
          ∷ ")."
          ∷ unstated_text guess.version
          ∷ []);
      module_name = service_name;
      identity_key = f_string ("service/" ∷ str_of port ∷ []);
      normalized_value = record {
        port = port;
        service = guess.service;
        product = guess.product;
        version = guess.version;
        transport = transport_of use_tls;
      };
      raw_evidence = evidence_in banner;
      confidence = some guess.confidence;
    }

abbrev pub no_ports_warning : String
no_ports_warning = "no open ports were available from this scan, so no service could be identified"

abbrev pub service_budget_warning : String
service_budget_warning =
    "the governor's probe budget was reached; some open ports were not identified"

-- `… for host, ports in open_ports.items() for port in ports`
unfoldable pub host_ports : Dict String (List ℕ) → List (String × ℕ)
host_ports open_ports =
    concat (map (λ ((host, ports) : String × List ℕ). map (λ p. (host, p)) ports) open_ports)

abbrev pub unknown_guess : ServiceGuess
unknown_guess = record {
  service = "unknown";
  product = none;
  version = none;
  confidence = Confidence.low;
}

module _ (re : Re) where
  -- The guess from the banner, if it has one.
  unfoldable pub stated_guess : String → ℕ → Option ServiceGuess
  unfolding identify_from_banner identify_from_http_server_header
  stated_guess banner port =
      if banner == "" then none else elim (identify_from_banner re banner port) [
        | some guess ↦ some guess
        | none ↦ elim (re.search http_server_header banner) [
          | none ↦ none
          | some groups ↦ some (identify_from_http_server_header re (or_else (group_1 groups) ""))
        ]
      ]

  unfoldable pub guess_for : String → ℕ → ServiceGuess
  unfolding stated_guess service_name_for_port
  guess_for banner port =
      or_else (stated_guess banner port) (or_else (service_name_for_port port) unknown_guess)

module _ (str_address : IpAddress → String) where
  -- One of the loops of `_address_for`.
  unfoldable pub first_named : List IpAddress → String → Option IpAddress
  first_named [] host = none
  first_named (a ∷ candidates) host =
      let rest = first_named candidates host in if str_address a == host then some a else rest

  -- `_address_for`; a network is gone through with its first and its last address.
  unfoldable pub address_for : ValidatedTarget → String → Option IpAddress
  unfolding first_named hosts_from
  address_for target host = elim (first_named target.addresses host) [
    | some a ↦ some a
    | none ↦ elim target.network [
      | none ↦ none
      | some n ↦ first_named (hosts_from n.version n.base (size n)) host
    ]
  ]

  module _ {V S : Type 0} (decode : Bytes → String) (re : Re) (context : ServiceContext V S) where
    -- `_read_banner`
    unfoldable pub read_banner : S → String → String
    unfolding f_string
    read_banner stream host =
        let asked : String = elim (context.replied stream (request_to host)) [
          | none ↦ ""
          | some raw ↦ decode raw
        ] in
        elim (context.volunteered stream) [
          | none ↦ asked
          | some [] ↦ asked
          | some (b ∷ raw) ↦ decode (b ∷ raw)
        ]

    -- What `_identify` makes of an `open_stream` that has ended.
    unfoldable pub identify_stream :
        String → ℕ → Outcome ConnectError S → Outcome ConnectError (Option (Finding ServiceFacts))
    unfolding read_banner guess_for service_finding
    identify_stream host port (returns stream) =
        let banner = read_banner stream host in
        returns
          (some (service_finding host port (guess_for re banner port) banner (is_tls_port port)))
    identify_stream host port (raises timeout_error) = returns none
    identify_stream host port (raises connection_refused) = returns none
    identify_stream host port (raises other_os_error) = returns none
    identify_stream host port (raises x) = raises x

    -- `_identify`
    unfoldable pub identify : String × ℕ → Outcome ConnectError (Option (Finding ServiceFacts))
    unfolding identify_stream address_for
    identify (host, port) =
        if context.cancel_at host port
        then returns none
        else elim (address_for context.target host) [
          | none ↦ returns none
          | some a ↦ identify_stream host port (context.stream_of a port (is_tls_port port))
        ]

    abbrev services_of : Swept (Finding ServiceFacts) → ProbeResult ServiceFacts
    services_of swept = record {
      findings = swept.kept;
      warnings = if swept.budget_reached then service_budget_warning ∷ [] else [];
    }

    -- The run over the ports that were found open.
    unfoldable pub identify_all :
        List (String × ℕ) → Outcome ConnectError (ProbeResult ServiceFacts)
    unfolding identify collect
    identify_all probes =
        collect (in_bounded_waves 32 identify probes) >>= λ swept. returns (services_of swept)

    -- `run`
    unfoldable pub run_service_detect : Outcome ConnectError (ProbeResult ServiceFacts)
    unfolding identify_all open_ports_by_host host_ports
    run_service_detect = elim (open_ports_by_host context.prior_findings) [
      | [] ↦ returns (record { findings = []; warnings = no_ports_warning ∷ [] })
      | entry ∷ entries ↦ identify_all (host_ports (entry ∷ entries))
    ]
