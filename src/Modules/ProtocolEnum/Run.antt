-- ===== src/Modules/ProtocolEnum/Run.antt =====
-- `run`, `_enumerate` and `_fetch_path` of backend/app/modules/protocol_enum.py. What each call of the guard's
-- `open_stream` and each read gives when it ends is an argument.
use scan_ledger.Prelude.{
  ℕ, Bool, Option, none, some, List, [], ◌∷◌, ◌++◌, String, if◌then◌else◌, Outcome, returns, raises,
  ◌>>=◌,
}
use scan_ledger.Net.{IpAddress}
use scan_ledger.Models.Findings.{Finding}
use scan_ledger.Guard.ScanGuard.{ValidatedTarget}
use scan_ledger.Guard.Connect.{ConnectError, timeout_error, connection_refused, other_os_error}
use scan_ledger.Guard.Stream.{Bytes, GuardedStream, TlsInfo}
use scan_ledger.Scan.Concurrency.{concat, in_bounded_waves}
use scan_ledger.Modules.Sweep.{ProbeResult, Swept, collect}
use scan_ledger.Modules.OpenPorts.{open_ports_by_host}
use scan_ledger.Modules.Fingerprints.{Re}
use scan_ledger.Modules.ServiceDetect.{is_tls_port, address_for, host_ports}
use scan_ledger.Modules.ProtocolEnum.{HttpResponse, response_from, get_request, Certificate}
use scan_ledger.Modules.ProtocolEnum.Reports.{
  EnumFacts, http_finding, robots_in, certificate_finding,
}

-- What the module is given, and how the network answers it; the path tells the two streams of a port apart.
pub record EnumContext (V R W : Type 0) : Type 0 where
  pub target : ValidatedTarget
  pub prior_findings : List (Finding V)
  pub cancel_at : String → ℕ → Bool
  pub stream_of : String → IpAddress → ℕ → Bool → Outcome ConnectError (GuardedStream R W)
  -- The read after this text was written and drained: `none` for a TimeoutError or an OSError.
  pub fetched : GuardedStream R W → String → Option Bytes

-- The libraries that the module calls.
pub record Readers : Type 0 where
  pub lower : String → String
  pub int : String → ℕ
  pub decode : Bytes → String
  pub re : Re
  pub load : Bytes → Option Certificate

abbrev pub listed : {A : Type 0} → Option A → List A
listed none = []
listed (some a) = a ∷ []

abbrev pub no_enum_ports_warning : String
no_enum_ports_warning = "no open ports were available from this scan to enumerate"

abbrev pub enum_budget_warning : String
enum_budget_warning = "the governor's probe budget was reached; some ports were not enumerated"

module _ (str_address : IpAddress → String) (readers : Readers) {V R W : Type 0}
    (context : EnumContext V R W) where
  -- `_fetch`
  unfoldable pub fetch : GuardedStream R W → String → String → Option HttpResponse
  unfolding response_from get_request
  fetch stream host path =
      response_from readers.lower readers.int readers.decode readers.re
        (context.fetched stream (get_request path host))

  -- What `_fetch_path` makes of an `open_stream` that has ended.
  unfoldable pub fetch_path :
      String
      → ℕ
      → String
      → Outcome ConnectError (GuardedStream R W)
      → Outcome ConnectError (Option (Finding EnumFacts))
  unfolding fetch robots_in
  fetch_path host port path (returns stream) =
      returns (robots_in host port (fetch stream host path))
  fetch_path host port path (raises timeout_error) = returns none
  fetch_path host port path (raises connection_refused) = returns none
  fetch_path host port path (raises other_os_error) = returns none
  fetch_path host port path (raises x) = raises x

  unfoldable pub certificate_in : String → ℕ → Option TlsInfo → List (Finding EnumFacts)
  unfolding certificate_finding
  certificate_in host port none = []
  certificate_in host port (some tls) = listed (certificate_finding readers.load host port tls)

  unfoldable pub response_in : String → ℕ → Option HttpResponse → Bool → List (Finding EnumFacts)
  unfolding http_finding
  response_in host port none use_tls = []
  response_in host port (some response) use_tls = http_finding host port response use_tls ∷ []

  -- The findings of the first stream: the certificate and the answer for "/".
  unfoldable pub first_findings : String → ℕ → GuardedStream R W → List (Finding EnumFacts)
  unfolding certificate_in response_in fetch
  first_findings host port stream =
      certificate_in host port stream.tls
      ++ response_in host port (fetch stream host "/") (is_tls_port port)

  -- What `_enumerate` makes of its first `open_stream` when that has ended.
  unfoldable pub enumerate_stream :
      String
      → ℕ
      → IpAddress
      → Outcome ConnectError (GuardedStream R W)
      → Outcome ConnectError (Option (List (Finding EnumFacts)))
  unfolding first_findings fetch_path
  enumerate_stream host port a (returns stream) = do
    robots ←
        fetch_path host port "/robots.txt"
          (context.stream_of "/robots.txt" a port (is_tls_port port))
    returns (some (first_findings host port stream ++ listed robots))
  enumerate_stream host port a (raises timeout_error) = returns (some [])
  enumerate_stream host port a (raises connection_refused) = returns (some [])
  enumerate_stream host port a (raises other_os_error) = returns (some [])
  enumerate_stream host port a (raises x) = raises x

  -- `_enumerate`
  unfoldable pub enumerate : String × ℕ → Outcome ConnectError (Option (List (Finding EnumFacts)))
  unfolding enumerate_stream address_for
  enumerate (host, port) =
      if context.cancel_at host port
      then returns (some [])
      else elim (address_for str_address context.target host) [
        | none ↦ returns (some [])
        | some a ↦ enumerate_stream host port a (context.stream_of "/" a port (is_tls_port port))
      ]

  abbrev pub enumeration_of : Swept (List (Finding EnumFacts)) → ProbeResult EnumFacts
  enumeration_of swept = record {
    findings = concat swept.kept;
    warnings = if swept.budget_reached then enum_budget_warning ∷ [] else [];
  }

  unfoldable pub enumerate_all : List (String × ℕ) → Outcome ConnectError (ProbeResult EnumFacts)
  unfolding enumerate collect
  enumerate_all probes =
      collect (in_bounded_waves 16 enumerate probes) >>= λ swept. returns (enumeration_of swept)

  -- `run`
  unfoldable pub run_protocol_enum : Outcome ConnectError (ProbeResult EnumFacts)
  unfolding enumerate_all open_ports_by_host host_ports
  run_protocol_enum = elim (open_ports_by_host context.prior_findings) [
    | [] ↦ returns (record { findings = []; warnings = no_enum_ports_warning ∷ [] })
    | entry ∷ entries ↦ enumerate_all (host_ports (entry ∷ entries))
  ]
