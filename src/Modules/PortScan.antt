-- ===== src/Modules/PortScan.antt =====
-- backend/app/modules/port_scan.py. `str_address` is `str` on an address.
pub mod Hosts
pub mod Report
pub mod Runs
pub mod Total
use scan_ledger.Prelude.{
  ℕ, Bool, true, false, Option, none, some, List, [], ◌∷◌, ◌++◌, String, string_eq, map, select,
  count_if, length, if◌then◌else◌, Outcome, returns, raises, ◌>>=◌, Dict,
}
use scan_ledger.Text.Join.{f_string}
use scan_ledger.Text.Decimal.{str_of}
use scan_ledger.Net.{IpAddress}
use scan_ledger.Models.Domain.{FindingCategory, Confidence}
use scan_ledger.Models.Findings.{Finding}
use scan_ledger.Guard.Connect.{ConnectError, connection_refused, timeout_error, other_os_error}
use scan_ledger.Scan.Concurrency.{concat, default_wave_size, in_bounded_waves}
use scan_ledger.Modules.Ports.{ModuleError, resolve_ports, iter_target_addresses}
use scan_ledger.Modules.Sweep.{
  ModuleContext, ProbeError, lift_module, lift_connect, ProbeResult, Swept, collect, pairs, sorted,
  append_at,
}

abbrev pub module_name : String
module_name = "port_scan"

pub data PortState : Type 0 where
  port_open port_closed port_filtered : PortState

abbrev pub same_state : PortState → PortState → Bool
same_state port_open port_open = true
same_state port_closed port_closed = true
same_state port_filtered port_filtered = true
same_state _ _ = false

pub record PortObservation : Type 0 where
  pub address : String
  pub port : ℕ
  pub state : PortState

pub data PortFacts : Type 0 where
  -- the port, over "tcp", with its state
  tcp_port : ℕ → PortState → PortFacts
  -- how many were probed, which are open, how many are closed and how many filtered
  tcp_summary : ℕ → List ℕ → ℕ → ℕ → PortFacts

-- `_probe_state`
unfoldable pub probe_state : Outcome ConnectError (Unit {0}) → Outcome ConnectError PortState
probe_state (returns _) = returns port_open
probe_state (raises connection_refused) = returns port_closed
probe_state (raises timeout_error) = returns port_filtered
probe_state (raises other_os_error) = returns port_filtered
probe_state (raises x) = raises x

abbrev in_state : PortState → PortObservation → Bool
in_state s o = same_state o.state s

unfoldable pub open_ports_of : List PortObservation → List ℕ
unfolding sorted
open_ports_of observations =
    sorted (map (λ (o : PortObservation). o.port) (select observations (in_state port_open)))

unfoldable pub count_in : PortState → List PortObservation → ℕ
count_in s observations = count_if observations (in_state s)

unfoldable pub open_finding : String → ℕ → Finding PortFacts
unfolding f_string str_of
open_finding host port = record {
  host = host;
  port = some port;
  category = FindingCategory.port_service;
  kind = "port.open";
  title = f_string (host ∷ ":" ∷ str_of port ∷ "/tcp is open" ∷ []);
  summary = f_string ("A TCP connect to port " ∷ str_of port ∷ " was accepted." ∷ []);
  module_name = module_name;
  identity_key = f_string ("tcp/" ∷ str_of port ∷ []);
  normalized_value = tcp_port port port_open;
  raw_evidence = some (f_string ("connect() to " ∷ host ∷ ":" ∷ str_of port ∷ " succeeded" ∷ []));
  confidence = some Confidence.high;
}

unfoldable pub summary_finding : String → List PortObservation → Finding PortFacts
unfolding f_string str_of open_ports_of count_in
summary_finding host observations =
    let open_ports = open_ports_of observations in
    let probed = length observations in
    record {
      host = host;
      port = none;
      category = FindingCategory.port_service;
      kind = "port.summary";
      title =
          f_string (
            host
            ∷ ": "
            ∷ str_of (length open_ports)
            ∷ " open of "
            ∷ str_of probed
            ∷ " probed"
            ∷ []);
      summary = f_string (
          str_of (length open_ports)
          ∷ " open, "
          ∷ str_of (count_in port_closed observations)
          ∷ " closed, "
          ∷ str_of (count_in port_filtered observations)
          ∷ " filtered across "
          ∷ str_of probed
          ∷ " probed TCP ports."
          ∷ []);
      module_name = module_name;
      identity_key = "tcp-summary";
      normalized_value =
          tcp_summary probed open_ports (count_in port_closed observations)
            (count_in port_filtered observations);
      raw_evidence = none;
      confidence = some Confidence.high;
    }

-- One round of the loop over `per_host`.
unfoldable pub host_findings : String → List PortObservation → List (Finding PortFacts)
unfolding open_finding summary_finding
host_findings host observations =
    map (open_finding host) (open_ports_of observations) ++ summary_finding host observations ∷ []

unfoldable pub per_host :
    Dict String (List PortObservation) → List PortObservation → Dict String (List PortObservation)
per_host d [] = d
per_host d (o ∷ observations) = per_host (append_at d o.address o) observations

-- `_to_findings`
unfoldable pub to_findings : List PortObservation → List (Finding PortFacts)
unfolding per_host host_findings
to_findings observations = concat (
    map (λ ((host, of_host) : String × List PortObservation). host_findings host of_host)
      (per_host [] observations))

abbrev pub budget_warning : String
budget_warning =
    "the governor's probe budget was reached before every port was tested; untested ports are not reported as closed"

module _ (str_address : IpAddress → String) (context : ModuleContext) where
  unfoldable pub probe : IpAddress × ℕ → Outcome ConnectError (Option PortObservation)
  unfolding probe_state
  probe (address, port) =
      if context.cancel_at address port
      then returns none
      else probe_state (context.connect_of address port) >>= λ state.
          returns (some (record { address = str_address address; port = port; state = state }))

  unfoldable pub sweep : List IpAddress → List ℕ → Outcome ConnectError (Swept PortObservation)
  unfolding probe collect
  sweep addresses ports = collect (in_bounded_waves default_wave_size probe (pairs addresses ports))

  abbrev result_of : Swept PortObservation → ProbeResult PortFacts
  result_of swept = record {
    findings = to_findings swept.kept;
    warnings = if swept.budget_reached then budget_warning ∷ [] else [];
  }

  unfoldable pub run : Outcome ProbeError (ProbeResult PortFacts)
  unfolding sweep to_findings
  run = do
    ports ← lift_module (resolve_ports context.options)
    addresses ← lift_module (iter_target_addresses context.target)
    swept ← lift_connect (sweep addresses ports)
    returns (result_of swept)
