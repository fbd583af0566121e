-- ===== src/Modules/HostDiscovery.antt =====
-- backend/app/modules/host_discovery.py. `str_address` is `str` on an address.
pub mod Alive
use scan_ledger.Prelude.{
  ℕ, Bool, true, false, Option, none, some, List, [], ◌∷◌, String, if◌then◌else◌, Outcome, returns,
  raises, ◌>>=◌,
}
use scan_ledger.Text.Join.{f_string}
use scan_ledger.Text.Decimal.{str_of}
use scan_ledger.Net.{IpAddress}
use scan_ledger.Models.Domain.{FindingCategory, Confidence}
use scan_ledger.Models.Findings.{Finding}
use scan_ledger.Guard.Ranges.{bad_port}
use scan_ledger.Guard.Ledger.{raw_text}
use scan_ledger.Guard.Connect.{
  ConnectError, target_rejected, connection_refused, timeout_error, other_os_error,
}
use scan_ledger.Scan.Concurrency.{default_wave_size, in_bounded_waves}
use scan_ledger.Modules.Ports.{
  PortValue, not_a_number, below_zero, number, resolve_discovery_ports, iter_target_addresses,
}
use scan_ledger.Modules.Sweep.{
  ModuleContext, ProbeError, lift_module, lift_connect, ProbeResult, Swept, collect,
}

abbrev pub discovery_name : String
discovery_name = "host_discovery"

-- `str(port)`; the options hold integers only.
unfoldable pub port_value_text : PortValue → String
unfolding f_string str_of
port_value_text not_a_number = ""
port_value_text (below_zero n) = f_string ("-" ∷ str_of n ∷ [])
port_value_text (number n) = str_of n

-- The address and the port that proved it alive.
pub data LiveFacts : Type 0 where
  live : String → PortValue → LiveFacts

unfoldable pub alive_finding : String → PortValue → String → Finding LiveFacts
unfolding f_string
alive_finding address port evidence = record {
  host = address;
  category = FindingCategory.live_host;
  kind = "host.live";
  title = f_string (address ∷ " is alive" ∷ []);
  summary = f_string ("Responded on " ∷ evidence ∷ "." ∷ []);
  module_name = discovery_name;
  identity_key = "alive";
  port = none;
  normalized_value = live address port;
  raw_evidence = some evidence;
  confidence = some Confidence.high;
}

-- What `_probe_once` makes of a connect that has ended.
unfoldable pub evidence_of :
    PortValue → Outcome ConnectError (Unit {0}) → Outcome ConnectError (Option String)
unfolding f_string port_value_text
evidence_of port (returns _) =
    returns (some (f_string ("tcp/" ∷ port_value_text port ∷ " accepted a connection" ∷ [])))
evidence_of port (raises connection_refused) =
    returns (some (f_string ("tcp/" ∷ port_value_text port ∷ " refused the connection" ∷ [])))
evidence_of port (raises timeout_error) = returns none
evidence_of port (raises other_os_error) = returns none
evidence_of port (raises x) = raises x

abbrev pub discovery_warning : String
discovery_warning =
    "the governor's probe budget was reached before every address was examined; hosts beyond that point were not tested"

module _ (str_address : IpAddress → String) (context : ModuleContext) where
  -- The guard refuses a port below 0 as it refuses 0.
  unfoldable pub connect_value : IpAddress → PortValue → Outcome ConnectError (Unit {0})
  unfolding f_string port_value_text
  connect_value a (number p) = context.connect_of a p
  connect_value a port = raises (
      target_rejected (record {
        target = raw_text (f_string (str_address a ∷ ":" ∷ port_value_text port ∷ []));
        reason = bad_port;
      }))

  abbrev pub cancel_value : IpAddress → PortValue → Bool
  cancel_value a (number p) = context.cancel_at a p
  cancel_value a _ = context.cancel_at a 0

  abbrev pub answer_or :
      IpAddress
      → PortValue
      → Outcome ConnectError (Option (Finding LiveFacts))
      → Option String
      → Outcome ConnectError (Option (Finding LiveFacts))
  answer_or a port rest none = rest
  answer_or a port rest (some evidence) =
      returns (some (alive_finding (str_address a) port evidence))

  -- `probe`, for the ports that are left
  unfoldable pub probe_ports :
      List PortValue → IpAddress → Outcome ConnectError (Option (Finding LiveFacts))
  unfolding connect_value evidence_of alive_finding
  probe_ports [] a = returns none
  probe_ports (port ∷ ports) a =
      let rest = probe_ports ports a in
      if cancel_value a port
      then returns none
      else evidence_of port (connect_value a port) >>= answer_or a port rest

  unfoldable pub discover :
      List IpAddress → List PortValue → Outcome ConnectError (Swept (Finding LiveFacts))
  unfolding probe_ports collect
  discover addresses ports =
      collect (in_bounded_waves default_wave_size (probe_ports ports) addresses)

  abbrev pub discovered : Swept (Finding LiveFacts) → ProbeResult LiveFacts
  discovered swept = record {
    findings = swept.kept;
    warnings = if swept.budget_reached then discovery_warning ∷ [] else [];
  }

  -- `HostDiscoveryModule.run`
  unfoldable pub run_discovery : Outcome ProbeError (ProbeResult LiveFacts)
  unfolding discover
  run_discovery = do
    ports ← lift_module (resolve_discovery_ports context.options)
    addresses ← lift_module (iter_target_addresses context.target)
    swept ← lift_connect (discover addresses ports)
    returns (discovered swept)
