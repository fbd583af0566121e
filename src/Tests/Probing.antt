-- ===== src/Tests/Probing.antt =====
-- The theorems about the probe modules at concrete inputs.
use scan_ledger.Prelude.{
  ℕ, ◌≡◌, ◌≢◌, refl, arith, false, none, some, List, [], ◌∷◌, String, string_eq, ◌==◌,
  if◌then◌else◌, nat_eq, returns, raises, get,
}
use scan_ledger.Net.{IpAddress}
use scan_ledger.Guard.ScanGuard.{validate_target}
use scan_ledger.Guard.Connect.{
  Answer, accepted, refused, connection_refused, still_waiting, connect, deny_connect,
  attempt_in_slot, acquire, attempt,
}
use scan_ledger.Scan.Governor.{
  check_budget, take_global, take_host, host_permits, probes_made_against,
}
use scan_ledger.Text.{strip, contains}
use scan_ledger.Net.{in_network, is_multicast, is_global}
use scan_ledger.Guard.Ranges.{is_always_denied}
use scan_ledger.Guard.Ledger.{record_entry}
use scan_ledger.Guard.Scope.{contains_address}
use scan_ledger.Guard.ScanGuard.{
  classify, validate_addresses, first_denial, denial_of, record_validated,
}
use scan_ledger.Scan.Concurrency.{in_bounded_waves, waves, waves_after}
use scan_ledger.Modules.Ports.{
  PortOptions, number, check_port, insert_port, custom_ports, resolve_ports, iter_target_addresses,
}
use scan_ledger.Modules.Sweep.{ModuleContext, ProbeResult, collect, pairs}
use scan_ledger.Modules.PortScan.{
  PortFacts, PortObservation, port_open, port_closed, to_findings, probe, probe_state, run, sweep,
}
use scan_ledger.Modules.HostDiscovery.{
  run_discovery, discover, probe_ports, evidence_of, connect_value, port_value_text, alive_finding,
}
use scan_ledger.Modules.HostDiscovery.Alive.{Discovered, run_discovery-Discovered}
use scan_ledger.Text.{append}
use scan_ledger.Text.Join.{f_string}
use scan_ledger.Text.Decimal.{str_of}
use scan_ledger.Guard.Connect.{timeout_error}
use scan_ledger.Modules.Ports.{resolve_discovery_ports}
use scan_ledger.Prelude.{count_if, ◌&&◌}
use scan_ledger.Modules.Sweep.Grouping.{boxed}
use scan_ledger.Modules.PortScan.Report.{Sorted, observed_open}
use scan_ledger.Modules.OpenPorts.{open_ports_by_host}
use scan_ledger.Modules.OpenPorts.Handed.{open_ports_by_host-to_findings}
use scan_ledger.Modules.PortScan.Runs.{Reported, run-Reported}
use scan_ledger.Modules.PortScan.Total.{run-total}
use scan_ledger.Tests.Lab.{bench, reader, resolver, scope, scope-IsValid, target, state}

abbrev name_of : IpAddress → String
name_of a = "10.1.2.3"

-- Port 22 accepts and every other port refuses.
abbrev answers : IpAddress → ℕ → Answer
answers a port = if port == 22 then accepted else refused

abbrev options : PortOptions
options = record {
  port_selection = some "custom";
  ports = some (number 23 ∷ number 22 ∷ []);
  discovery_ports = none;
}

abbrev context : ModuleContext
context = record {
  target = target;
  options = options;
  connect_of = λ a port. if port == 22 then returns tt else raises connection_refused;
  cancel_at = λ a port. false;
}

abbrev observed : List PortObservation
observed =
    record { address = "10.1.2.3"; port = 22; state = port_open }
    ∷ record { address = "10.1.2.3"; port = 23; state = port_closed }
    ∷ []

run-Reported_example :
    Reported name_of context (record { findings = to_findings observed; warnings = [] })
unfolding run resolve_ports custom_ports check_port insert_port iter_target_addresses
    in_bounded_waves waves waves_after pairs probe probe_state sweep collect
run-Reported_example =
    run-Reported name_of context (record { findings = to_findings observed; warnings = [] }) refl

-- The guard itself, at every probe in the same state.
abbrev guarded : ModuleContext
guarded = record {
  target = target;
  options = options;
  connect_of = λ a port. (connect scope (answers a port) target a port state).0;
  cancel_at = λ a port. false;
}

never_waiting : (a : IpAddress) (port : ℕ) → guarded.connect_of a port ≢ raises still_waiting
unfolding connect deny_connect attempt_in_slot acquire attempt check_budget take_global take_host
    host_permits get probes_made_against
never_waiting a port h = ground arith

run-total_example : (result : ProbeResult PortFacts) × (run name_of guarded ≡ returns result)
unfolding resolve_ports custom_ports check_port insert_port iter_target_addresses validate_target
    strip classify contains validate_addresses first_denial is_always_denied in_network is_multicast
    is_global denial_of contains_address record_validated record_entry
run-total_example =
    run-total name_of guarded reader resolver scope "10.1.2.3" []
      (validate_target scope reader resolver "10.1.2.3" []).1 (22 ∷ 23 ∷ []) (bench ∷ []) answers
      (λ a port. state) scope-IsValid refl refl refl (λ a port. refl) never_waiting

-- Port 81 gives no answer, and port 22 accepts.
abbrev quiet_host : ModuleContext
quiet_host = record {
  target = target;
  options = record options { discovery_ports = some (number 81 ∷ number 22 ∷ []) };
  connect_of = λ a port. if port == 22 then returns tt else raises timeout_error;
  cancel_at = λ a port. false;
}

run_discovery-Discovered_example : Discovered name_of quiet_host (record {
  findings = alive_finding "10.1.2.3" (number 22) "tcp/22 accepted a connection" ∷ [];
  warnings = [];
})
unfolding run_discovery discover probe_ports evidence_of connect_value port_value_text str_of
    f_string append resolve_discovery_ports iter_target_addresses in_bounded_waves waves waves_after
    collect
run_discovery-Discovered_example =
    run_discovery-Discovered name_of quiet_host
      (record {
        findings = alive_finding "10.1.2.3" (number 22) "tcp/22 accepted a connection" ∷ [];
        warnings = [];
      })
      refl

open_ports_by_host-to_findings_example :
    (ports : List ℕ) × (get (open_ports_by_host (to_findings observed)) "10.1.2.3" ≡ boxed ports)
    × Sorted ports
    × ((p : ℕ)
        → count_if ports (λ q. q == p)
          ≡ count_if observed
              (λ o. (o.address == "10.1.2.3") && (observed_open o && (o.port == p))))
open_ports_by_host-to_findings_example = open_ports_by_host-to_findings observed "10.1.2.3"
