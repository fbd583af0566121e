-- ===== src/Tests/Reading.antt =====
-- The theorems about what is read from the hosts, at concrete inputs.
use scan_ledger.Prelude.{
  ◌≡◌, ◌↔◌, refl, true, false, none, some, [], ◌∷◌, ◌++◌, String, string_eq, ◌==◌, Bool,
  if◌then◌else◌, nat_eq, get,
}
use scan_ledger.Net.{IpAddress, in_network, is_multicast, is_global}
use scan_ledger.Models.Domain.{port_service}
use scan_ledger.Models.Findings.{Finding}
use scan_ledger.Guard.Ranges.{is_always_denied}
use scan_ledger.Guard.Scope.{contains_address}
use scan_ledger.Guard.ScanGuard.{covers, denial_of}
use scan_ledger.Guard.Connect.{accepted, connect, attempt_in_slot, acquire, attempt}
use scan_ledger.Guard.Connect.Safety.{Cleared}
use scan_ledger.Guard.Stream.{
  Bytes, GuardedStream, Opening, opened, handshake_failed, StreamState, open_stream, upgrade, wrap,
  tls_info,
}
use scan_ledger.Guard.Stream.Opened.{left_open, open_stream-connect, open_stream-Cleared}
use scan_ledger.Scan.Governor.{
  check_budget, take_global, take_host, host_permits, probes_made_against,
}
use scan_ledger.Modules.PortScan.{PortFacts}
use scan_ledger.Modules.Sweep.{ProbeResult}
use scan_ledger.Modules.Fingerprints.{Re}
use scan_ledger.Modules.ServiceDetect.{
  ServiceContext, ServiceFacts, run_service_detect, service_finding, guess_for,
}
use scan_ledger.Modules.ServiceDetect.Ran.{ServicesFound, run_service_detect-ServicesFound}
use scan_ledger.Modules.ProtocolEnum.Run.{EnumContext, Readers}
use scan_ledger.Modules.ProtocolEnum.Reports.{EnumFacts}
use scan_ledger.Prelude.{◌≢◌, raises, returns, ℕ, arith}
use scan_ledger.Text.{strip, contains}
use scan_ledger.Guard.Ledger.{record_entry}
use scan_ledger.Guard.ScanGuard.{
  validate_target, classify, validate_addresses, first_denial, record_validated,
}
use scan_ledger.Guard.Connect.{still_waiting, deny_connect}
use scan_ledger.Modules.OpenPorts.{open_port_of}
use scan_ledger.Modules.Ports.Covered.{IsPort}
use scan_ledger.Modules.ServiceDetect.Total.{run_service_detect-total}
use scan_ledger.Tests.Lab.{reader, resolver, scope-IsValid}
use scan_ledger.Tests.Lab.{bench, scope, target, state}
use scan_ledger.Prelude.{put}
use scan_ledger.Scan.Concurrency.{in_bounded_waves}
use scan_ledger.Modules.PortScan.{tcp_port, port_open}
use scan_ledger.Modules.ProtocolEnum.{response_of}
use scan_ledger.Modules.ProtocolEnum.Reports.{http_finding}

abbrev start_state : StreamState
start_state = record { guard = state; sockets = []; guard_active = false }

-- A TLS connection with a certificate of three bytes.
abbrev tls_opening : Bool → Opening String String
tls_opening active = opened "reader" "writer" (
    some (record {
      peer_certificate = some (1 ∷ 2 ∷ 3 ∷ []);
      version = some "TLSv1.3";
      cipher_name = none;
    }))

abbrev broken_opening : Bool → Opening String String
broken_opening active = handshake_failed

open_stream-connect_example :
    let (result, t) = open_stream scope accepted broken_opening target bench 443 true start_state in
    (t.guard ≡ (connect scope accepted target bench 443 state).1)
    × (t.sockets ≡ [] ++ left_open result bench 443)
    × (t.guard_active ≡ false)
open_stream-connect_example =
    open_stream-connect scope accepted broken_opening target bench 443 true start_state

abbrev tls_stream : GuardedStream String String
tls_stream = record {
  reader = "reader";
  writer = "writer";
  tls = some (record {
    certificate_der = some (1 ∷ 2 ∷ 3 ∷ []);
    protocol = some "TLSv1.3";
    cipher = none;
  });
}

open_stream-Cleared_example :
    Cleared scope target bench 443 × ((tls_stream.tls ≡ none) ↔ (true ≡ false))
unfolding open_stream connect upgrade wrap tls_info denial_of is_always_denied in_network
    is_multicast is_global contains_address attempt_in_slot acquire attempt check_budget take_global
    take_host host_permits get probes_made_against covers
open_stream-Cleared_example =
    open_stream-Cleared scope accepted tls_opening target bench 443 true start_state tls_stream refl

abbrev name_of : IpAddress → String
name_of a = "10.1.2.3"

-- An expression that finds the version of an OpenSSH banner, and nothing else.
abbrev re : Re
re = record {
  search = λ p text.
      if p.text == "SSH-[\\d.]+-OpenSSH[_-]([\\w.]+)" then some (some "9.6" ∷ []) else none;
  match_start = λ p text. none;
}

abbrev decode : Bytes → String
decode raw = "SSH-2.0-OpenSSH_9.6"

abbrev open_finding_row : Finding PortFacts
open_finding_row = record {
  host = "10.1.2.3";
  category = port_service;
  kind = "port.open";
  title = "";
  summary = "";
  module_name = "port_scan";
  identity_key = "tcp/22";
  port = some 22;
  normalized_value = tcp_port 22 port_open;
  raw_evidence = none;
  confidence = none;
}

abbrev services : ServiceContext PortFacts (GuardedStream String String)
services = record {
  target = target;
  prior_findings = open_finding_row ∷ [];
  cancel_at = λ host port. false;
  stream_of = λ a port use_tls.
      (open_stream scope accepted tls_opening target a port use_tls start_state).0;
  volunteered = λ stream. some (83 ∷ []);
  replied = λ stream request. none;
}

abbrev ssh_found : ProbeResult ServiceFacts
ssh_found = record {
  findings =
      service_finding "10.1.2.3" 22 (guess_for re "SSH-2.0-OpenSSH_9.6" 22) "SSH-2.0-OpenSSH_9.6"
        false
      ∷ [];
  warnings = [];
}

run_service_detect-ServicesFound_example : ServicesFound name_of decode re services scope ssh_found
unfolding open_stream connect upgrade wrap tls_info denial_of is_always_denied in_network
    is_multicast is_global contains_address attempt_in_slot acquire attempt check_budget take_global
    take_host host_permits get probes_made_against covers run_service_detect put in_bounded_waves
run_service_detect-ServicesFound_example =
    run_service_detect-ServicesFound name_of decode re services scope (λ a p. accepted)
      (λ a p. tls_opening) (λ a p. start_state) (λ a p use_tls. refl) ssh_found refl

never_waiting :
    (a : IpAddress) (port : ℕ) (use_tls : Bool)
    → services.stream_of a port use_tls ≢ raises still_waiting
unfolding open_stream upgrade wrap connect deny_connect attempt_in_slot acquire attempt check_budget
    take_global take_host host_permits get probes_made_against
never_waiting a port use_tls h = ground arith

open_finding_row-IsPort : (p : ℕ) → open_port_of open_finding_row ≡ some p → IsPort p
unfolding open_port_of
open_finding_row-IsPort p h = ground arith

run_service_detect-total_example :
    (result : ProbeResult ServiceFacts) × (run_service_detect name_of decode re services
      ≡ returns result)
unfolding validate_target strip classify contains validate_addresses first_denial is_always_denied
    in_network is_multicast is_global denial_of contains_address record_validated record_entry
run_service_detect-total_example =
    run_service_detect-total name_of decode re services reader resolver scope "10.1.2.3" []
      (validate_target scope reader resolver "10.1.2.3" []).1 (λ a p. accepted) (λ a p. tls_opening)
      (λ a p. start_state) scope-IsValid refl (open_finding_row-IsPort, tt) (λ a p use_tls. refl)
      never_waiting

abbrev enum_readers : Readers
enum_readers = record {
  lower = λ text. text;
  int = λ text. 200;
  decode = λ raw. "HTTP/1.1 200 OK\r\nserver: lab\r\n\r\nhello";
  re = record { search = λ p text. none; match_start = λ p text. some (some "200" ∷ []) };
  load = λ der. none;
}

-- The page at "/" is answered, and robots.txt is not.
abbrev enumerating : EnumContext PortFacts String String
enumerating = record {
  target = target;
  prior_findings = open_finding_row ∷ [];
  cancel_at = λ host port. false;
  stream_of = λ path a port use_tls.
      (open_stream scope accepted tls_opening target a port use_tls start_state).0;
  fetched = λ stream request.
      if request
        == "GET / HTTP/1.1\r\nHost: 10.1.2.3\r\nUser-Agent: ScanLedger\r\nAccept: */*\r\nConnection: close\r\n\r\n"
      then some (72 ∷ [])
      else none;
}

abbrev page_found : ProbeResult EnumFacts
page_found = record {
  findings =
      http_finding "10.1.2.3" 22
        (response_of (λ text. text) (λ text. 200) enum_readers.decode enum_readers.re
          "HTTP/1.1 200 OK\r\nserver: lab\r\n\r\nhello" (some "200" ∷ []))
        false
      ∷ [];
  warnings = [];
}
