-- ===== src/Tests/Lab.antt =====
-- A small laboratory: a scope, a reader of its texts, a target and a governor.
use scan_ledger.Prelude.{
  ℕ, ◌≡◌, refl, Bool, false, Option, none, some, List, [], ◌∷◌, arith, String, string_eq, ◌==◌,
  if◌then◌else◌, Outcome, raises,
}
use scan_ledger.Net.{v4, IpAddress, IpNetwork, net4, subnet_of}
use scan_ledger.Net.Laws.{IsNetwork}
use scan_ledger.Models.Domain.{ip, ScanStatus, ModuleStatus}
use scan_ledger.Db.{ScanRow, ModuleRunRow, ScopeProfileRow, Database}
use scan_ledger.Modules.{ModuleRegistry}
use scan_ledger.Services.Scans.{ScanCreate}
use scan_ledger.Guard.Ledger.{of_address}
use scan_ledger.Guard.Ranges.{
  Reason, unresolved, check_prefix_breadth, network_within_allowed, allowed_ranges_for,
}
use scan_ledger.Guard.Scope.{IpReader, ScopeProfile}
use scan_ledger.Guard.Scope.Lab.{IsValid}
use scan_ledger.Guard.ScanGuard.{ValidatedTarget}
use scan_ledger.Guard.Connect.{GuardState}
use scan_ledger.Scan.Governor.{IntensityGovernor, start, normal}

abbrev pub lab : IpNetwork
lab = net4 10 1 0 0 16

abbrev pub bench : IpAddress
bench = record { version = v4; ip = 167838211 }

pub lab-IsNetwork : IsNetwork lab
lab-IsNetwork = record { aligned = refl; narrow = omega arith }

abbrev pub reader_network : String → Option IpNetwork
reader_network text = if text == "10.1.0.0/16" then some lab else none

abbrev pub reader_address : String → Option IpAddress
reader_address text = if text == "10.1.2.3" then some bench else none

pub reader_law : (text : String) (n : IpNetwork) → reader_network text ≡ some n → IsNetwork n
reader_law text n h = ground (arith, lab-IsNetwork)

abbrev pub reader : IpReader
reader = record {
  ip_network = reader_network;
  ip_address = reader_address;
  ip_network-IsNetwork = reader_law;
}

abbrev pub resolver : String → Outcome Reason (List IpAddress)
resolver hostname = raises (unresolved hostname)

abbrev pub entries : List String
entries = "10.1.0.0/16" ∷ []

abbrev pub scope : ScopeProfile
scope = record {
  name = "lab";
  entries = entries;
  networks = lab ∷ [];
  allow_cgnat = false;
  allow_link_local = false;
}

pub scope-IsValid : IsValid scope
unfolding check_prefix_breadth network_within_allowed subnet_of allowed_ranges_for
scope-IsValid = (record { network = lab-IsNetwork; narrow_enough = refl; within = refl }, tt)

abbrev pub target : ValidatedTarget
target = record { raw = "10.1.2.3"; kind = ip; addresses = bench ∷ []; network = none }

abbrev pub governor : IntensityGovernor IpAddress
governor = start "normal" normal

abbrev pub state : GuardState
state = record { ledger = []; governor = governor; attempts = [] }

abbrev pub scan_row : String → ScanStatus → ℕ → ScanRow
scan_row id status created = record {
  id = id;
  scope_id = "lab";
  target_input = "10.1.2.3";
  target_type = ip;
  target_normalized = of_address bench;
  resolved_addresses = of_address bench ∷ [];
  note = none;
  attestation_version = "v1";
  attestation_at = created;
  intensity_profile = "normal";
  selected_modules = "port_scan" ∷ [];
  status = status;
  created_at = created;
  claimed_by = none;
  started_at = none;
  finished_at = none;
  cancel_requested = false;
}

abbrev pub run_row : String → ModuleStatus → ModuleRunRow
run_row id status = record {
  scan_id = id;
  module_name = "port_scan";
  status = status;
  attempt_count = 0;
  finding_count = 0;
  cache_hit = false;
  safe_error_code = none;
  safe_error_message = none;
  started_at = none;
  finished_at = none;
}

abbrev pub registry : ModuleRegistry
registry =
    (
      "port_scan",
      record { name = "port_scan"; order = 20; supported_targets = []; timeout_text = "1800.0" },
    )
    ∷ []

abbrev pub scope_row : ScopeProfileRow
scope_row = record {
  id = "lab";
  name = "lab";
  entries = entries;
  allow_cgnat = false;
  allow_link_local = false;
}

abbrev pub stored : Database
stored = record {
  scans = scan_row "s1" ScanStatus.queued 10 ∷ [];
  runs = [];
  findings = [];
  events = [];
  scopes = scope_row ∷ [];
  ledger = [];
  cache = [];
  worker_lock = none;
}

abbrev pub request : Bool → ScanCreate
request accepted = record {
  scope_id = "lab";
  target = "10.1.2.3";
  modules = "port_scan" ∷ [];
  intensity_profile = "normal";
  note = none;
  attestation_accepted = accepted;
}
