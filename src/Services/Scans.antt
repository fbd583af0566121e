-- ===== src/Services/Scans.antt =====
-- backend/app/services/scans.py: the gates that a request passes before its scan is queued. `new_id` is
-- the id that the table gives the row, and `now` what `datetime.now(UTC)` gives.
pub mod Checks
pub mod Gates
use scan_ledger.Prelude.{
  ℕ, Bool, true, false, not, ◌||◌, Option, none, some, List, [], ◌∷◌, ◌++◌, String, string_eq, ◌==◌,
  map, any, has, if◌then◌else◌, Outcome, returns, raises, ◌>>=◌, ◌>>◌,
}
use scan_ledger.Models.Domain.{ScanStatus, ModuleStatus, queued}
use scan_ledger.Net.{IpAddress}
use scan_ledger.Db.{ScanRow, ModuleRunRow, ScopeProfileRow, Database, find_scope, store_entries}
use scan_ledger.Modules.{ModuleRegistry, RegistryError, get_module}
use scan_ledger.Guard.Ranges.{Reason}
use scan_ledger.Guard.Ledger.{Ledger, Destination, of_address, of_network}
use scan_ledger.Guard.Scope.{IpReader, ScopeProfile, ScopeValidationError, create}
use scan_ledger.Guard.ScanGuard.{TargetRejected, ValidatedTarget, validate_target}
use scan_ledger.Scan.Governor.{intensity_profiles}

abbrev pub attestation_version : String
attestation_version = "v1"

-- `ScanCreate` of backend/app/models/api.py, without the module options.
pub record ScanCreate : Type 0 where
  pub scope_id : String
  pub target : String
  pub modules : List String
  pub intensity_profile : String
  pub note : Option String
  pub attestation_accepted : Bool

pub data ScanError : Type 0 where
  attestation_required : ScanError
  unknown_profile scope_not_found : String → ScanError
  module_error : RegistryError → ScanError
  scope_invalid : ScopeValidationError → ScanError
  scope_refused : TargetRejected → ScanError
  -- `resolved[0]` of an empty list
  index_error : ScanError
  -- what the database raises for a second run of one scan and module
  integrity_error : ScanError

abbrev on_error : {E A : Type 0} → (E → ScanError) → Outcome E A → Outcome ScanError A
on_error f (returns a) = returns a
on_error f (raises x) = raises (f x)

-- `for module_name in request.modules: registry.get(module_name)`
unfoldable pub check_modules : ModuleRegistry → List String → Outcome ScanError (Unit {0})
unfolding get_module
check_modules registry [] = returns tt
check_modules registry (name ∷ names) = do
  m ← on_error module_error (get_module registry name)
  check_modules registry names

unfoldable pub resolved_of : ValidatedTarget → List Destination
resolved_of t = elim t.network [ some n ↦ of_network n ∷ [] | none ↦ map of_address t.addresses ]

unfoldable pub normalized_of : ValidatedTarget → Outcome ScanError Destination
unfolding resolved_of
normalized_of t = elim t.network [
  | some n ↦ returns (of_network n)
  | none ↦ elim (resolved_of t) [ [] ↦ raises index_error | d ∷ _ ↦ returns d ]
]

-- Whether two rows would share a scan and a module, which `uq_module_run_scan_module` of
-- backend/app/db/tables.py refuses.
unfoldable pub has_repeat : List String → Bool
has_repeat [] = false
has_repeat (name ∷ names) = any names (λ other. other == name) || has_repeat names

abbrev pub queued_run : String → String → ModuleRunRow
queued_run scan_id name = record {
  scan_id = scan_id;
  module_name = name;
  status = ModuleStatus.queued;
  attempt_count = 0;
  finding_count = 0;
  cache_hit = false;
  safe_error_code = none;
  safe_error_message = none;
  started_at = none;
  finished_at = none;
}

module _ (reader : IpReader) (resolver : String → Outcome Reason (List IpAddress))
    (registry : ModuleRegistry) (new_id : String) (now : ℕ) where
  unfoldable pub load_scope_profile : Database → String → Outcome ScanError ScopeProfile
  unfolding find_scope
  load_scope_profile db id = elim (find_scope db.scopes id) [
    | none ↦ raises (scope_not_found id)
    | some row ↦
        on_error scope_invalid
          (create reader row.name row.entries row.allow_cgnat row.allow_link_local)
  ]

  -- What is decided before the guard is asked.
  unfoldable pub check_request : ScanCreate → Database → Outcome ScanError ScopeProfile
  unfolding check_modules load_scope_profile
  check_request request db =
      if not request.attestation_accepted
      then raises attestation_required
      else if not (has intensity_profiles request.intensity_profile)
      then raises (unknown_profile request.intensity_profile)
      else check_modules registry request.modules >> load_scope_profile db request.scope_id

  abbrev pub queued_scan : ScanCreate → ValidatedTarget → Destination → ScanRow
  queued_scan request t normalized = record {
    id = new_id;
    scope_id = request.scope_id;
    target_input = request.target;
    target_normalized = normalized;
    target_type = t.kind;
    resolved_addresses = resolved_of t;
    intensity_profile = request.intensity_profile;
    selected_modules = request.modules;
    status = ScanStatus.queued;
    note = request.note;
    attestation_version = attestation_version;
    attestation_at = now;
    created_at = now;
    claimed_by = none;
    started_at = none;
    finished_at = none;
    cancel_requested = false;
  }

  -- The rows of a scan whose target was validated. The commit of a repeated module adds no row.
  unfoldable pub add_scan :
      ScanCreate → ValidatedTarget → Database → Outcome ScanError String × Database
  unfolding normalized_of has_repeat
  add_scan request t db = elim (normalized_of t) [
    | raises x ↦ (raises x, db)
    | returns normalized ↦ if has_repeat request.modules then (raises integrity_error, db) else (
      returns new_id,
      record db {
        scans = db.scans ++ queued_scan request t normalized ∷ [];
        runs = db.runs ++ map (queued_run new_id) request.modules;
      },
    )
  ]

  -- What the guard's verdict leads to; its decisions are recorded either way.
  unfoldable pub settle :
      ScanCreate
      → Outcome TargetRejected ValidatedTarget × Ledger
      → Database
      → Outcome ScanError String × Database
  unfolding add_scan store_entries
  settle request (raises x, entries) db =
      (raises (scope_refused x), store_entries none (some request.scope_id) entries db)
  settle request (returns t, entries) db =
      add_scan request t (store_entries none (some request.scope_id) entries db)

  unfoldable pub create_scan : ScanCreate → Database → Outcome ScanError String × Database
  unfolding check_request settle
  create_scan request db = elim (check_request request db) [
    | raises x ↦ (raises x, db)
    | returns scope ↦ settle request (validate_target scope reader resolver request.target []) db
  ]
