-- ===== src/Db.antt =====
-- The stored rows (backend/app/db/tables.py), as the lists of one database. A time is in milliseconds,
-- and an unset column is `none`. A scan's dependent rows carry its id, and go with it.
use scan_ledger.Prelude.{
  ℕ, Bool, false, Option, none, some, List, [], ◌∷◌, ◌++◌, ◌==◌, String, map, select, if◌then◌else◌,
  string_eq, not,
}
use scan_ledger.Models.Domain.{
  ScanStatus, ModuleStatus, TargetType, FindingCategory, Confidence, ScanEventType,
}
use scan_ledger.Guard.Ledger.{Ledger, LedgerEntry, Destination}

pub record ScanRow : Type 0 where
  pub id : String
  pub scope_id : String
  pub target_input : String
  pub target_normalized : Destination
  pub target_type : TargetType
  pub resolved_addresses : List Destination
  pub intensity_profile : String
  pub selected_modules : List String
  pub status : ScanStatus
  pub note : Option String
  pub attestation_version : String
  pub attestation_at : ℕ
  pub created_at : ℕ
  pub claimed_by : Option String
  pub started_at : Option ℕ
  pub finished_at : Option ℕ
  pub cancel_requested : Bool

pub record ModuleRunRow : Type 0 where
  pub scan_id : String
  pub module_name : String
  pub status : ModuleStatus
  pub attempt_count : ℕ
  pub finding_count : ℕ
  pub cache_hit : Bool
  pub safe_error_code : Option String
  pub safe_error_message : Option String
  pub started_at : Option ℕ
  pub finished_at : Option ℕ

-- `normalized_value`, `raw_evidence`, `sources` and `observed_at` are left out.
pub record FindingRow : Type 0 where
  pub scan_id : String
  pub host : String
  pub port : Option ℕ
  pub category : FindingCategory
  pub kind : String
  pub title : String
  pub summary : String
  pub module_name : String
  pub confidence : Option Confidence
  pub fingerprint : String

-- The payload of an event: a status with its reason and count, or a footprint.
pub data Payload : Type 0 where
  of_scan : ScanStatus → Option String → Payload
  of_module : ModuleStatus → Option String → ℕ → Payload
  of_footprint : ℕ → ℕ → Payload

pub record ScanEventRow : Type 0 where
  pub scan_id : String
  pub sequence : ℕ
  pub event_type : ScanEventType
  pub module_name : Option String
  pub payload : Payload

pub record CacheEntryRow : Type 0 where
  pub cache_key : String
  pub source : String
  pub schema_version : ℕ
  pub status : String
  pub normalized : Option String
  pub response : Option String
  pub retrieved_at : ℕ
  pub expires_at : ℕ

pub record WorkerLockRow : Type 0 where
  pub owner_id : String
  pub pid : ℕ
  pub hostname : String
  pub acquired_at : ℕ
  pub heartbeat_at : ℕ

pub record ScopeProfileRow : Type 0 where
  pub id : String
  pub name : String
  pub entries : List String
  pub allow_cgnat : Bool
  pub allow_link_local : Bool

-- A row of `scan_ledger`, which `DatabaseLedger.record` of backend/app/db/ledger.py adds.
pub record ScanLedgerRow : Type 0 where
  pub scan_id : Option String
  pub scope_id : Option String
  pub entry : LedgerEntry

pub record Database : Type 0 where
  pub scans : List ScanRow
  pub runs : List ModuleRunRow
  pub findings : List FindingRow
  pub events : List ScanEventRow
  pub scopes : List ScopeProfileRow
  pub ledger : List ScanLedgerRow
  pub cache : List CacheEntryRow
  pub worker_lock : Option WorkerLockRow

-- `update(Table).where(p).values(…)`
abbrev pub update_where : {R : Type 0} → (R → Bool) → (R → R) → List R → List R
update_where p f rows = map (λ r. if p r then f r else r) rows

-- `delete(Table).where(p)`
abbrev pub delete_where : {R : Type 0} → (R → Bool) → List R → List R
delete_where p rows = select rows (λ r. not (p r))

-- Deleting scans deletes the rows that refer to them, as the foreign keys say (`ondelete="CASCADE"`).
abbrev pub delete_scans : (String → Bool) → Database → Database
delete_scans gone db = record db {
  scans = delete_where (λ r. gone r.id) db.scans;
  runs = delete_where (λ r. gone r.scan_id) db.runs;
  findings = delete_where (λ r. gone r.scan_id) db.findings;
  ledger = delete_where (λ r. elim r.scan_id [ none ↦ false | some id ↦ gone id ]) db.ledger;
  events = delete_where (λ r. gone r.scan_id) db.events;
}

-- `session.get(Table, id)`
unfoldable pub find_scan : List ScanRow → String → Option ScanRow
find_scan [] id = none
find_scan (s ∷ scans) id = let rest = find_scan scans id in if s.id == id then some s else rest

unfoldable pub find_scope : List ScopeProfileRow → String → Option ScopeProfileRow
find_scope [] id = none
find_scope (s ∷ scopes) id = let rest = find_scope scopes id in if s.id == id then some s else rest

-- `DatabaseLedger.record` of backend/app/db/ledger.py, for the entries of one call of the guard.
unfoldable pub store_entries : Option String → Option String → Ledger → Database → Database
store_entries scan_id scope_id entries db = record db {
  ledger =
      db.ledger
      ++ map (λ (e : LedgerEntry). record { scan_id = scan_id; scope_id = scope_id; entry = e })
          entries;
}
