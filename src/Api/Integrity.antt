-- ===== src/Api/Integrity.antt =====
-- The rows that refer to other rows: a scan to its scope profile, and runs, findings, events and ledger
-- rows to their scan. The steps are the requests of backend/app/api that write, and the retention sweep.
pub mod Rows
pub mod Queued
pub mod Kept
pub mod Reached
use scan_ledger.Prelude.{
  ℕ, ◌≡◌, Bool, true, Option, none, some, List, String, string_eq, ◌==◌, any, All, Outcome,
}
use scan_ledger.Net.{IpAddress}
use scan_ledger.Guard.Ranges.{Reason}
use scan_ledger.Guard.Scope.{IpReader}
use scan_ledger.Modules.{ModuleRegistry}
use scan_ledger.Db.{
  ScanRow, ModuleRunRow, FindingRow, ScanEventRow, ScopeProfileRow, ScanLedgerRow, Database,
}
use scan_ledger.Services.Scans.{ScanCreate, create_scan}
use scan_ledger.Services.Retention.{run_retention}
use scan_ledger.Api.Scans.{cancel_scan, delete_scan}
use scan_ledger.Api.Scopes.{ScopeCreate, create_scope, update_scope, delete_scope}

abbrev pub has_scan : List ScanRow → String → Bool
has_scan scans id = any scans (λ (s : ScanRow). s.id == id)

abbrev pub has_scope : List ScopeProfileRow → String → Bool
has_scope scopes id = any scopes (λ (s : ScopeProfileRow). s.id == id)

-- A ledger row without a scan refers to none.
abbrev pub ledger_stands : List ScanRow → ScanLedgerRow → Bool
ledger_stands scans r = elim r.scan_id [ none ↦ true | some id ↦ has_scan scans id ]

pub record Sound (scopes : List ScopeProfileRow) (scans : List ScanRow) (runs : List ModuleRunRow)
    (findings : List FindingRow) (events : List ScanEventRow) (ledger : List ScanLedgerRow)
    : Type 0 where
  pub of_scans : All (λ (r : ScanRow). has_scope scopes r.scope_id ≡ true) scans
  pub of_runs : All (λ (r : ModuleRunRow). has_scan scans r.scan_id ≡ true) runs
  pub of_findings : All (λ (r : FindingRow). has_scan scans r.scan_id ≡ true) findings
  pub of_events : All (λ (r : ScanEventRow). has_scan scans r.scan_id ≡ true) events
  pub of_ledger : All (λ (r : ScanLedgerRow). ledger_stands scans r ≡ true) ledger

abbrev pub Integrity : Database → Type 0
Integrity db = Sound db.scopes db.scans db.runs db.findings db.events db.ledger

pub data Step : Database → Database → Type 0 where
  scan_created :
      (reader : IpReader) (resolver : String → Outcome Reason (List IpAddress))
      (registry : ModuleRegistry) (new_id : String) (now : ℕ) (request : ScanCreate) (db : Database)
      → Step db (create_scan reader resolver registry new_id now request db).1
  scan_canceled : (scan_id : String) (db : Database) → Step db (cancel_scan scan_id db).1
  scan_deleted : (scan_id : String) (db : Database) → Step db (delete_scan scan_id db).1
  scope_created :
      (reader : IpReader) (new_id : String) (payload : ScopeCreate) (db : Database)
      → Step db (create_scope reader new_id payload db).1
  scope_updated :
      (reader : IpReader) (scope_id : String) (payload : ScopeCreate) (db : Database)
      → Step db (update_scope reader scope_id payload db).1
  scope_deleted : (scope_id : String) (db : Database) → Step db (delete_scope scope_id db).1
  swept : (retention_days now : ℕ) (db : Database) → Step db (run_retention retention_days now db).1

pub data Reaches : Database → Database → Type 0 where
  start : (db : Database) → Reaches db db
  after : {a b c : Database} → Reaches a b → Step b c → Reaches a c
