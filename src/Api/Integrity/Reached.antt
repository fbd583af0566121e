-- ===== src/Api/Integrity/Reached.antt =====
-- The requests of backend/app/api, in any number and order.
use scan_ledger.Db.{Database}
use scan_ledger.Services.Scans.Gates.{create_scan-Described}
use scan_ledger.Api.Integrity.{
  Integrity, Step, scan_created, scan_canceled, scan_deleted, scope_created, scope_updated,
  scope_deleted, swept, Reaches, start, after,
}
use scan_ledger.Api.Integrity.Queued.{Described-Integrity}
use scan_ledger.Api.Integrity.Kept.{
  cancel_scan-Integrity, delete_scan-Integrity, create_scope-Integrity, update_scope-Integrity,
  delete_scope-Integrity, run_retention-Integrity,
}

Step-Integrity : (db db' : Database) → Step db db' → Integrity db → Integrity db'
Step-Integrity _ _ (scan_created reader resolver registry new_id now request db) h =
    Described-Integrity reader resolver registry new_id now request db h _
      (create_scan-Described reader resolver registry new_id now request db)
Step-Integrity _ _ (scan_canceled scan_id db) h = cancel_scan-Integrity db h scan_id
Step-Integrity _ _ (scan_deleted scan_id db) h = delete_scan-Integrity db h scan_id
Step-Integrity _ _ (scope_created reader new_id payload db) h =
    create_scope-Integrity db h reader new_id payload
Step-Integrity _ _ (scope_updated reader scope_id payload db) h =
    update_scope-Integrity db h reader scope_id payload
Step-Integrity _ _ (scope_deleted scope_id db) h = delete_scope-Integrity db h scope_id
Step-Integrity _ _ (swept retention_days now db) h = run_retention-Integrity db h retention_days now

-- Whatever sequence of requests (queueing, canceling and deleting scans; adding, changing and deleting
-- scope profiles) and retention sweeps runs, refused ones included, every stored scan keeps its scope
-- profile, and every run, finding, event and owned ledger row keeps its scan, if that held before.
pub Reaches-Integrity : (db db' : Database) → Reaches db db' → Integrity db → Integrity db'
Reaches-Integrity _ _ (start db) h = h
Reaches-Integrity db c (after {b} path step) h =
    Step-Integrity b c step (Reaches-Integrity db b path h)
