-- ===== src/Scan/Writes.antt =====
-- What `ScanRunner` of backend/app/scan/runner.py reads and writes for one scan. `now` is what
-- `datetime.now(UTC)` gives.
use scan_ledger.Prelude.{
  ℕ, ◌+◌, Bool, true, false, ◌&&◌, Option, none, some, List, [], ◌∷◌, ◌++◌, String, string_eq, ◌==◌,
  map, if◌then◌else◌,
}
use scan_ledger.Models.Domain.{
  ScanStatus, running, ModuleStatus, skipped, ScanEventType, scan_status, module_status, footprint,
}
use scan_ledger.Db.{
  ScanRow, FindingRow, Payload, of_scan, of_module, of_footprint, Database, update_where,
}
use scan_ledger.Scan.Events.{publish}
use scan_ledger.Scan.Runner.{ScanRunner}
use scan_ledger.Services.Retention.{run_retention}

module _ (scan_id : String) where
  -- `_cancel_requested`
  unfoldable pub cancel_requested : List ScanRow → Bool
  cancel_requested [] = false
  cancel_requested (s ∷ scans) =
      let rest = cancel_requested scans in if s.id == scan_id then s.cancel_requested else rest

  -- What the API's cancel of a running scan writes.
  unfoldable pub request_cancel : Database → Database
  request_cancel db = record db {
    scans =
        update_where (λ s. s.id == scan_id) (λ s. record s { cancel_requested = true }) db.scans;
  }

  abbrev pub publish_event : ScanEventType → Option String → Payload → Database → Database
  publish_event kind name payload db = record db {
    events =
        publish db.events scan_id
          (record { event_type = kind; module_name = name; payload = payload });
  }

  abbrev or_kept : Option String → Option String → Option String
  or_kept none old = old
  or_kept (some s) old = some s

  -- `_set_module_status(…, RUNNING)`
  unfoldable pub set_module_running : ℕ → String → Database → Database
  set_module_running now name db =
      publish_event module_status (some name) (of_module running none 0) (record db {
        runs =
            update_where (λ r. r.scan_id == scan_id && r.module_name == name)
              (λ r. record r {
                status = ModuleStatus.running;
                attempt_count = r.attempt_count + 1;
                started_at = some now;
              })
              db.runs;
      })

  -- `_set_module_status` with any other status
  unfoldable pub set_module_status :
      ℕ → String → ModuleStatus → Option String → Option String → ℕ → Bool → Database → Database
  set_module_status now name status reason code finding_count cache_hit db =
      publish_event module_status (some name) (of_module status reason finding_count) (record db {
        runs =
            update_where (λ r. r.scan_id == scan_id && r.module_name == name)
              (λ r. record r {
                status = status;
                finished_at = some now;
                finding_count = finding_count;
                cache_hit = cache_hit;
                safe_error_message = or_kept reason r.safe_error_message;
                safe_error_code = or_kept code r.safe_error_code;
              })
              db.runs;
      })

  abbrev pub is_open : ModuleStatus → Bool
  is_open ModuleStatus.queued = true
  is_open ModuleStatus.running = true
  is_open _ = false

  -- `_mark_remaining_skipped`
  unfoldable pub mark_remaining_skipped : ℕ → String → Database → Database
  mark_remaining_skipped now reason db = record db {
    runs =
        update_where (λ r. r.scan_id == scan_id && is_open r.status)
          (λ r. record r {
            status = skipped;
            safe_error_message = some reason;
            finished_at = some now;
          })
          db.runs;
  }

  -- `_finish`
  unfoldable pub finish :
      ScanRunner → ℕ → ScanStatus → Option String → Database → ScanStatus × Database
  finish self now status reason db =
      let written = record db {
        scans =
            update_where (λ s. s.id == scan_id)
              (λ s. record s { status = status; finished_at = some now }) db.scans;
      } in
      (
        status,
        (run_retention self.retention_days now
            (publish_event scan_status none (of_scan status reason) written)).1,
      )

  -- `_publish_footprint`
  unfoldable pub publish_footprint : ℕ → ℕ → Database → Database
  publish_footprint hosts probes = publish_event footprint none (of_footprint hosts probes)

  unfoldable pub publish_footprints : List (ℕ × ℕ) → Database → Database
  unfolding publish_footprint
  publish_footprints [] db = db
  publish_footprints ((hosts, probes) ∷ others) db =
      publish_footprints others (publish_footprint hosts probes db)

  -- `_store_findings`
  unfoldable pub store_findings : List FindingRow → Database → Database
  store_findings found db = record db {
    findings = db.findings ++ map (λ (f : FindingRow). record f { scan_id = scan_id }) found;
  }
