-- ===== src/Scan/Runner/Recovery.antt =====
-- What the recovery of backend/app/scan/runner.py leaves after a crash.
use scan_ledger.Prelude.{ℕ, none, ◌+◌, ◌≡◌, refl, Bool, true, false, List, [], ◌∷◌, arith, count_if}
use scan_ledger.Models.Domain.{
  ScanStatus, ModuleStatus, done, interrupted, skipped, not_applicable, completed,
  completed_with_warnings, failed, canceled,
}
use scan_ledger.Db.{ScanRow, ModuleRunRow, Database, update_where}
use scan_ledger.Scan.Runner.{
  is_running, scan_is_running, scan_is_queued, interrupt_run, recover_interrupted,
}

abbrev pub is_interrupted : ModuleStatus → Bool
is_interrupted interrupted = true
is_interrupted _ = false

abbrev pub is_done : ModuleStatus → Bool
is_done done = true
is_done _ = false

abbrev pub requeue : ScanRow → ScanRow
requeue s = record s { status = ScanStatus.queued; claimed_by = none }

running_only :
    (s : ModuleStatus) → is_running s ≡ true → (is_done s ≡ false) × (is_interrupted s ≡ false)
running_only ModuleStatus.running h = (refl, refl)
running_only ModuleStatus.queued h = cc
running_only done h = cc
running_only ModuleStatus.failed h = cc
running_only skipped h = cc
running_only not_applicable h = cc
running_only interrupted h = cc

scan_running_only : (s : ScanStatus) → scan_is_running s ≡ true → scan_is_queued s ≡ false
scan_running_only ScanStatus.running h = refl
scan_running_only ScanStatus.queued h = cc
scan_running_only completed h = cc
scan_running_only completed_with_warnings h = cc
scan_running_only failed h = cc
scan_running_only canceled h = cc

module _ (now : ℕ) where
  abbrev runs' : List ModuleRunRow → List ModuleRunRow
  runs' rows = update_where (λ r. is_running r.status) (interrupt_run now) rows

  no_run_running : (rows : List ModuleRunRow) → count_if (runs' rows) (λ r. is_running r.status) ≡ 0
  no_run_running [] = refl
  no_run_running (r ∷ rows) = ground (arith, no_run_running rows)

  runs_interrupted :
      (rows : List ModuleRunRow)
      → count_if (runs' rows) (λ r. is_interrupted r.status)
        ≡ count_if rows (λ r. is_interrupted r.status) + count_if rows (λ r. is_running r.status)
  runs_interrupted [] = refl
  runs_interrupted (r ∷ rows) = ground (arith, runs_interrupted rows, running_only r.status)

  runs_done :
      (rows : List ModuleRunRow)
      → count_if (runs' rows) (λ r. is_done r.status) ≡ count_if rows (λ r. is_done r.status)
  runs_done [] = refl
  runs_done (r ∷ rows) = ground (arith, runs_done rows, running_only r.status)

  abbrev scans' : List ScanRow → List ScanRow
  scans' rows = update_where (λ s. scan_is_running s.status) requeue rows

  no_scan_running :
      (rows : List ScanRow) → count_if (scans' rows) (λ s. scan_is_running s.status) ≡ 0
  no_scan_running [] = refl
  no_scan_running (s ∷ rows) = ground (arith, no_scan_running rows)

  scans_queued :
      (rows : List ScanRow)
      → count_if (scans' rows) (λ s. scan_is_queued s.status)
        ≡ count_if rows (λ s. scan_is_queued s.status)
          + count_if rows (λ s. scan_is_running s.status)
  scans_queued [] = refl
  scans_queued (s ∷ rows) = ground (arith, scans_queued rows, scan_running_only s.status)

  -- After recovery no module run and no scan is running. The number returned is that of the module
  -- runs that were running; exactly so many more are interrupted, no more and no fewer are done, and
  -- every scan that was running is queued again.
  pub recover_interrupted_lem :
      (db : Database)
      → let (n, db') = recover_interrupted now db in
        (n ≡ count_if db.runs (λ r. is_running r.status))
        × (count_if db'.runs (λ r. is_running r.status) ≡ 0)
        × (count_if db'.runs (λ r. is_interrupted r.status)
            ≡ count_if db.runs (λ r. is_interrupted r.status) + n)
        × (count_if db'.runs (λ r. is_done r.status) ≡ count_if db.runs (λ r. is_done r.status))
        × (count_if db'.scans (λ s. scan_is_running s.status) ≡ 0)
        × (count_if db'.scans (λ s. scan_is_queued s.status)
            ≡ count_if db.scans (λ s. scan_is_queued s.status)
              + count_if db.scans (λ s. scan_is_running s.status))
  unfolding recover_interrupted
  recover_interrupted_lem db = (
    refl,
    no_run_running db.runs,
    runs_interrupted db.runs,
    runs_done db.runs,
    no_scan_running db.scans,
    scans_queued db.scans,
  )
