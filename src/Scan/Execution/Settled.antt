-- ===== src/Scan/Execution/Settled.antt =====
-- The module runs that an execution of backend/app/scan/runner.py leaves behind.
use scan_ledger.Prelude.{
  ℕ, ◌≤◌, ◌≡◌, ◌≢◌, ◌⊎◌, inl, inr, refl, sym, ap, ◌∙◌, subst, Bool, true, false, ◌&&◌, Option, none,
  some, List, [], ◌∷◌, arith, String, string_eq, ◌==◌, count_if, Bool-cases, returns, Outcome-cases,
}
use scan_ledger.Models.Domain.{
  ScanStatus, canceled, completed, completed_with_warnings, ModuleStatus, failed,
}
use scan_ledger.Db.{ScanRow, ModuleRunRow, Database, delete_where, update_where}
use scan_ledger.Modules.{ModuleMetadata, ModuleRegistry}
use scan_ledger.Scan.Runner.{ScanRunner, is_running}
use scan_ledger.Services.Retention.{run_retention}
use scan_ledger.Scan.Writes.{cancel_requested, finish, mark_remaining_skipped, is_open}
use scan_ledger.Scan.Execution.{
  Episode, Progress, LoopEnd, ran_all, was_canceled, escapes, run_modules, conclude, some_of,
  ordered, run_validated,
}
use scan_ledger.Scan.Execution.Runs.{running_runs, open_runs, run_modules_runs}

module _ (id : String) where
  running_open : (rows : List ModuleRunRow) → running_runs id rows ≤ open_runs id rows
  running_open [] = omega arith
  running_open (r ∷ rows) = ground (arith, running_open rows, running_is_open r.status)
    where
      running_is_open : (s : ModuleStatus) → is_running s ≡ true → is_open id s ≡ true
      running_is_open ModuleStatus.running h = refl
      running_is_open ModuleStatus.queued h = refl
      running_is_open _ h = ground arith

  none_open :
      (now : ℕ) (reason : String) (db : Database)
      → open_runs id (mark_remaining_skipped id now reason db).runs ≡ 0
  unfolding mark_remaining_skipped
  none_open now reason db = marked db.runs
    where
      marked :
          (rows : List ModuleRunRow)
          → open_runs id (
              update_where
                (λ r. r.scan_id == id && is_open id r.status)
                (λ r. record r {
                  status = ModuleStatus.skipped;
                  safe_error_message = some reason;
                  finished_at = some now;
                })
                rows)
            ≡ 0
      marked [] = refl
      marked (r ∷ rows) = ground (arith, marked rows)

  fewer :
      (rows : List ModuleRunRow) (p q : ModuleRunRow → Bool)
      → count_if (delete_where p rows) q ≤ count_if rows q
  fewer [] p q = omega arith
  fewer (r ∷ rows) p q = ground (arith, fewer rows p q)

  module _ (self : ScanRunner) (now : ℕ) where
    finish_fewer :
        (status : ScanStatus) (reason : Option String) (db : Database) (q : ModuleRunRow → Bool)
        → count_if (finish id self now status reason db).1.runs q ≤ count_if db.runs q
    unfolding finish run_retention
    finish_fewer status reason db q = fewer db.runs _ q

    abbrev Left : Option ScanStatus × Database → Type 0
    Left r = (running_runs id r.1.runs ≡ 0) × (r.0 ≡ some canceled → open_runs id r.1.runs ≡ 0)

    Left-closed :
        (status : ScanStatus) (reason : Option String) (db : Database)
        → open_runs id db.runs ≡ 0
        → Left (some_of (finish id self now status reason db))
    Left-closed status reason db z =
        let fewer_open =
          finish_fewer status reason db (λ r. r.scan_id == id && is_open id r.status) in
        (
          omega (arith, fewer_open, running_open (finish id self now status reason db).1.runs),
          λ _. omega (arith, fewer_open),
        )

    Left-settled :
        (status : ScanStatus) (reason : Option String) (db : Database)
        → some status ≢ some canceled
        → running_runs id db.runs ≡ 0
        → Left (some_of (finish id self now status reason db))
    unfolding finish
    Left-settled status reason db other z = (
      omega (arith, finish_fewer status reason db (λ r. r.scan_id == id && is_running r.status)),
      λ h. absurd (other h),
    )

    conclude_runs :
        (l : LoopEnd) (db : Database)
        → (l ≡ escapes) ⊎ (running_runs id db.runs ≡ 0)
        → (conclude id self now (l, db)).0 ≢ none
        → Left (conclude id self now (l, db))
    unfolding conclude
    conclude_runs escapes db z returned = absurd (returned refl)
    conclude_runs was_canceled db z returned =
        Left-closed canceled none (mark_remaining_skipped id now "the scan was canceled" db)
          (none_open now "the scan was canceled" db)
    conclude_runs (ran_all p) db (inl e) returned = cc
    conclude_runs (ran_all p) db (inr z) returned =
        elim (Bool-cases (cancel_requested id db.scans)) [
          | inl stop ↦ rw stop (
              Left-closed canceled none (mark_remaining_skipped id now "the scan was canceled" db)
                (none_open now "the scan was canceled" db))
          | inr go ↦ elim (Bool-cases p.any_success) [
            | inr nothing ↦ rw (go, nothing) (Left-settled failed _ db (λ h. cc) z)
            | inl something ↦ elim (Bool-cases p.any_problem) [
              | inl trouble ↦
                  rw (go, something, trouble)
                    (Left-settled completed_with_warnings none db (λ h. cc) z)
              | inr clean ↦ rw (go, something, clean) (Left-settled completed none db (λ h. cc) z)
            ]
          ]
        ]

module _ (registry : ModuleRegistry) (episodes : ℕ → Episode) (self : ScanRunner) (now : ℕ) where
  -- When a validated scan none of whose module runs is running is executed and the execution returns a
  -- status, none of its module runs is left running; if the status is canceled, none is left queued
  -- either.
  pub run_validated_settled :
      (scan : ScanRow) (db : Database) (status : ScanStatus)
      → running_runs scan.id db.runs ≡ 0
      → (run_validated registry episodes self now scan db).0 ≡ some status
      → (running_runs scan.id (run_validated registry episodes self now scan db).1.runs ≡ 0)
        × (status ≡ canceled
            → open_runs scan.id (run_validated registry episodes self now scan db).1.runs ≡ 0)
  unfolding run_validated
  run_validated_settled scan db status z h =
      elim (Outcome-cases (ordered registry scan.selected_modules)) [
        | inr (x, e) ↦ ground arith
        | inl (ms, e) ↦
            let start : Progress = record {
              any_success = false;
              any_problem = false;
              produced = [];
            } in
            let r = run_modules scan.id scan.target_type episodes 0 ms start db in
            let all_of =
              concluded scan.id self now r.0 r.1 status
                (run_modules_runs scan.id scan.target_type episodes 0 ms start db z)
                (ground arith) in
            subst
              (λ x.
                (running_runs scan.id x.1.runs ≡ 0)
                × (status ≡ canceled → open_runs scan.id x.1.runs ≡ 0))
              (sym (reached scan db ms e)) all_of
      ]
    where
      reached :
          (scan : ScanRow) (db : Database) (ms : List ModuleMetadata)
          → ordered registry scan.selected_modules ≡ returns ms
          → run_validated registry episodes self now scan db
            ≡ conclude scan.id self now (
                run_modules scan.id scan.target_type episodes 0 ms
                  (record { any_success = false; any_problem = false; produced = [] })
                  db)
      reached scan db ms e = ground arith

      concluded :
          (id : String) (self : ScanRunner) (now : ℕ) (l : LoopEnd) (db : Database)
          (status : ScanStatus)
          → (l ≡ escapes) ⊎ (running_runs id db.runs ≡ 0)
          → (conclude id self now (l, db)).0 ≡ some status
          → (running_runs id (conclude id self now (l, db)).1.runs ≡ 0)
            × (status ≡ canceled → open_runs id (conclude id self now (l, db)).1.runs ≡ 0)
      concluded id self now l db status z h =
          let (settled, closed) = conclude_runs id self now l db z (λ n. cc) in
          (settled, λ c. closed (h ∙ ap some c))
