-- ===== src/Scan/Execution/Runs.antt =====
-- How the rounds of an execution (backend/app/scan/runner.py) change the rows of the module runs.
use scan_ledger.Prelude.{
  ℕ, ◌+◌, ◌≤◌, ◌≡◌, ◌⊎◌, inl, inr, refl, ap, Bool, false, not, ◌&&◌, Option, some, List, [], ◌∷◌,
  arith, String, string_eq, ◌==◌, count_if, Bool-cases, Option-cases,
}
use scan_ledger.Models.Domain.{ModuleStatus, TargetType}
use scan_ledger.Db.{ModuleRunRow, Database, update_where}
use scan_ledger.Modules.{ModuleMetadata, applies_to}
use scan_ledger.Scan.Runner.{is_running}
use scan_ledger.Scan.Writes.{
  cancel_requested, set_module_running, set_module_status, is_open, publish_footprints,
  publish_footprint, request_cancel, store_findings,
}
use scan_ledger.Scan.Execution.{
  ModuleAnswer, timed_out, escaped, over_budget, target_refused, module_error, answered, Episode,
  Progress, escapes, meanwhile, take_answer, skip_module, run_module, run_modules,
}

module _ (id : String) where
  -- The runs of the scan that are running, and those of them that are not of one module.
  abbrev pub running_runs : List ModuleRunRow → ℕ
  running_runs rows = count_if rows (λ r. r.scan_id == id && is_running r.status)

  abbrev pub others_running : String → List ModuleRunRow → ℕ
  others_running name rows =
      count_if rows (λ r. r.scan_id == id && is_running r.status && not (r.module_name == name))

  -- The runs of the scan that are queued or running.
  abbrev pub open_runs : List ModuleRunRow → ℕ
  open_runs rows = count_if rows (λ r. r.scan_id == id && is_open id r.status)

  others_le :
      (name : String) (rows : List ModuleRunRow) → others_running name rows ≤ running_runs rows
  others_le name [] = omega arith
  others_le name (r ∷ rows) = ground (arith, others_le name rows)

  module _ (name : String) (f : ModuleRunRow → ModuleRunRow)
      (same : (r : ModuleRunRow)
        → ((f r).scan_id ≡ r.scan_id) × ((f r).module_name ≡ r.module_name)) where
    abbrev of_module : List ModuleRunRow → List ModuleRunRow
    of_module rows = update_where (λ r. r.scan_id == id && r.module_name == name) f rows

    others_kept :
        (rows : List ModuleRunRow) → others_running name (of_module rows) ≡ others_running name rows
    others_kept [] = refl
    others_kept (r ∷ rows) = ground (arith, others_kept rows, same r)

    settled_rows :
        ((r : ModuleRunRow) → is_running (f r).status ≡ false)
        → (rows : List ModuleRunRow) → running_runs (of_module rows) ≡ others_running name rows
    settled_rows still [] = refl
    settled_rows still (r ∷ rows) = ground (arith, settled_rows still rows, same r, still r)

  others_after_running :
      (now : ℕ) (name : String) (db : Database)
      → others_running name (set_module_running id now name db).runs ≡ others_running name db.runs
  unfolding set_module_running
  others_after_running now name db = others_kept name _ (λ r. (refl, refl)) db.runs

  none_after_status :
      (now : ℕ) (name : String) (s : ModuleStatus) (reason code : Option String) (n : ℕ)
      (hit : Bool) (db : Database)
      → is_running s ≡ false
      → running_runs (set_module_status id now name s reason code n hit db).runs
        ≡ others_running name db.runs
  unfolding set_module_status
  none_after_status now name s reason code n hit db h =
      settled_rows name _ (λ r. (refl, refl)) (λ r. h) db.runs

  footprints_runs :
      (others : List (ℕ × ℕ)) (db : Database) → (publish_footprints id others db).runs ≡ db.runs
  unfolding publish_footprints publish_footprint
  footprints_runs [] db = refl
  footprints_runs ((hosts, probes) ∷ others) db = footprints_runs others _

  meanwhile_runs : (e : Episode) (db : Database) → (meanwhile id e db).runs ≡ db.runs
  unfolding meanwhile request_cancel
  meanwhile_runs e db = ground (arith, footprints_runs e.streamed db)

  take_answer_runs :
      (e : Episode) (m : ModuleMetadata) (a : ModuleAnswer) (p p' : Progress) (db : Database)
      → (take_answer id e m a p db).0 ≡ some p'
      → running_runs (take_answer id e m a p db).1.runs ≡ others_running m.name db.runs
  unfolding take_answer store_findings
  take_answer_runs e m escaped p p' db h = cc
  take_answer_runs e m timed_out p p' db h = none_after_status e.ended m.name _ _ _ _ _ db refl
  take_answer_runs e m (over_budget reason) p p' db h =
      none_after_status e.ended m.name _ _ _ _ _ db refl
  take_answer_runs e m (module_error code reason) p p' db h =
      none_after_status e.ended m.name _ _ _ _ _ db refl
  take_answer_runs e m (target_refused reason) p p' db h =
      none_after_status e.ended m.name _ _ _ _ _ db refl
  take_answer_runs e m (answered result) p p' db h =
      none_after_status e.ended m.name _ _ _ _ _ (store_findings id result.findings db) refl

  run_module_runs :
      (e : Episode) (m : ModuleMetadata) (p p' : Progress) (db : Database)
      → running_runs db.runs ≡ 0
      → (run_module id e m p db).0 ≡ some p'
      → running_runs (run_module id e m p db).1.runs ≡ 0
  unfolding run_module publish_footprint
  run_module_runs e m p p' db z h =
      let began = set_module_running id e.began m.name db in
      elim (Option-cases (take_answer id e m e.answer p (meanwhile id e began)).0) [
        | inl none_left ↦ ground arith
        | inr (q, taken) ↦ omega (
          arith,
          after_answer e m p p' db h,
          take_answer_runs e m e.answer p q (meanwhile id e began) taken,
          ap (others_running m.name) (meanwhile_runs e began),
          others_after_running e.began m.name db,
          others_le m.name db.runs,
        )
      ]
    where
      after_answer :
          (e : Episode) (m : ModuleMetadata) (p p' : Progress) (db : Database)
          → (run_module id e m p db).0 ≡ some p'
          → running_runs (run_module id e m p db).1.runs
            ≡ running_runs
                (take_answer id e m e.answer p
                  (meanwhile id e (set_module_running id e.began m.name db))).1.runs
      after_answer e m p p' db h = ground arith

  module _ (kind : TargetType) (episodes : ℕ → Episode) where
    pub run_modules_runs :
        (i : ℕ) (ms : List ModuleMetadata) (p : Progress) (db : Database)
        → running_runs db.runs ≡ 0
        → ((run_modules id kind episodes i ms p db).0 ≡ escapes)
          ⊎ (running_runs (run_modules id kind episodes i ms p db).1.runs ≡ 0)
    unfolding run_modules
    run_modules_runs i [] p db z = inr z
    run_modules_runs i (m ∷ ms) p db z = elim (Bool-cases (cancel_requested id db.scans)) [
      | inl stop ↦ inr (rw stop z)
      | inr go ↦ elim (Bool-cases (applies_to kind m.supported_targets)) [
        | inr skip ↦
            rw (go, skip)
              (run_modules_runs (i + 1) ms p (skip_module id (episodes i) m kind db) (
                omega (
                  arith,
                  none_after_status (episodes i).began m.name ModuleStatus.not_applicable _ _ _ _ db
                      refl,
                  others_le m.name db.runs,
                )))
        | inl runs ↦ elim (Option-cases (run_module id (episodes i) m p db).0) [
          | inl e ↦ inl (ground arith)
          | inr (q, e) ↦
              rw (go, runs, e)
                (run_modules_runs (i + 1) ms q (run_module id (episodes i) m p db).1
                  (run_module_runs (episodes i) m p q db z e))
        ]
      ]
    ]
