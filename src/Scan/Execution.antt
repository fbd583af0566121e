-- ===== src/Scan/Execution.antt =====
-- `ScanRunner.execute_scan` of backend/app/scan/runner.py. What a module answers, and what else happens
-- while it runs, is an episode: its answer, whether a cancel was requested meanwhile, the footprints that
-- were streamed, the counters after it and the times of its two status changes.
pub mod Verdict
pub mod Settled
pub mod Runs
use scan_ledger.Prelude.{
  ℕ, suc, ◌+◌, Bool, true, false, not, ◌&&◌, ◌||◌, Option, none, some, List, [], ◌∷◌, ◌++◌, String,
  string_eq, ◌==◌, map, leb, length, if◌then◌else◌, Dict, get, Outcome, returns, raises, ◌>>=◌,
}
use scan_ledger.Text.Join.{join}
use scan_ledger.Models.Domain.{
  ScanStatus, running, completed, completed_with_warnings, failed, canceled, ModuleStatus, done,
  not_applicable, TargetType, scan_status,
}
use scan_ledger.Db.{
  find_scan, find_scope, store_entries, ScanRow, ScopeProfileRow, FindingRow, ScanLedgerRow,
  of_scan, Database,
}
use scan_ledger.Modules.{
  ModuleMetadata, ModuleResult, ModuleRegistry, RegistryError, applies_to, get_module,
}
use scan_ledger.Net.{IpAddress}
use scan_ledger.Guard.Ranges.{Reason}
use scan_ledger.Guard.Ledger.{Ledger, LedgerEntry}
use scan_ledger.Guard.Scope.{IpReader, ScopeProfile, ScopeValidationError}
use scan_ledger.Guard.Scope.{create as create_scope}
use scan_ledger.Guard.ScanGuard.{TargetRejected, validate_target}
use scan_ledger.Scan.Governor.{IntensityGovernor, GovernorConfigError, intensity_profiles}
use scan_ledger.Scan.Governor.{create as create_governor}
use scan_ledger.Scan.Runner.{ScanRunner}
use scan_ledger.Scan.Writes.{
  cancel_requested, request_cancel, publish_event, set_module_running, set_module_status,
  mark_remaining_skipped, finish, publish_footprint, publish_footprints, store_findings,
}

-- How `asyncio.wait_for(module.run(context), …)` ends: `escaped` is an exception of another class.
pub data ModuleAnswer : Type 0 where
  timed_out escaped : ModuleAnswer
  over_budget target_refused : String → ModuleAnswer
  module_error : String → String → ModuleAnswer
  answered : ModuleResult → ModuleAnswer

pub record Episode : Type 0 where
  pub answer : ModuleAnswer
  pub cancels : Bool
  pub streamed : List (ℕ × ℕ)
  pub hosts_touched : ℕ
  pub probes_made : ℕ
  pub began : ℕ
  pub ended : ℕ

-- The first part of the loop's local variables.
pub record Progress : Type 0 where
  pub any_success : Bool
  pub any_problem : Bool
  pub produced : List FindingRow

-- How the loop ends: after the last module, at a cancel, or with an exception that it does not catch.
pub data LoopEnd : Type 0 where
  ran_all : Progress → LoopEnd
  was_canceled escapes : LoopEnd

abbrev unsupported : TargetType → String
unsupported TargetType.ip = "this module does not support a ip target"
unsupported TargetType.cidr = "this module does not support a cidr target"
unsupported TargetType.host = "this module does not support a host target"

abbrev pub some_of : ScanStatus × Database → Option ScanStatus × Database
some_of (status, db) = (some status, db)

module _ (scan_id : String) where
  -- What happens between the two status changes of a module.
  unfoldable pub meanwhile : Episode → Database → Database
  meanwhile e db =
      let streamed = publish_footprints scan_id e.streamed db in
      if e.cancels then request_cancel scan_id streamed else streamed

  abbrev problem : Progress → Progress
  problem p = record p { any_problem = true }

  failed_with : Episode → ModuleMetadata → String → String → Database → Database
  failed_with e m reason code =
      set_module_status scan_id e.ended m.name ModuleStatus.failed (some reason) (some code) 0 false

  -- The `except` and `else` clauses.
  unfoldable pub take_answer :
      Episode → ModuleMetadata → ModuleAnswer → Progress → Database → Option Progress × Database
  unfolding failed_with
  take_answer e m escaped p db = (none, db)
  take_answer e m timed_out p db =
      (some (problem p), failed_with e m m.timeout_text "module_timeout" db)
  take_answer e m (over_budget reason) p db =
      (some (problem p), failed_with e m reason "budget_exceeded" db)
  take_answer e m (module_error code reason) p db =
      (some (problem p), failed_with e m reason code db)
  take_answer e m (target_refused reason) p db =
      (some (problem p), failed_with e m reason "target_out_of_scope" db)
  take_answer e m (answered result) p db = (
    some (record {
      any_success = true;
      any_problem = elim result.warnings [ [] ↦ p.any_problem | _ ∷ _ ↦ true ];
      produced = p.produced ++ result.findings;
    }),
    set_module_status scan_id e.ended m.name done
        (elim result.warnings [ [] ↦ none | w ∷ ws ↦ some (join "; " (w ∷ ws)) ]) none
        (length result.findings) result.cache_hit (store_findings scan_id result.findings db),
  )

  -- One round for a module that applies.
  unfoldable pub run_module :
      Episode → ModuleMetadata → Progress → Database → Option Progress × Database
  unfolding take_answer meanwhile
  run_module e m p db =
      let (answer, db') =
        take_answer e m e.answer p (meanwhile e (set_module_running scan_id e.began m.name db)) in
      elim answer [
        | none ↦ (none, db')
        | some p' ↦ (some p', publish_footprint scan_id e.hosts_touched e.probes_made db')
      ]

  -- The round of a module that does not apply.
  abbrev pub skip_module : Episode → ModuleMetadata → TargetType → Database → Database
  skip_module e m kind db =
      set_module_status scan_id e.began m.name not_applicable (some (unsupported kind)) none 0 false
        db

  -- The loop, from the round with number `i`.
  unfoldable pub run_modules :
      TargetType
      → (ℕ → Episode)
      → ℕ
      → List ModuleMetadata
      → Progress
      → Database
      → LoopEnd × Database
  unfolding run_module
  run_modules kind episodes i [] p db = (ran_all p, db)
  run_modules kind episodes i (m ∷ ms) p db =
      let e = episodes i in
      let past = run_modules kind episodes (i + 1) ms p (skip_module e m kind db) in
      let one = run_module e m p db in
      if cancel_requested scan_id db.scans
      then (was_canceled, db)
      else if not (applies_to kind m.supported_targets)
      then past
      else elim one.0 [
        | none ↦ (escapes, one.1)
        | some p' ↦ run_modules kind episodes (i + 1) ms p' one.1
      ]

  -- What follows the loop.
  unfoldable pub conclude : ScanRunner → ℕ → LoopEnd × Database → Option ScanStatus × Database
  conclude self now (escapes, db) = (none, db)
  conclude self now (was_canceled, db) = some_of (
      finish scan_id self now canceled none
        (mark_remaining_skipped scan_id now "the scan was canceled" db))
  conclude self now (ran_all p, db) =
      if cancel_requested scan_id db.scans
      then some_of (
          finish scan_id self now canceled none
            (mark_remaining_skipped scan_id now "the scan was canceled" db))
      else if not p.any_success
      then some_of
          (finish scan_id self now failed (some "no module produced a valid terminal result") db)
      else if p.any_problem
      then some_of (finish scan_id self now completed_with_warnings none db)
      else some_of (finish scan_id self now completed none db)

-- `sorted(selected, key=…)`: equal orders keep their places.
unfoldable pub insert_by_order : ModuleMetadata → List ModuleMetadata → List ModuleMetadata
insert_by_order m [] = m ∷ []
insert_by_order m (n ∷ others) =
    let rest = insert_by_order m others in if leb m.order n.order then m ∷ n ∷ others else n ∷ rest

unfoldable pub ordered : ModuleRegistry → List String → Outcome RegistryError (List ModuleMetadata)
unfolding insert_by_order get_module
ordered registry [] = returns []
ordered registry (name ∷ names) = do
  m ← get_module registry name
  others ← ordered registry names
  returns (insert_by_order m others)

module _ (registry : ModuleRegistry) (episodes : ℕ → Episode) (self : ScanRunner) (now : ℕ) where
  -- After validation: the modules in order, and the verdict. `none` is an exception that is not caught.
  unfoldable pub run_validated : ScanRow → Database → Option ScanStatus × Database
  unfolding ordered
  run_validated scan db = elim (ordered registry scan.selected_modules) [
    | raises _ ↦ (none, db)
    | returns modules ↦ conclude scan.id self now (
        run_modules scan.id scan.target_type episodes 0 modules
          (record { any_success = false; any_problem = false; produced = [] }) db)
  ]

  module _ (reader : IpReader) (resolver : String → Outcome Reason (List IpAddress))
      (refusal : Reason → String) where
    -- The part of `execute_scan` under a scope that was read and a governor that was made.
    unfoldable pub dispatch :
        ScanRow → ScopeProfileRow → ScopeProfile → Database → Option ScanStatus × Database
    unfolding run_validated store_entries
    dispatch scan row scope db =
        let started = publish_event scan.id scan_status none (of_scan running none) db in
        elim (create_governor {K = IpAddress} intensity_profiles scan.intensity_profile) [
          | raises _ ↦ (none, started)
          | returns _ ↦
              let (verdict, entries) = validate_target scope reader resolver scan.target_input [] in
              let recorded = store_entries (some scan.id) (some row.id) entries started in
              elim verdict [
                | raises x ↦
                    some_of (finish scan.id self now failed (some (refusal x.reason)) recorded)
                | returns _ ↦ run_validated scan recorded
              ]
        ]

    unfoldable pub execute_scan : String → Database → Option ScanStatus × Database
    unfolding dispatch find_scan find_scope
    execute_scan scan_id db = elim (find_scan db.scans scan_id) [
      | none ↦ (some failed, db)
      | some scan ↦ elim (find_scope db.scopes scan.scope_id) [
        | none ↦ some_of (
            finish scan_id self now failed (some "the scope profile for this scan no longer exists")
              db)
        | some row ↦
            elim (create_scope reader row.name row.entries row.allow_cgnat row.allow_link_local) [
              | raises _ ↦ (none, db)
              | returns scope ↦ dispatch scan row scope db
            ]
      ]
    ]
