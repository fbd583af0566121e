-- ===== src/Scan/Execution/Verdict.antt =====
-- The verdict of a scan in backend/app/scan/runner.py against what its modules answered.
use mathlib.Core.Option.{some-injective}
use scan_ledger.Prelude.{
  ℕ, ◌+◌, ◌≡◌, ◌⊎◌, inl, inr, refl, sym, Bool, true, false, not, ◌||◌, some, List, [], ◌∷◌, arith,
  any, String, if◌then◌else◌, Bool-cases, Option-cases, returns, Outcome-cases,
}
use scan_ledger.Models.Domain.{
  ScanStatus, completed, completed_with_warnings, failed, canceled, TargetType,
}
use scan_ledger.Db.{ScanRow, Database}
use scan_ledger.Modules.{ModuleMetadata, ModuleRegistry, applies_to}
use scan_ledger.Scan.Runner.{ScanRunner}
use scan_ledger.Scan.Writes.{cancel_requested, finish, set_module_running}
use scan_ledger.Scan.Execution.{
  ModuleAnswer, timed_out, escaped, over_budget, target_refused, module_error, answered, Episode,
  Progress, LoopEnd, ran_all, was_canceled, escapes, take_answer, meanwhile, skip_module,
  run_module, run_modules, conclude, ordered, run_validated,
}

-- The answers of the modules that apply to the target, in the order of the rounds.
unfoldable pub answers : TargetType → (ℕ → Episode) → ℕ → List ModuleMetadata → List ModuleAnswer
answers kind episodes i [] = []
answers kind episodes i (m ∷ ms) =
    let rest = answers kind episodes (i + 1) ms in
    if applies_to kind m.supported_targets then (episodes i).answer ∷ rest else rest

abbrev pub is_success : ModuleAnswer → Bool
is_success (answered result) = true
is_success _ = false

-- Anything but a result without warnings.
abbrev pub is_problem : ModuleAnswer → Bool
is_problem (answered result) = elim result.warnings [ [] ↦ false | _ ∷ _ ↦ true ]
is_problem _ = true

abbrev pub verdict : List ModuleAnswer → ScanStatus
verdict given =
    if not (any given is_success)
    then failed
    else if any given is_problem
    then completed_with_warnings
    else completed

abbrev Tally : Progress → ModuleAnswer → Progress → Type 0
Tally p a p' =
    (p'.any_success ≡ (p.any_success || is_success a))
    × (p'.any_problem ≡ (p.any_problem || is_problem a))

take_answer-Tally :
    (id : String) (e : Episode) (m : ModuleMetadata) (a : ModuleAnswer) (p p' : Progress)
    (db : Database)
    → (take_answer id e m a p db).0 ≡ some p'
    → Tally p a p'
unfolding take_answer
take_answer-Tally id e m escaped p p' db h = cc
take_answer-Tally id e m timed_out p p' db h = ground arith
take_answer-Tally id e m (over_budget reason) p p' db h = ground arith
take_answer-Tally id e m (module_error code reason) p p' db h = ground arith
take_answer-Tally id e m (target_refused reason) p p' db h = ground arith
take_answer-Tally id e m (answered result) p p' db h = ground arith

run_module-Tally :
    (id : String) (e : Episode) (m : ModuleMetadata) (p p' : Progress) (db : Database)
    → (run_module id e m p db).0 ≡ some p'
    → Tally p e.answer p'
unfolding run_module
run_module-Tally id e m p p' db h =
    take_answer-Tally id e m e.answer p p'
      (meanwhile id e (set_module_running id e.began m.name db)) (ground arith)

module _ (id : String) (kind : TargetType) (episodes : ℕ → Episode) where
  abbrev Total : Progress → List ModuleAnswer → Progress → Type 0
  Total p given p' =
      (p'.any_success ≡ (p.any_success || any given is_success))
      × (p'.any_problem ≡ (p.any_problem || any given is_problem))

  join_totals :
      (p q p' : Progress) (a : ModuleAnswer) (given : List ModuleAnswer)
      → Tally p a q
      → Total q given p'
      → Total p (a ∷ given) p'
  join_totals p q p' a given t u = (ground (arith, t.0, u.0), ground (arith, t.1, u.1))

  run_modules-Total :
      (i : ℕ) (ms : List ModuleMetadata) (p p' : Progress) (db : Database)
      → (run_modules id kind episodes i ms p db).0 ≡ ran_all p'
      → Total p (answers kind episodes i ms) p'
  unfolding run_modules answers
  run_modules-Total i [] p p' db h = ground arith
  run_modules-Total i (m ∷ ms) p p' db h = elim (Bool-cases (cancel_requested id db.scans)) [
    | inl stop ↦ ground arith
    | inr go ↦ elim (Bool-cases (applies_to kind m.supported_targets)) [
      | inr skip ↦
          rw skip (
            run_modules-Total (i + 1) ms p p' (skip_module id (episodes i) m kind db)
              (ground arith))
      | inl runs ↦ elim (Option-cases (run_module id (episodes i) m p db).0) [
        | inl e ↦ ground arith
        | inr (q, e) ↦ rw runs (
            join_totals p q p' (episodes i).answer (answers kind episodes (i + 1) ms)
              (run_module-Tally id (episodes i) m p q db e)
              (run_modules-Total (i + 1) ms q p' (run_module id (episodes i) m p db).1
                (ground arith)))
      ]
    ]
  ]

LoopEnd-cases :
    (l : LoopEnd) → ((p : Progress) × (l ≡ ran_all p)) ⊎ ((l ≡ was_canceled) ⊎ (l ≡ escapes))
LoopEnd-cases (ran_all p) = inl (p, refl)
LoopEnd-cases was_canceled = inr (inl refl)
LoopEnd-cases escapes = inr (inr refl)

module _ (id : String) (self : ScanRunner) (now : ℕ) where
  conclude-canceled :
      (l : LoopEnd) (db : Database) (status : ScanStatus)
      → l ≡ was_canceled
      → (conclude id self now (l, db)).0 ≡ some status
      → status ≡ canceled
  unfolding conclude finish
  conclude-canceled was_canceled db status e h = sym (some-injective _ _ h)
  conclude-canceled (ran_all p) db status e h = cc
  conclude-canceled escapes db status e h = cc

  conclude_ran :
      (p : Progress) (given : List ModuleAnswer) (db : Database) (status : ScanStatus)
      → p.any_success ≡ any given is_success
      → p.any_problem ≡ any given is_problem
      → (conclude id self now (ran_all p, db)).0 ≡ some status
      → (status ≡ canceled) ⊎ (status ≡ verdict given)
  unfolding conclude finish
  conclude_ran p given db status s q h = elim (Bool-cases (cancel_requested id db.scans)) [
    | inl stop ↦ inl (ground arith)
    | inr go ↦ inr (ground arith)
  ]

  conclude-verdict :
      (l : LoopEnd) (db : Database) (given : List ModuleAnswer) (status : ScanStatus)
      → ((p : Progress)
          → l ≡ ran_all p
          → (p.any_success ≡ any given is_success) × (p.any_problem ≡ any given is_problem))
      → (conclude id self now (l, db)).0 ≡ some status
      → (status ≡ canceled) ⊎ (status ≡ verdict given)
  unfolding conclude
  conclude-verdict (ran_all p) db given status t h =
      let (s, q) = t p refl in conclude_ran p given db status s q h
  conclude-verdict was_canceled db given status t h =
      inl (conclude-canceled was_canceled db status refl h)
  conclude-verdict escapes db given status t h = cc

module _ (registry : ModuleRegistry) (episodes : ℕ → Episode) (self : ScanRunner) (now : ℕ) where
  -- When the execution of a validated scan returns, every selected module is registered, and the
  -- status is either canceled or what the answers of the modules that apply to the target call for:
  -- failed if none of them is a result, completed if there is one and all are results without
  -- warnings, and completed with warnings in every other case.
  pub run_validated-verdict :
      (scan : ScanRow) (db : Database) (status : ScanStatus)
      → (run_validated registry episodes self now scan db).0 ≡ some status
      → (ms : List ModuleMetadata) × (ordered registry scan.selected_modules ≡ returns ms)
        × ((status ≡ canceled) ⊎ (status ≡ verdict (answers scan.target_type episodes 0 ms)))
  unfolding run_validated
  run_validated-verdict scan db status h =
      elim (Outcome-cases (ordered registry scan.selected_modules)) [
        | inr (x, e) ↦ ground arith
        | inl (ms, e) ↦
            let start : Progress = record {
              any_success = false;
              any_problem = false;
              produced = [];
            } in
            let r = run_modules scan.id scan.target_type episodes 0 ms start db in
            (
              ms,
              e,
              conclude-verdict scan.id self now r.0 r.1 (answers scan.target_type episodes 0 ms)
                  status
                  (λ p f. run_modules-Total scan.id scan.target_type episodes 0 ms start p db f)
                  (ground arith),
            )
      ]
