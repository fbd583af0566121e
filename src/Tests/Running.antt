-- ===== src/Tests/Running.antt =====
-- The theorems about the worker, the execution of a scan and the retention at concrete inputs.
use scan_ledger.Prelude.{
  ℕ, ◌+◌, ◌≡◌, ◌≢◌, ◌⊎◌, refl, true, false, not, none, some, List, [], ◌∷◌, arith, String, get,
  count_if, length, select, returns, raises, string_eq, ◌==◌, ap, leb, All,
}
use scan_ledger.Models.Domain.{ScanStatus, completed, canceled, ModuleStatus, TargetType}
use scan_ledger.Db.{ScanRow, Database}
use scan_ledger.Tests.Lab.{scan_row, run_row}
use scan_ledger.Modules.{ModuleMetadata, ModuleRegistry, applies_to, get_module}
use scan_ledger.Scan.Writes.{
  cancel_requested, set_module_running, set_module_status, store_findings, publish_footprint,
  publish_footprints, finish,
}
use scan_ledger.Scan.Runner.{
  ScanRunner, lock_row, already_running, acquire_worker_lock, is_running, scan_is_running,
  scan_is_queued, recover_interrupted, oldest_queued, claim, claim_next_scan,
}
use scan_ledger.Scan.Runner.Lock.{releases, beats, lock_calls, second_worker_refused}
use scan_ledger.Scan.Runner.Recovery.{is_interrupted, is_done, recover_interrupted_lem}
use scan_ledger.Scan.Runner.Claim.{Older, claim_next_scan_oldest}
use scan_ledger.Scan.Execution.{
  answered, Episode, take_answer, meanwhile, run_module, run_modules, conclude, ordered,
  insert_by_order, run_validated,
}
use scan_ledger.Scan.Execution.Verdict.{answers, verdict, run_validated-verdict}
use scan_ledger.Scan.Execution.Runs.{running_runs, open_runs}
use scan_ledger.Scan.Execution.Settled.{run_validated_settled}
use scan_ledger.Services.Cache.{store, get_cached}
use scan_ledger.Services.Cache.Fresh.{get_cached-store}
use scan_ledger.Services.Retention.{run_retention}
use scan_ledger.Services.Retention.Sweep.{outdated, run_retention_exact}

abbrev database : Database
database = record {
  scans =
      scan_row "s2" ScanStatus.queued 20
      ∷ scan_row "s1" ScanStatus.queued 10
      ∷ scan_row "s0" ScanStatus.running 5
      ∷ [];
  runs = run_row "s1" ModuleStatus.queued ∷ run_row "s0" ModuleStatus.running ∷ [];
  findings = [];
  events = [];
  scopes = [];
  ledger = [];
  cache = [];
  worker_lock = none;
}

abbrev worker : String → ℕ → ScanRunner
worker name pid = record { owner_id = name; pid = pid; hostname = "localhost"; retention_days = 90 }

abbrev owner : ScanRunner
owner = worker "a" 1

abbrev rival : ScanRunner
rival = worker "b" 2

owner_acquires :
    acquire_worker_lock owner 1000 database
    ≡ returns (record database { worker_lock = some (lock_row owner 1000) })
unfolding acquire_worker_lock
owner_acquires = refl

two_owners : ◌≢◌ {A = String} "a" "b"
two_owners h = let e : true ≡ false = ap (λ s. "a" == s) h in cc

second_worker_refused_example :
    acquire_worker_lock rival 20000 (
      lock_calls
        (releases rival 2000 ∷ beats rival 3000 ∷ [])
        (record database { worker_lock = some (lock_row owner 1000) }))
    ≡ raises (already_running 1 "localhost")
second_worker_refused_example =
    second_worker_refused owner rival 1000 20000 database
      (record database { worker_lock = some (lock_row owner 1000) })
      (releases rival 2000 ∷ beats rival 3000 ∷ []) owner_acquires
      ((two_owners, omega arith), ((two_owners, omega arith), tt)) two_owners (omega arith)

recover_interrupted_lem_example :
    let (n, db') = recover_interrupted 50 database in
    (n ≡ count_if database.runs (λ r. is_running r.status))
    × (count_if db'.runs (λ r. is_running r.status) ≡ 0)
    × (count_if db'.runs (λ r. is_interrupted r.status)
        ≡ count_if database.runs (λ r. is_interrupted r.status) + n)
    × (count_if db'.runs (λ r. is_done r.status) ≡ count_if database.runs (λ r. is_done r.status))
    × (count_if db'.scans (λ s. scan_is_running s.status) ≡ 0)
    × (count_if db'.scans (λ s. scan_is_queued s.status)
        ≡ count_if database.scans (λ s. scan_is_queued s.status)
          + count_if database.scans (λ s. scan_is_running s.status))
recover_interrupted_lem_example = recover_interrupted_lem 50 database

s1_claimed : (claim_next_scan owner 50 database).0 ≡ some "s1"
unfolding claim_next_scan oldest_queued claim
s1_claimed = refl

claim_next_scan_oldest_example :
    ((s : ScanRow) × (s.id ≡ "s1")
      × (scan_is_queued s.status ≡ true)
      × All (Older s) database.scans)
    × (count_if (claim_next_scan owner 50 database).1.scans (λ s. scan_is_running s.status)
        ≡ count_if database.scans (λ s. scan_is_running s.status) + 1)
claim_next_scan_oldest_example = claim_next_scan_oldest owner 50 "s1" database s1_claimed

abbrev registry : ModuleRegistry
registry =
    (
      "port_scan",
      record {
        name = "port_scan";
        order = 20;
        supported_targets = TargetType.ip ∷ [];
        timeout_text = "late";
      },
    )
    ∷ []

abbrev episode : ℕ → Episode
episode i = record {
  answer = answered (record { findings = []; cache_hit = false; warnings = [] });
  cancels = false;
  streamed = [];
  hosts_touched = 1;
  probes_made = 3;
  began = 60;
  ended = 70;
}

s1_completed :
    (run_validated registry episode owner 80 (scan_row "s1" ScanStatus.running 10) database).0
    ≡ some completed
unfolding run_validated ordered get_module get insert_by_order run_modules run_module take_answer
    meanwhile conclude applies_to cancel_requested finish set_module_running set_module_status
    store_findings publish_footprint publish_footprints
s1_completed = refl

run_validated-verdict_example :
    (ms : List ModuleMetadata) × (ordered registry ("port_scan" ∷ []) ≡ returns ms)
    × ((completed ≡ canceled) ⊎ (completed ≡ verdict (answers TargetType.ip episode 0 ms)))
run_validated-verdict_example =
    run_validated-verdict registry episode owner 80 (scan_row "s1" ScanStatus.running 10) database
      completed s1_completed

run_validated_settled_example :
    (running_runs "s1"
        (run_validated registry episode owner 80
          (scan_row "s1" ScanStatus.running 10)
          database).1.runs
      ≡ 0)
    × (completed ≡ canceled
        → open_runs "s1"
            (run_validated registry episode owner 80
              (scan_row "s1" ScanStatus.running 10)
              database).1.runs
          ≡ 0)
run_validated_settled_example =
    run_validated_settled registry episode owner 80 (scan_row "s1" ScanStatus.running 10) database
      completed refl s1_completed

run_retention_exact_example :
    let (summary, db') = run_retention 90 9000000000 database in
    (db'.scans ≡ select database.scans (λ r. not (outdated 90 9000000000 database r)))
    × (db'.cache ≡ select database.cache (λ r. not (leb r.expires_at 9000000000)))
    × (summary.scans_deleted + length db'.scans ≡ length database.scans)
    × (summary.cache_entries_deleted + length db'.cache ≡ length database.cache)
run_retention_exact_example = run_retention_exact 90 9000000000 database (refl, (refl, (refl, tt)))

get_cached-store_example :
    get_cached (store "k" "nvd" "ok" (some "{}") none none 0 []).1 "k" 1000
    ≡ some
        (record { status = "ok"; normalized = some "{}"; retrieved_at = 0; expires_at = 86400000 })
get_cached-store_example = get_cached-store "k" "nvd" "ok" (some "{}") none none 0 [] "k" 1000
