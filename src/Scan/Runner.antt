-- ===== src/Scan/Runner.antt =====
-- The worker of backend/app/scan/runner.py: its lock, the recovery after a crash and the claim of a
-- scan. `now` is what `datetime.now(UTC)` gives, in milliseconds.
pub mod Lock
pub mod Recovery
pub mod Claim
use scan_ledger.Prelude.{
  ℕ, ◌+◌, ◌*◌, Bool, true, false, not, ◌&&◌, Option, none, some, List, [], ◌∷◌, String, string_eq,
  nat_eq, ◌==◌, ltb, leb, select, count_if, if◌then◌else◌, Outcome, returns, raises,
}
use scan_ledger.Models.Domain.{ScanStatus, queued, running, ModuleStatus, interrupted}
use scan_ledger.Db.{ScanRow, ModuleRunRow, WorkerLockRow, Database, update_where}

-- `LOCK_STALE_AFTER_SECONDS`
abbrev pub lock_stale_after : ℕ
lock_stale_after = 30 * 1000

-- What a runner is made with, and the process it stands in.
pub record ScanRunner : Type 0 where
  pub owner_id : String
  pub pid : ℕ
  pub hostname : String
  pub retention_days : ℕ

pub data WorkerAlreadyRunningError : Type 0 where
  already_running : ℕ → String → WorkerAlreadyRunningError

abbrev pub lock_row : ScanRunner → ℕ → WorkerLockRow
lock_row self now = record {
  owner_id = self.owner_id;
  pid = self.pid;
  hostname = self.hostname;
  acquired_at = now;
  heartbeat_at = now;
}

-- `heartbeat > stale_before and existing.owner_id != self._owner_id`
abbrev pub is_taken : ScanRunner → ℕ → WorkerLockRow → Bool
is_taken self now existing =
    ltb now (existing.heartbeat_at + lock_stale_after) && not (existing.owner_id == self.owner_id)

unfoldable pub acquire_worker_lock :
    ScanRunner → ℕ → Database → Outcome WorkerAlreadyRunningError Database
acquire_worker_lock self now db = elim db.worker_lock [
  | none ↦ returns (record db { worker_lock = some (lock_row self now) })
  | some existing ↦
      if is_taken self now existing
      then raises (already_running existing.pid existing.hostname)
      else returns (record db { worker_lock = some (lock_row self now) })
]

unfoldable pub release_worker_lock : ScanRunner → Database → Database
release_worker_lock self db = elim db.worker_lock [
  | none ↦ db
  | some existing ↦
      if existing.owner_id == self.owner_id then record db { worker_lock = none } else db
]

-- `_beat`
unfoldable pub beat : ScanRunner → ℕ → Database → Database
beat self now db = elim db.worker_lock [
  | none ↦ db
  | some existing ↦
      if existing.owner_id == self.owner_id
      then record db { worker_lock = some (record existing { heartbeat_at = now }) }
      else db
]

abbrev pub is_running : ModuleStatus → Bool
is_running ModuleStatus.running = true
is_running _ = false

abbrev pub scan_is_running : ScanStatus → Bool
scan_is_running ScanStatus.running = true
scan_is_running _ = false

abbrev pub scan_is_queued : ScanStatus → Bool
scan_is_queued ScanStatus.queued = true
scan_is_queued _ = false

abbrev pub interrupt_run : ℕ → ModuleRunRow → ModuleRunRow
interrupt_run now r = record r {
  status = interrupted;
  safe_error_message = some "the worker stopped before this module finished";
  finished_at = some now;
}

-- `recover_interrupted`: the number of interrupted runs, and the database.
unfoldable pub recover_interrupted : ℕ → Database → ℕ × Database
recover_interrupted now db = (
  count_if db.runs (λ r. is_running r.status),
  record db {
    runs = update_where (λ r. is_running r.status) (interrupt_run now) db.runs;
    scans =
        update_where (λ s. scan_is_running s.status)
          (λ s. record s { status = ScanStatus.queued; claimed_by = none }) db.scans;
  },
)

-- The earlier created of two scans; of two created at once the first in the table.
abbrev earlier : ScanRow → Option ScanRow → ScanRow
earlier s none = s
earlier s (some t) = if leb s.created_at t.created_at then s else t

-- `select(ScanRow.id).where(status == QUEUED).order_by(created_at).limit(1)`
unfoldable pub oldest_queued : List ScanRow → Option ScanRow
oldest_queued [] = none
oldest_queued (s ∷ scans) =
    let rest = oldest_queued scans in
    if scan_is_queued s.status then some (earlier s rest) else rest

-- `ScanRow.id == candidate, ScanRow.status == QUEUED`
abbrev pub claimable : String → ScanRow → Bool
claimable candidate s = s.id == candidate && scan_is_queued s.status

abbrev pub claimed_row : ScanRunner → ℕ → ScanRow → ScanRow
claimed_row self now s = record s {
  status = ScanStatus.running;
  claimed_by = some self.owner_id;
  started_at = some now;
}

-- The conditional UPDATE of `claim_next_scan` and the test of its row count.
unfoldable pub claim : ScanRunner → ℕ → String → Database → Option String × Database
claim self now candidate db = (
  if count_if db.scans (claimable candidate) == 1 then some candidate else none,
  record db { scans = update_where (claimable candidate) (claimed_row self now) db.scans },
)

unfoldable pub claim_next_scan : ScanRunner → ℕ → Database → Option String × Database
unfolding claim
claim_next_scan self now db = elim (oldest_queued db.scans) [
  | none ↦ (none, db)
  | some s ↦ claim self now s.id db
]
