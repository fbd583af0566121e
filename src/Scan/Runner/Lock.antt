-- ===== src/Scan/Runner/Lock.antt =====
-- One worker at a time: the lock of backend/app/scan/runner.py while its owner beats.
use scan_ledger.Prelude.{
  ℕ, ◌+◌, ◌<◌, ◌≡◌, ◌≢◌, refl, some, List, [], ◌∷◌, arith, string_eq, All, Outcome, returns, raises,
  beq_false, ◌∙◌, ap,
}
use scan_ledger.Db.{WorkerLockRow, Database}
use scan_ledger.Scan.Runner.{
  ScanRunner, lock_stale_after, WorkerAlreadyRunningError, acquire_worker_lock, release_worker_lock,
  beat, lock_row, already_running,
}

-- One call at the lock, by a runner and at a time.
pub data LockCall : Type 0 where
  acquires releases beats : ScanRunner → ℕ → LockCall

abbrev pub caller : LockCall → ScanRunner
caller (acquires r now) = r
caller (releases r now) = r
caller (beats r now) = r

abbrev pub time : LockCall → ℕ
time (acquires r now) = now
time (releases r now) = now
time (beats r now) = now

abbrev kept_if_raised : Database → Outcome WorkerAlreadyRunningError Database → Database
kept_if_raised db (returns db') = db'
kept_if_raised db (raises x) = db

unfoldable pub lock_call : LockCall → Database → Database
unfolding acquire_worker_lock release_worker_lock beat
lock_call (acquires r now) db = kept_if_raised db (acquire_worker_lock r now db)
lock_call (releases r now) db = release_worker_lock r db
lock_call (beats r now) db = beat r now db

unfoldable pub lock_calls : List LockCall → Database → Database
unfolding lock_call
lock_calls [] db = db
lock_calls (c ∷ cs) db = lock_calls cs (lock_call c db)

-- A call of another runner, made before the heartbeat is stale.
abbrev pub Foreign : WorkerLockRow → LockCall → Type 0
Foreign row c =
    (row.owner_id ≢ (caller c).owner_id) × (time c < row.heartbeat_at + lock_stale_after)

Foreign-call :
    (c : LockCall) (db : Database) (row : WorkerLockRow)
    → db.worker_lock ≡ some row
    → Foreign row c
    → lock_call c db ≡ db
unfolding lock_call
Foreign-call (acquires r now) db row h f =
    rw h (ground (arith, beq_false row.owner_id r.owner_id f.0))
Foreign-call (releases r now) db row h f = rw h (rw (beq_false row.owner_id r.owner_id f.0))
Foreign-call (beats r now) db row h f = rw h (rw (beq_false row.owner_id r.owner_id f.0))

-- While the heartbeat of the worker that holds the lock is fresh, no sequence of calls by other
-- runners, to acquire, to release or to beat, changes anything in the database.
pub lock_calls-Foreign :
    (cs : List LockCall) (db : Database) (row : WorkerLockRow)
    → db.worker_lock ≡ some row
    → All (Foreign row) cs
    → lock_calls cs db ≡ db
unfolding lock_calls
lock_calls-Foreign [] db row h a = refl
lock_calls-Foreign (c ∷ cs) db row h a =
    ap (lock_calls cs) (Foreign-call c db row h a.0) ∙ lock_calls-Foreign cs db row h a.1

acquired_row :
    (a : ScanRunner) (t : ℕ) (db db1 : Database)
    → acquire_worker_lock a t db ≡ returns db1
    → db1.worker_lock ≡ some (lock_row a t)
unfolding acquire_worker_lock
acquired_row a t db db1 h = ground arith

-- A runner that acquired the lock at time `t` excludes every other one for the next thirty seconds:
-- whatever calls other runners make meanwhile, an attempt to acquire it before `t` plus the limit is
-- refused, with the process and the host of the owner.
pub second_worker_refused :
    (a b : ScanRunner) (t now : ℕ) (db db1 : Database) (cs : List LockCall)
    → acquire_worker_lock a t db ≡ returns db1
    → All (Foreign (lock_row a t)) cs
    → a.owner_id ≢ b.owner_id
    → now < t + lock_stale_after
    → acquire_worker_lock b now (lock_calls cs db1) ≡ raises (already_running a.pid a.hostname)
unfolding acquire_worker_lock
second_worker_refused a b t now db db1 cs h f d late =
    rw (lock_calls-Foreign cs db1 (lock_row a t) (acquired_row a t db db1 h) f)
      (rw (acquired_row a t db db1 h) (ground (arith, beq_false a.owner_id b.owner_id d)))
