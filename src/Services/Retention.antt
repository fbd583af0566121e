-- ===== src/Services/Retention.antt =====
-- backend/app/services/retention.py. Deleting a scan deletes the rows that refer to it, as the foreign
-- keys of backend/app/db/tables.py say (`ondelete="CASCADE"`).
pub mod Sweep
use scan_ledger.Prelude.{
  ℕ, ◌+◌, ◌*◌, ◌≡◌, Bool, true, false, not, ◌&&◌, Option, none, some, List, [], ◌∷◌, String,
  string_eq, ◌==◌, ltb, leb, any, map, select, count_if, length, if◌then◌else◌,
}
use scan_ledger.Models.Domain.{ScanStatus, completed, completed_with_warnings, failed, canceled}
use scan_ledger.Db.{
  ScanRow, ModuleRunRow, FindingRow, ScanEventRow, ScanLedgerRow, CacheEntryRow, Database,
  delete_where, delete_scans,
}

abbrev pub default_retention_days : ℕ
default_retention_days = 90

abbrev pub day : ℕ
day = 24 * 60 * 60 * 1000

pub record RetentionSummary : Type 0 where
  pub scans_deleted : ℕ
  pub cache_entries_deleted : ℕ

-- The statuses that the query lists.
abbrev pub listed_status : ScanStatus → Bool
listed_status completed = true
listed_status completed_with_warnings = true
listed_status failed = true
listed_status canceled = true
listed_status _ = false

-- `sweep_expired_cache`: the database and the number of rows deleted.
unfoldable pub sweep_expired_cache : ℕ → Database → ℕ × Database
sweep_expired_cache moment db =
    let expired = λ (r : CacheEntryRow). leb r.expires_at moment in
    (count_if db.cache expired, record db { cache = delete_where expired db.cache })

-- `created_at < moment - retention_days` and a listed status
unfoldable pub is_old : ℕ → ℕ → ScanRow → Bool
is_old retention_days moment r =
    ltb (r.created_at + retention_days * day) moment && listed_status r.status

unfoldable pub sweep_old_scans : ℕ → ℕ → Database → ℕ × Database
unfolding is_old
sweep_old_scans retention_days moment db =
    let expired_ids =
      map (λ (r : ScanRow). r.id) (select db.scans (is_old retention_days moment)) in
    let gone = λ (id : String). any expired_ids (λ j. id == j) in
    (length expired_ids, delete_scans gone db)

unfoldable pub run_retention : ℕ → ℕ → Database → RetentionSummary × Database
unfolding sweep_old_scans sweep_expired_cache
run_retention retention_days now db =
    let (scans, db1) = sweep_old_scans retention_days now db in
    let (cache, db2) = sweep_expired_cache now db1 in
    (record { scans_deleted = scans; cache_entries_deleted = cache }, db2)
