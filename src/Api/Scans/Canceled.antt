-- ===== src/Api/Scans/Canceled.antt =====
-- What a request to cancel does (backend/app/api/scans.py), and what the worker sees of it.
use scan_ledger.Prelude.{
  ◌≡◌, ◌≢◌, refl, arith, true, false, some, List, [], ◌∷◌, String, string_eq, ◌==◌, beq_false,
  beq_sound, returns,
}
use scan_ledger.Models.Domain.{scan_is_terminal}
use scan_ledger.Db.{ScanRow, Database, find_scan, update_where}
use scan_ledger.Scan.Writes.{cancel_requested}
use scan_ledger.Api.Scans.{ScanDetail, cancel, with_cancel, runs_of, get_scan, cancel_scan}

module _ (scan_id : String) where
  abbrev canceled : List ScanRow → List ScanRow
  canceled scans = update_where (λ s. s.id == scan_id) cancel scans

  find_scan-canceled :
      (scans : List ScanRow) (s : ScanRow)
      → find_scan scans scan_id ≡ some s
      → find_scan (canceled scans) scan_id ≡ some (cancel s)
  unfolding find_scan
  find_scan-canceled [] s h = cc
  find_scan-canceled (r ∷ scans) s h = ground (arith, find_scan-canceled scans s)

  find_scan-others :
      (scans : List ScanRow) (j : String)
      → j ≢ scan_id
      → find_scan (canceled scans) j ≡ find_scan scans j
  unfolding find_scan
  find_scan-others [] j h = refl
  find_scan-others (r ∷ scans) j h = ground (
    arith,
    find_scan-others scans j h,
    beq_false j scan_id h,
    beq_sound r.id j,
    beq_sound r.id scan_id,
  )

  cancel_requested-canceled :
      (scans : List ScanRow) (s : ScanRow)
      → find_scan scans scan_id ≡ some s
      → cancel_requested scan_id (canceled scans) ≡ true
  unfolding find_scan cancel_requested
  cancel_requested-canceled [] s h = cc
  cancel_requested-canceled (r ∷ scans) s h = ground (arith, cancel_requested-canceled scans s)

  get_scan_lem :
      (db : Database) (s : ScanRow)
      → find_scan db.scans scan_id ≡ some s
      → (detail : ScanDetail) × (get_scan scan_id db ≡ returns detail) × (detail.scan ≡ s)
  unfolding get_scan
  get_scan_lem db s h = (record { scan = s; module_runs = runs_of scan_id db }, ground arith, refl)

  -- A stored scan that has not ended can be canceled: the answer shows it with the request, the worker
  -- finds the request when it looks, and every other scan is read as before.
  pub cancel_scan_lem :
      (db : Database) (s : ScanRow)
      → find_scan db.scans scan_id ≡ some s
      → scan_is_terminal s.status ≡ false
      → (detail : ScanDetail) × (cancel_scan scan_id db ≡ (returns detail, with_cancel scan_id db))
        × (detail.scan ≡ cancel s)
        × (cancel_requested scan_id (with_cancel scan_id db).scans ≡ true)
        × ((j : String)
            → j ≢ scan_id
            → find_scan (with_cancel scan_id db).scans j ≡ find_scan db.scans j)
  unfolding cancel_scan
  cancel_scan_lem db s h live =
      let (detail, e, same) =
        get_scan_lem (with_cancel scan_id db) (cancel s) (find_scan-canceled db.scans s h) in
      (
        detail,
        ground arith,
        same,
        cancel_requested-canceled db.scans s h,
        λ j other. find_scan-others db.scans j other,
      )
