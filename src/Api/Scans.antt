-- ===== src/Api/Scans.antt =====
-- backend/app/api/scans.py. A row read is the answer's body; the stream of events is in Scan/Events.
pub mod Listed
pub mod Canceled
use Prim.Native.String.{compare}
use Prim.Native.Nat.{Ordering}
use scan_ledger.Prelude.{
  ℕ, Bool, true, false, Option, none, some, List, String, string_eq, nat_eq, ◌==◌, leb, select,
  length, if◌then◌else◌, Outcome, returns, raises,
}
use scan_ledger.Models.Domain.{ScanStatus, scan_is_terminal, scan_status_text}
use scan_ledger.Db.{ScanRow, ModuleRunRow, Database, find_scan, update_where, delete_scans}
use scan_ledger.Api.Paging.{page, order_by}

pub data ApiError : Type 0 where
  scan_not_found scan_already_terminal : String → ApiError
  -- `TargetInvalidError` for an export format or an export mode
  unknown_format unknown_mode : String → ApiError
  scope_gone : ApiError

pub record ScanDetail : Type 0 where
  pub scan : ScanRow
  pub module_runs : List ModuleRunRow

pub record ScanList : Type 0 where
  pub items : List ScanRow
  pub total : ℕ
  pub limit : ℕ
  pub offset : ℕ

unfoldable pub text_leb : String → String → Bool
text_leb a b = elim (compare a b) [ Ordering.gt ↦ false | _ ↦ true ]

-- `created_at.desc()`; which of two rows of one time stands first is the database's choice, `tie`.
abbrev pub newest_first : (ScanRow → ScanRow → Bool) → ScanRow → ScanRow → Bool
newest_first tie a b =
    if a.created_at == b.created_at then tie a b else leb b.created_at a.created_at

abbrev pub has_status : Option String → ScanRow → Bool
has_status none r = true
has_status (some wanted) r = scan_status_text r.status == wanted

-- `tie` belongs to the one query: the next query may order rows of one time otherwise.
unfoldable pub list_scans : (ScanRow → ScanRow → Bool) → ℕ → ℕ → Option String → Database → ScanList
unfolding page order_by
list_scans tie limit offset scan_status db =
    let rows = select db.scans (has_status scan_status) in
    record {
      items = page limit offset (order_by (newest_first tie) rows);
      total = length rows;
      limit = limit;
      offset = offset;
    }

-- The runs of a scan, by `order_by(ModuleRunRow.module)`.
unfoldable pub runs_of : String → Database → List ModuleRunRow
unfolding order_by text_leb
runs_of scan_id db =
    order_by (λ (a b : ModuleRunRow). text_leb a.module_name b.module_name)
      (select db.runs (λ (r : ModuleRunRow). r.scan_id == scan_id))

unfoldable pub get_scan : String → Database → Outcome ApiError ScanDetail
unfolding find_scan runs_of
get_scan scan_id db = elim (find_scan db.scans scan_id) [
  | none ↦ raises (scan_not_found scan_id)
  | some scan ↦ returns (record { scan = scan; module_runs = runs_of scan_id db })
]

abbrev pub cancel : ScanRow → ScanRow
cancel s = record s { cancel_requested = true }

abbrev pub with_cancel : String → Database → Database
with_cancel scan_id db = record db { scans = update_where (λ s. s.id == scan_id) cancel db.scans }

unfoldable pub cancel_scan : String → Database → Outcome ApiError ScanDetail × Database
unfolding get_scan
cancel_scan scan_id db = elim (find_scan db.scans scan_id) [
  | none ↦ (raises (scan_not_found scan_id), db)
  | some scan ↦
      if scan_is_terminal scan.status
      then (raises (scan_already_terminal scan_id), db)
      else (get_scan scan_id (with_cancel scan_id db), with_cancel scan_id db)
]

unfoldable pub delete_scan : String → Database → Outcome ApiError (Unit {0}) × Database
unfolding find_scan
delete_scan scan_id db = elim (find_scan db.scans scan_id) [
  | none ↦ (raises (scan_not_found scan_id), db)
  | some scan ↦ (returns tt, delete_scans (λ id. id == scan_id) db)
]
