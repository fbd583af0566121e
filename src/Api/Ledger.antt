-- ===== src/Api/Ledger.antt =====
-- backend/app/api/ledger.py. The time and the id of a row, by which the rows are ordered, are not columns of
-- the model: the order that they give is an argument.
pub mod Refusals
use scan_ledger.Prelude.{
  ℕ, Bool, true, false, ◌&&◌, Option, none, some, List, String, string_eq, ◌==◌, select, length,
}
use scan_ledger.Db.{ScanLedgerRow, Database}
use scan_ledger.Services.Reports.Export.{decision_text}
use scan_ledger.Api.Paging.{page, order_by}

pub record LedgerList : Type 0 where
  pub items : List ScanLedgerRow
  pub total : ℕ
  pub limit : ℕ
  pub offset : ℕ

-- `column == value`, if a value is asked for
abbrev pub asked_text : Option String → String → Bool
asked_text none value = true
asked_text (some wanted) value = value == wanted

-- The same for a column that can be NULL, which equals nothing.
abbrev pub asked_option : Option String → Option String → Bool
asked_option none value = true
asked_option (some wanted) none = false
asked_option (some wanted) (some value) = value == wanted

abbrev pub has_decision : Option String → Option String → ScanLedgerRow → Bool
has_decision decision scope_id row =
    asked_text decision (decision_text row.entry.decision) && asked_option scope_id row.scope_id

module _ (newest : ScanLedgerRow → ScanLedgerRow → Bool) where
  unfoldable pub list_ledger : Option String → Option String → ℕ → ℕ → Database → LedgerList
  unfolding page order_by
  list_ledger decision scope_id limit offset db =
      let rows = select db.ledger (has_decision decision scope_id) in
      record {
        items = page limit offset (order_by newest rows);
        total = length rows;
        limit = limit;
        offset = offset;
      }

  unfoldable pub list_refusals : ℕ → ℕ → Database → LedgerList
  unfolding list_ledger
  list_refusals limit offset db = list_ledger (some "denied") none limit offset db
