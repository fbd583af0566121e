-- ===== src/Api/Findings.antt =====
-- backend/app/api/findings.py. A row read is the answer's body.
pub mod Complete
pub mod Rendered
use scan_ledger.Prelude.{
  ℕ, Bool, true, false, not, ◌&&◌, ◌||◌, Option, none, some, List, String, string_eq, nat_eq, ◌==◌,
  leb, select, length, if◌then◌else◌, Outcome, returns, raises, ◌>>=◌,
}
use scan_ledger.Models.Domain.{category_text}
use scan_ledger.Db.{
  ScanRow, ScopeProfileRow, ModuleRunRow, FindingRow, ScanLedgerRow, Database, find_scan,
  find_scope,
}
use scan_ledger.Services.Json.{Json}
use scan_ledger.Services.Reports.{Texts}
use scan_ledger.Services.Reports.Markdown.{build_markdown_export}
use scan_ledger.Services.Reports.Export.{Columns, build_json_export}
use scan_ledger.Api.Paging.{page, order_by}
use scan_ledger.Api.Scans.{
  ApiError, scan_not_found, unknown_format, unknown_mode, scope_gone, text_leb, runs_of,
}
use scan_ledger.Api.Ledger.{asked_text}

pub record FindingList : Type 0 where
  pub items : List FindingRow
  pub total : ℕ
  pub limit : ℕ
  pub offset : ℕ

-- The filters on category, module and host, each if it is given.
pub record Filters : Type 0 where
  pub category : Option String
  pub module_name : Option String
  pub host : Option String

abbrev pub is_of_scan : String → FindingRow → Bool
is_of_scan scan_id f = f.scan_id == scan_id

abbrev pub passes : Filters → FindingRow → Bool
passes filters f =
    asked_text filters.category (category_text f.category)
    && asked_text filters.module_name f.module_name
    && asked_text filters.host f.host

-- NULL comes first, as SQLite orders it.
abbrev pub port_leb : Option ℕ → Option ℕ → Bool
port_leb none q = true
port_leb (some p) none = false
port_leb (some p) (some q) = leb p q

abbrev pub same_port : Option ℕ → Option ℕ → Bool
same_port none none = true
same_port (some p) (some q) = p == q
same_port _ _ = false

-- `order_by(host, port, kind)`
unfoldable pub by_host : FindingRow → FindingRow → Bool
unfolding text_leb
by_host a b =
    if a.host == b.host
    then (if same_port a.port b.port then text_leb a.kind b.kind else port_leb a.port b.port)
    else text_leb a.host b.host

-- `order_by(category, host, port)`
unfoldable pub by_category : FindingRow → FindingRow → Bool
unfolding text_leb
by_category a b =
    if category_text a.category == category_text b.category
    then (if a.host == b.host then port_leb a.port b.port else text_leb a.host b.host)
    else text_leb (category_text a.category) (category_text b.category)

abbrev pub wanted_rows : String → Filters → Database → List FindingRow
wanted_rows scan_id filters db = select db.findings (λ f. is_of_scan scan_id f && passes filters f)

unfoldable pub list_findings : String → Filters → ℕ → ℕ → Database → Outcome ApiError FindingList
unfolding page order_by by_host find_scan
list_findings scan_id filters limit offset db = elim (find_scan db.scans scan_id) [
  | none ↦ raises (scan_not_found scan_id)
  | some scan ↦ returns (record {
    items = page limit offset (order_by by_host (wanted_rows scan_id filters db));
    total = length (wanted_rows scan_id filters db);
    limit = limit;
    offset = offset;
  })
]

abbrev pub ledger_of_scan : String → ScanLedgerRow → Bool
ledger_of_scan scan_id row = elim row.scan_id [ none ↦ false | some id ↦ id == scan_id ]

pub record ExportInputs : Type 0 where
  pub scan : ScanRow
  pub scope : ScopeProfileRow
  pub runs : List ModuleRunRow
  pub findings : List FindingRow
  pub ledger : List ScanLedgerRow

pub data Exported : Type 0 where
  as_json : Json → Exported
  as_markdown : String → Exported

-- `oldest` is the order by time and id, which are not columns of the model.
module _ (oldest : ScanLedgerRow → ScanLedgerRow → Bool) where
  unfoldable pub get_ledger : String → Database → Outcome ApiError (List ScanLedgerRow)
  unfolding order_by find_scan
  get_ledger scan_id db = elim (find_scan db.scans scan_id) [
    | none ↦ raises (scan_not_found scan_id)
    | some scan ↦ returns (order_by oldest (select db.ledger (ledger_of_scan scan_id)))
  ]

  -- `_load_export_inputs`
  unfoldable pub load_export_inputs : String → Database → Outcome ApiError ExportInputs
  unfolding order_by find_scan find_scope runs_of by_category
  load_export_inputs scan_id db = elim (find_scan db.scans scan_id) [
    | none ↦ raises (scan_not_found scan_id)
    | some scan ↦ elim (find_scope db.scopes scan.scope_id) [
      | none ↦ raises scope_gone
      | some scope ↦ returns (record {
        scan = scan;
        scope = scope;
        runs = runs_of scan_id db;
        findings = order_by by_category (select db.findings (is_of_scan scan_id));
        ledger = order_by oldest (select db.ledger (ledger_of_scan scan_id));
      })
    ]
  ]

  -- What the inputs are rendered as.
  abbrev pub render : Texts → Columns → String → String → ℕ → ExportInputs → Exported
  render texts columns format mode now i =
      if format == "json"
      then as_json (build_json_export texts columns i.scan i.scope i.runs i.findings i.ledger now)
      else as_markdown
          (build_markdown_export texts i.scan i.scope i.runs i.findings i.ledger mode now)

  unfoldable pub export_scan :
      Texts → Columns → String → String → String → ℕ → Database → Outcome ApiError Exported
  unfolding load_export_inputs
  export_scan texts columns scan_id format mode now db =
      if not (format == "json" || format == "md")
      then raises (unknown_format format)
      else if not (mode == "summary" || mode == "full")
      then raises (unknown_mode mode)
      else load_export_inputs scan_id db >>= λ inputs.
          returns (render texts columns format mode now inputs)
