-- ===== src/Api/Findings/Rendered.antt =====
-- What a reader finds in an export of backend/app/services/reports.py.
use scan_ledger.Prelude.{ℕ, ◌≡◌, refl, some, List, [], ◌∷◌, ◌++◌, String, string_eq, ◌==◌}
use scan_ledger.Text.Join.{join, f_string}
use scan_ledger.Db.{ScanRow, FindingRow, ScanLedgerRow}
use scan_ledger.Services.Json.{
  Json, json_text, json_array, json_object, JsonList, no_item, item, JsonObject, get_field,
}
use scan_ledger.Services.Reports.{Texts, module_lines, findings_lines, ledger_lines}
use scan_ledger.Services.Reports.Complete.{FindingsReported, findings_lines-FindingsReported}
use scan_ledger.Services.Reports.Export.{
  Columns, json_items, decision_text, outcome_text, build_json_export, export_scan_row,
  export_finding, export_entry,
}
use scan_ledger.Services.Reports.Markdown.{scan_lines, build_markdown_export}
use scan_ledger.Api.Findings.{ExportInputs, Exported, as_json, as_markdown}

-- A finding and an entry of the ledger, as dictionaries of the export.
abbrev pub ShowsFinding : Json → FindingRow → Type 0
ShowsFinding value f =
    (fields : JsonObject) × (value ≡ json_object fields)
    × (get_field fields "host" ≡ some (json_text f.host))
    × (get_field fields "kind" ≡ some (json_text f.kind))
    × (get_field fields "title" ≡ some (json_text f.title))
    × (get_field fields "fingerprint" ≡ some (json_text f.fingerprint))

module _ (texts : Texts) where
  abbrev pub ShowsEntry : Json → ScanLedgerRow → Type 0
  ShowsEntry value row =
      (fields : JsonObject) × (value ≡ json_object fields)
      × (get_field fields "destination"
          ≡ some (json_text (texts.destination row.entry.destination)))
      × (get_field fields "decision" ≡ some (json_text (decision_text row.entry.decision)))
      × (get_field fields "outcome" ≡ some (json_text (outcome_text row.entry.outcome)))

  abbrev pub ShowsFindings : JsonList → List FindingRow → Type 0
  ShowsFindings no_item [] = Unit
  ShowsFindings no_item (f ∷ findings) = ⊥
  ShowsFindings (item value items) [] = ⊥
  ShowsFindings (item value items) (f ∷ findings) =
      ShowsFinding value f × ShowsFindings items findings

  abbrev pub ShowsLedger : JsonList → List ScanLedgerRow → Type 0
  ShowsLedger no_item [] = Unit
  ShowsLedger no_item (row ∷ ledger) = ⊥
  ShowsLedger (item value items) [] = ⊥
  ShowsLedger (item value items) (row ∷ ledger) = ShowsEntry value row × ShowsLedger items ledger

  -- A JSON export: the scan, one dictionary per finding and one per entry of the ledger.
  pub record JsonShows (scan : ScanRow) (findings : List FindingRow) (ledger : List ScanLedgerRow)
      (x : Exported) : Type 0 where
    pub root : JsonObject
    pub is_json : x ≡ as_json (json_object root)
    pub scan_fields : JsonObject
    pub of_scan : get_field root "scan" ≡ some (json_object scan_fields)
    pub scan_id_shown : get_field scan_fields "id" ≡ some (json_text scan.id)
    pub finding_items : JsonList
    pub of_findings : get_field root "findings" ≡ some (json_array finding_items)
    pub each_finding : ShowsFindings finding_items findings
    pub ledger_items : JsonList
    pub of_ledger : get_field root "ledger" ≡ some (json_array ledger_items)
    pub each_entry : ShowsLedger ledger_items ledger

  -- A Markdown export: its lines have the findings part of the report among them.
  pub record MarkdownShows (mode : String) (findings : List FindingRow) (x : Exported)
      : Type 0 where
    pub before : List String
    pub modules : List String
    pub after : List String
    pub last_line : String
    pub is_text :
        x
        ≡ as_markdown (
            join "\n" (
              before
              ++ modules
              ++ findings_lines texts (mode == "full") findings
              ++ after
              ++ last_line ∷ []))
    pub reported : FindingsReported texts (mode == "full") findings

  module _ (columns : Columns) (now : ℕ) where
    pub json-JsonShows :
        (i : ExportInputs)
        → JsonShows i.scan i.findings i.ledger (
            as_json (build_json_export texts columns i.scan i.scope i.runs i.findings i.ledger now))
    unfolding build_json_export export_scan_row export_finding export_entry get_field
    json-JsonShows i = record {
      root = _;
      is_json = refl;
      scan_fields = _;
      of_scan = refl;
      scan_id_shown = refl;
      finding_items = _;
      of_findings = refl;
      each_finding = each i.findings;
      ledger_items = _;
      of_ledger = refl;
      each_entry = each_row i.ledger;
    }
      where
        each :
            (findings : List FindingRow)
            → ShowsFindings (json_items (export_finding texts columns) findings) findings
        each [] = tt
        each (f ∷ findings) = ((_, refl, refl, refl, refl, refl), each findings)

        each_row :
            (ledger : List ScanLedgerRow)
            → ShowsLedger (json_items (export_entry texts columns) ledger) ledger
        each_row [] = tt
        each_row (row ∷ ledger) = ((_, refl, refl, refl, refl), each_row ledger)

    pub markdown-MarkdownShows :
        (mode : String) (i : ExportInputs)
        → MarkdownShows mode i.findings (
            as_markdown
              (build_markdown_export texts i.scan i.scope i.runs i.findings i.ledger mode now))
    unfolding build_markdown_export
    markdown-MarkdownShows mode i = record {
      before = scan_lines texts i.scan i.scope;
      modules = module_lines i.runs;
      after = ledger_lines texts i.ledger;
      last_line =
          f_string
            ("_Generated " ∷ texts.iso now ∷ " from stored evidence; no probes were sent._" ∷ []);
      is_text = refl;
      reported = findings_lines-FindingsReported texts (mode == "full") i.findings;
    }
