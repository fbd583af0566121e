-- ===== src/Services/Reports/Markdown.antt =====
-- `build_markdown_export` of backend/app/services/reports.py: the whole document.
use scan_ledger.Prelude.{ℕ, Option, none, some, List, [], ◌∷◌, ◌++◌, String, string_eq, ◌==◌}
use scan_ledger.Text.{some_text}
use scan_ledger.Text.Join.{join, f_string}
use scan_ledger.Models.Domain.{scan_status_text, target_type_text}
use scan_ledger.Db.{ScanRow, ScopeProfileRow, ModuleRunRow, FindingRow, ScanLedgerRow}
use scan_ledger.Services.Reports.{Texts, module_lines, findings_lines, ledger_lines}

module _ (texts : Texts) where
  abbrev pub note_line : Option String → List String
  note_line note = elim (some_text note) [
    | none ↦ []
    | some n ↦ f_string ("- **Engagement note:** " ∷ n ∷ []) ∷ []
  ]

  abbrev pub finished_text : Option ℕ → String
  finished_text none = "not finished"
  finished_text (some t) = texts.iso t

  -- The lines before the module table.
  unfoldable pub scan_lines : ScanRow → ScopeProfileRow → List String
  unfolding f_string join some_text
  scan_lines scan scope =
      f_string ("# ScanLedger report - " ∷ texts.destination scan.target_normalized ∷ [])
        ∷ ""
        ∷ "> Authorized lab scan. Every destination below was inside the attested private scope profile; ScanLedger refuses any public or out-of-scope address."
        ∷ ""
        ∷ "## Scan"
        ∷ ""
        ∷ f_string ("- **Status:** " ∷ scan_status_text scan.status ∷ [])
        ∷ f_string (
            "- **Target:** `"
            ∷ scan.target_input
            ∷ "` (normalized `"
            ∷ texts.destination scan.target_normalized
            ∷ "`, "
            ∷ "type "
            ∷ target_type_text scan.target_type
            ∷ ")"
            ∷ [])
        ∷ f_string ("- **Scope profile:** " ∷ scope.name ∷ " - " ∷ join ", " scope.entries ∷ [])
        ∷ f_string ("- **Intensity profile:** " ∷ scan.intensity_profile ∷ [])
        ∷ f_string ("- **Created:** " ∷ texts.iso scan.created_at ∷ [])
        ∷ f_string ("- **Finished:** " ∷ finished_text scan.finished_at ∷ [])
        ∷ note_line scan.note
      ++ ""
        ∷ "## Authorization"
        ∷ ""
        ∷ f_string ("> " ∷ texts.attestation_text scan ∷ [])
        ∷ ""
        ∷ f_string (
            "Attested "
            ∷ texts.iso scan.attestation_at
            ∷ " (attestation "
            ∷ scan.attestation_version
            ∷ ")."
            ∷ [])
        ∷ ""
        ∷ "## Methodology and limits"
        ∷ ""
        ∷ "- Unprivileged TCP connect probing only. No raw sockets, no SYN scanning, no exploitation, no credential attacks, and nothing was written to a target."
        ∷ "- Concurrency and connection rate were bounded by the intensity governor."
        ∷ "- A skipped, failed, or interrupted module means *unknown*, never *absent*: it cannot be read as a closed port or as the absence of a finding."
        ∷ ""
        ∷ []

  -- `build_markdown_export`, at the time `now`; the mode is "full" or not.
  unfoldable pub build_markdown_export :
      ScanRow
      → ScopeProfileRow
      → List ModuleRunRow
      → List FindingRow
      → List ScanLedgerRow
      → String
      → ℕ
      → String
  unfolding scan_lines module_lines findings_lines ledger_lines
  build_markdown_export scan scope runs findings ledger mode now = join "\n" (
      scan_lines scan scope
      ++ module_lines runs
      ++ findings_lines texts (mode == "full") findings
      ++ ledger_lines texts ledger
      ++ f_string
          ("_Generated " ∷ texts.iso now ∷ " from stored evidence; no probes were sent._" ∷ [])
        ∷ [])
