-- ===== src/Services/Reports.antt =====
-- backend/app/services/reports.py: the parts of the Markdown export. The columns that the rows of Db leave out, and the
-- texts of the times, destinations and reasons, are arguments.
pub mod Markdown
pub mod Complete
pub mod Export
use scan_ledger.Prelude.{
  ℕ, ◌-◌, Bool, true, false, not, ◌&&◌, Option, none, some, List, [], ◌∷◌, ◌++◌, String, string_eq,
  ◌==◌, ltb, length, map, select, count_if, if◌then◌else◌, Dict, get,
}
use scan_ledger.Text.{some_text}
use scan_ledger.Text.Join.{join, f_string}
use scan_ledger.Text.Decimal.{str_of}
use scan_ledger.Models.Domain.{
  FindingCategory, live_host, port_service, enumeration, vulnerability, category_text, ModuleStatus,
  module_status_text, scan_status_text, target_type_text,
}
use scan_ledger.Models.Findings.{port_text}
use scan_ledger.Guard.Ranges.{Reason}
use scan_ledger.Guard.Ledger.{Destination, is_allowed, is_denied}
use scan_ledger.Db.{ScanRow, ScopeProfileRow, ModuleRunRow, FindingRow, ScanLedgerRow}
use scan_ledger.Scan.Concurrency.{concat}
use scan_ledger.Modules.Ports.{or_else}
use scan_ledger.Modules.Sweep.{append_at}

abbrev pub summary_rows_per_category : ℕ
summary_rows_per_category = 20

abbrev pub category_title : FindingCategory → String
category_title live_host = "Live hosts"
category_title port_service = "Ports and services"
category_title enumeration = "Enumeration"
category_title vulnerability = "Vulnerabilities"

-- `for category in FindingCategory`
abbrev pub categories : List FindingCategory
categories = live_host ∷ port_service ∷ enumeration ∷ vulnerability ∷ []

-- `rows[:n]`
unfoldable pub first_rows : {A : Type 0} → ℕ → List A → List A
first_rows n [] = []
first_rows n (r ∷ rows) = let rest = first_rows (n - 1) rows in if ltb 0 n then r ∷ rest else []

-- What the report prints of the columns that are modelled elsewhere.
pub record Texts : Type 0 where
  -- `_iso` of a time
  pub iso : ℕ → String
  pub attestation_text : ScanRow → String
  pub observed_at : FindingRow → ℕ
  pub destination : Destination → String
  pub reason : Reason → String

-- The modules that did not complete.
abbrev pub is_incomplete : ModuleRunRow → Bool
is_incomplete run = not (module_status_text run.status == "done")

unfoldable pub incomplete_modules : List ModuleRunRow → List String
incomplete_modules runs = map (λ (r : ModuleRunRow). r.module_name) (select runs is_incomplete)

unfoldable pub module_line : ModuleRunRow → String
unfolding f_string str_of
module_line run = f_string (
    "| "
    ∷ run.module_name
    ∷ " | "
    ∷ module_status_text run.status
    ∷ " | "
    ∷ str_of run.finding_count
    ∷ " | "
    ∷ or_else run.safe_error_message ""
    ∷ " |"
    ∷ [])

-- The lines on the modules that did not complete, if there are any.
abbrev pub incomplete_note : List String → List String
incomplete_note [] = []
incomplete_note (name ∷ names) =
    ""
    ∷ f_string (
        "**"
        ∷ str_of (length (name ∷ names))
        ∷ " module(s) did not complete:** "
        ∷ join ", " (name ∷ names)
        ∷ ". "
        ∷ "Their categories below are incomplete, not empty."
        ∷ [])
    ∷ []

unfoldable pub module_lines : List ModuleRunRow → List String
unfolding module_line incomplete_modules f_string str_of join
module_lines runs =
    "## Module status"
      ∷ ""
      ∷ "| Module | Status | Findings | Reason |"
      ∷ "| --- | --- | --- | --- |"
      ∷ map module_line runs
    ++ incomplete_note (incomplete_modules runs)

-- The loop that fills `by_category`.
unfoldable pub group_findings :
    Dict String (List FindingRow) → List FindingRow → Dict String (List FindingRow)
group_findings d [] = d
group_findings d (f ∷ findings) = group_findings (append_at d (category_text f.category) f) findings

-- `by_category.get(str(category), [])`
abbrev pub rows_of : Dict String (List FindingRow) → FindingCategory → List FindingRow
rows_of by_category category = or_else (get by_category (category_text category)) []

-- The line on the rows that a summary omits.
unfoldable pub omitted_note : ℕ → String
unfolding f_string str_of
omitted_note n = f_string (
    "_"
    ∷ str_of n
    ∷ " further row(s) omitted from this summary; "
    ∷ "the JSON export carries the complete record._"
    ∷ [])

abbrev pub shown_rows : Bool → List FindingRow → List FindingRow
shown_rows full rows = if full then rows else first_rows summary_rows_per_category rows

abbrev pub row_allowed : ScanLedgerRow → Bool
row_allowed row = is_allowed row.entry

abbrev pub row_denied : ScanLedgerRow → Bool
row_denied row = is_denied row.entry

abbrev pub omitted_lines : Bool → List FindingRow → List FindingRow → List String
omitted_lines full rows shown =
    if not full && ltb (length shown) (length rows)
    then "" ∷ omitted_note (length rows - length shown) ∷ []
    else []

module _ (texts : Texts) where
  unfoldable pub finding_line : FindingRow → String
  unfolding f_string str_of
  finding_line f = f_string (
      "| "
      ∷ f.host
      ∷ " | "
      ∷ port_text f.port
      ∷ " | "
      ∷ f.title
      ∷ " | "
      ∷ f.module_name
      ∷ " | "
      ∷ texts.iso (texts.observed_at f)
      ∷ " |"
      ∷ [])

  -- The rows of one category, or that there are none.
  unfoldable pub category_rows : Bool → List FindingRow → List String
  unfolding finding_line first_rows omitted_note
  category_rows full [] = "No findings in this category." ∷ "" ∷ []
  category_rows full (f ∷ rows) =
      let shown = shown_rows full (f ∷ rows) in
      "| Host | Port | Finding | Module | Observed |"
        ∷ "| --- | --- | --- | --- | --- |"
        ∷ map finding_line shown
      ++ omitted_lines full (f ∷ rows) shown
      ++ "" ∷ []

  -- One round of the loop over the categories.
  unfoldable pub category_section :
      Bool → Dict String (List FindingRow) → FindingCategory → List String
  unfolding category_rows
  category_section full by_category category =
      f_string ("### " ∷ category_title category ∷ [])
      ∷ ""
      ∷ category_rows full (rows_of by_category category)

  unfoldable pub findings_lines : Bool → List FindingRow → List String
  unfolding group_findings category_section
  findings_lines full findings =
      ""
      ∷ "## Findings"
      ∷ ""
      ∷ concat (map (category_section full (group_findings [] findings)) categories)

  unfoldable pub denied_line : ScanLedgerRow → String
  unfolding f_string
  denied_line row = f_string (
      "| "
      ∷ texts.destination row.entry.destination
      ∷ " | "
      ∷ texts.reason row.entry.reason
      ∷ " |"
      ∷ [])

  -- The table of the destinations that were denied.
  unfoldable pub denied_lines : List ScanLedgerRow → List String
  unfolding denied_line
  denied_lines ledger =
      if ltb 0 (count_if ledger row_denied)
      then "| Destination | Reason |" ∷ "| --- | --- |" ∷ map denied_line (select ledger row_denied)
        ++ "" ∷ []
      else []

  unfoldable pub ledger_lines : List ScanLedgerRow → List String
  unfolding denied_lines f_string str_of
  ledger_lines ledger =
      "## Audit ledger"
      ∷ ""
      ∷ f_string (
          "- Destinations allowed and probed: **"
          ∷ str_of (count_if ledger row_allowed)
          ∷ "**"
          ∷ [])
      ∷ f_string (
          "- Destinations denied before any packet: **"
          ∷ str_of (count_if ledger row_denied)
          ∷ "**"
          ∷ [])
      ∷ ""
      ∷ denied_lines ledger
