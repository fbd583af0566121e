-- ===== src/Tests/Reporting.antt =====
-- The theorems about the reports, the lists and the CVE records, at concrete inputs.
use scan_ledger.Prelude.{
  ℕ, ◌+◌, ◌≡◌, refl, true, false, none, some, List, [], ◌∷◌, String, string_eq, Bool, map, select,
  count_if, nat_eq, returns, raises,
}
use scan_ledger.Models.Domain.{port_service}
use scan_ledger.Db.{FindingRow, Database, store_entries, find_scan, find_scope}
use scan_ledger.Guard.Ranges.{outside_scope}
use scan_ledger.Guard.Ledger.{LedgerEntry, denied, rejected, raw_text, is_denied}
use scan_ledger.Guard.ScanGuard.{entry}
use scan_ledger.Services.Reports.{Texts}
use scan_ledger.Services.Reports.Complete.{FindingsReported, findings_lines-FindingsReported}
use scan_ledger.Tests.Lab.{stored, scan_row, scope_row}
use scan_ledger.Prelude.{arith, Outcome}
use scan_ledger.Services.Outbound.{GatewayError}
use scan_ledger.Services.Json.{
  Json, JsonObject, JsonError, json_text, json_number, json_array, json_object, no_item, item,
  field, type_error,
}
use scan_ledger.Services.Nvd.{NvdResult, first_metric}
use scan_ledger.Services.Nvd.Payload.{by_cpe}
use scan_ledger.Services.Nvd.Read.{Answered, by_cpe-Answered}
use scan_ledger.Models.Domain.{ScanStatus}
use scan_ledger.Services.Json.{json_null, no_field}
use scan_ledger.Services.Reports.Export.{Columns}
use scan_ledger.Api.Ledger.{list_ledger, list_refusals}
use scan_ledger.Api.Ledger.Refusals.{stored_entry, refused_row, refusals, refusals_complete}
use scan_ledger.Api.Findings.{ExportInputs, render, load_export_inputs, export_scan}
use scan_ledger.Api.Findings.Complete.{FromScan, export_scan-FromScan}

abbrev texts : Texts
texts = record {
  iso = λ t. "2026-01-01T00:00:00+00:00";
  attestation_text = λ scan. "I am authorized.";
  observed_at = λ f. 0;
  destination = λ d. "10.1.2.3";
  reason = λ r. "outside";
}

abbrev finding_row : FindingRow
finding_row = record {
  scan_id = "s1";
  host = "10.1.2.3";
  port = some 22;
  category = port_service;
  kind = "port.open";
  title = "";
  summary = "";
  module_name = "port_scan";
  confidence = none;
  fingerprint = "";
}

findings_lines-FindingsReported_example : FindingsReported texts false (finding_row ∷ [])
findings_lines-FindingsReported_example =
    findings_lines-FindingsReported texts false (finding_row ∷ [])

abbrev refusal : LedgerEntry
refusal = entry (raw_text "8.8.8.8") none denied outside_scope rejected

refusals_complete_example :
    count_if
      (refusals (λ a b. true) 10 1 0 (store_entries none (some "lab") (refusal ∷ []) stored))
      (λ row. true)
    ≡ count_if (select stored.ledger refused_row) (λ row. true)
      + count_if
          (map (stored_entry none (some "lab")) (select (refusal ∷ []) is_denied))
          (λ row. true)
unfolding list_refusals list_ledger store_entries
refusals_complete_example =
    refusals_complete (λ a b. true) 10 1 none (some "lab") (refusal ∷ []) stored (omega arith)
      (λ row. true)

abbrev with_finding : Database
with_finding = record stored { findings = finding_row ∷ [] }

abbrev columns : Columns
columns = record {
  module_options = λ scan. no_field;
  finding_id = λ f. "f1";
  normalized_value = λ f. json_null;
  raw_evidence = λ f. none;
  sources = λ f. [];
  ledger_module = λ row. "scanguard";
  recorded_at = λ row. 0;
}

abbrev export_inputs : ExportInputs
export_inputs = record {
  scan = scan_row "s1" ScanStatus.queued 10;
  scope = scope_row;
  runs = [];
  findings = finding_row ∷ [];
  ledger = [];
}

export_scan-FromScan_example :
    FromScan
      (λ a b. true)
      texts
      columns
      "s1"
      "md"
      "full"
      5
      with_finding
      (render (λ a b. true) texts columns "md" "full" 5 export_inputs)
unfolding export_scan load_export_inputs find_scan find_scope
export_scan-FromScan_example =
    export_scan-FromScan (λ a b. true) texts columns "s1" "md" "full" 5 with_finding
      (render (λ a b. true) texts columns "md" "full" 5 export_inputs) refl

abbrev cve : String → String → JsonObject → Json
cve id status metrics = json_object (
    field "cve"
      (json_object (
        field "id" (json_text id)
          (field "vulnStatus" (json_text status) (field "metrics" (json_object metrics) no_field))))
      no_field)

abbrev scored : JsonObject
scored =
    field "cvssMetricV31"
      (json_array (
        item
          (json_object (
            field "cvssData" (json_object (field "baseScore" (json_number "7.5") no_field))
              no_field))
          no_item))
      no_field

-- An analyzed CVE and a rejected one.
abbrev payload : JsonObject
payload =
    field "vulnerabilities"
      (json_array (
        item (cve "CVE-2024-1" "Analyzed" scored)
          (item (cve "CVE-2024-2" "Rejected" no_field) no_item)))
      no_field

abbrev never_zero : String → Bool
never_zero number = false

abbrev no_text : Json → String
no_text value = ""

abbrev never_read : Json → Outcome JsonError ℕ
never_read value = raises type_error

abbrev answering : List (String × String) → Outcome GatewayError JsonObject
answering params = returns payload

abbrev one_record : NvdResult
one_record = record {
  records =
      record {
        cve_id = json_text "CVE-2024-1";
        description = json_text "";
        vuln_status = json_text "Analyzed";
        cvss_score = some "7.5";
        cvss_severity = none;
        cvss_version = some "cvssMetricV31";
        has_cpe_configuration = false;
      }
      ∷ [];
  total_results = 1;
  query_kind = "cpe";
  notes = [];
}

by_cpe-Answered_example :
    Answered never_zero no_text never_read answering
      (λ text. text)
      "cpe:2.3:a:openbsd:openssh:9.6:*:*:*:*:*:*:*"
      one_record
unfolding by_cpe first_metric
by_cpe-Answered_example =
    by_cpe-Answered never_zero no_text never_read answering (λ text. text)
      "cpe:2.3:a:openbsd:openssh:9.6:*:*:*:*:*:*:*" one_record refl
