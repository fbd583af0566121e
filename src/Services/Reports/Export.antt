-- ===== src/Services/Reports/Export.antt =====
-- `build_json_export` of backend/app/services/reports.py.
use scan_ledger.Prelude.{ℕ, Option, none, some, List, [], ◌∷◌, String, map}
use scan_ledger.Text.Decimal.{str_of}
use scan_ledger.Models.Domain.{
  category_text, confidence_text, module_status_text, scan_status_text, target_type_text,
}
use scan_ledger.Guard.Ledger.{
  Decision, allowed, denied, ResultOf, connected, connect_failed, validated, rejected,
}
use scan_ledger.Db.{ScanRow, ScopeProfileRow, ModuleRunRow, FindingRow, ScanLedgerRow}
use scan_ledger.Services.Json.{
  Json, json_null, json_bool, json_number, json_text, json_array, json_object, JsonList, no_item,
  item, JsonObject, no_field, field,
}
use scan_ledger.Services.Reports.{Texts}

-- The columns that only the export reads.
pub record Columns : Type 0 where
  pub module_options : ScanRow → JsonObject
  pub finding_id : FindingRow → String
  pub normalized_value : FindingRow → Json
  pub raw_evidence : FindingRow → Option String
  pub sources : FindingRow → List String
  pub ledger_module : ScanLedgerRow → String
  pub recorded_at : ScanLedgerRow → ℕ

abbrev pub json_items : {A : Type 0} → (A → Json) → List A → JsonList
json_items f [] = no_item
json_items f (a ∷ others) = item (f a) (json_items f others)

abbrev json_or_null : {A : Type 0} → (A → Json) → Option A → Json
json_or_null f none = json_null
json_or_null f (some a) = f a

-- A dictionary with these keys, in their order.
abbrev json_dict : List (String × Json) → Json
json_dict fields = json_object (fields_from fields)
  where
    fields_from : List (String × Json) → JsonObject
    fields_from [] = no_field
    fields_from ((key, value) ∷ others) = field key value (fields_from others)

abbrev pub decision_text : Decision → String
decision_text allowed = "allowed"
decision_text denied = "denied"

abbrev pub outcome_text : ResultOf → String
outcome_text connected = "connected"
outcome_text connect_failed = "connect_failed"
outcome_text validated = "validated"
outcome_text rejected = "rejected"

abbrev json_count : ℕ → Json
json_count n = json_number (str_of n)

abbrev json_texts : List String → Json
json_texts texts = json_array (json_items json_text texts)

module _ (texts : Texts) (columns : Columns) where
  abbrev json_time : Option ℕ → Json
  json_time t = json_or_null (λ moment. json_text (texts.iso moment)) t

  unfoldable pub export_scan_row : ScanRow → Json
  unfolding str_of
  export_scan_row scan = json_dict (
      ("id", json_text scan.id)
      ∷ ("status", json_text (scan_status_text scan.status))
      ∷ ("target_input", json_text scan.target_input)
      ∷ ("target_normalized", json_text (texts.destination scan.target_normalized))
      ∷ ("target_type", json_text (target_type_text scan.target_type))
      ∷ ("resolved_addresses", json_texts (map texts.destination scan.resolved_addresses))
      ∷ ("intensity_profile", json_text scan.intensity_profile)
      ∷ ("module_options", json_object (columns.module_options scan))
      ∷ ("note", json_or_null json_text scan.note)
      ∷ ("created_at", json_time (some scan.created_at))
      ∷ ("started_at", json_time scan.started_at)
      ∷ ("finished_at", json_time scan.finished_at)
      ∷ [])

  unfoldable pub export_scope : ScopeProfileRow → Json
  export_scope scope = json_dict (
      ("id", json_text scope.id)
      ∷ ("name", json_text scope.name)
      ∷ ("entries", json_texts scope.entries)
      ∷ ("allow_cgnat", json_bool scope.allow_cgnat)
      ∷ ("allow_link_local", json_bool scope.allow_link_local)
      ∷ [])

  unfoldable pub export_authorization : ScanRow → Json
  export_authorization scan = json_dict (
      ("attestation_text", json_text (texts.attestation_text scan))
      ∷ ("attestation_version", json_text scan.attestation_version)
      ∷ ("attested_at", json_time (some scan.attestation_at))
      ∷ [])

  unfoldable pub export_run : ModuleRunRow → Json
  unfolding str_of
  export_run run = json_dict (
      ("module", json_text run.module_name)
      ∷ ("status", json_text (module_status_text run.status))
      ∷ ("finding_count", json_count run.finding_count)
      ∷ ("cache_hit", json_bool run.cache_hit)
      ∷ ("error_code", json_or_null json_text run.safe_error_code)
      ∷ ("error_message", json_or_null json_text run.safe_error_message)
      ∷ ("started_at", json_time run.started_at)
      ∷ ("finished_at", json_time run.finished_at)
      ∷ [])

  unfoldable pub export_finding : FindingRow → Json
  unfolding str_of
  export_finding f = json_dict (
      ("id", json_text (columns.finding_id f))
      ∷ ("host", json_text f.host)
      ∷ ("port", json_or_null json_count f.port)
      ∷ ("category", json_text (category_text f.category))
      ∷ ("kind", json_text f.kind)
      ∷ ("title", json_text f.title)
      ∷ ("summary", json_text f.summary)
      ∷ ("normalized_value", columns.normalized_value f)
      ∷ ("raw_evidence", json_or_null json_text (columns.raw_evidence f))
      ∷ ("module", json_text f.module_name)
      ∷ ("observed_at", json_time (some (texts.observed_at f)))
      ∷ ("confidence", json_or_null (λ c. json_text (confidence_text c)) f.confidence)
      ∷ ("sources", json_texts (columns.sources f))
      ∷ ("fingerprint", json_text f.fingerprint)
      ∷ [])

  unfoldable pub export_entry : ScanLedgerRow → Json
  unfolding str_of
  export_entry row = json_dict (
      ("destination", json_text (texts.destination row.entry.destination))
      ∷ ("port", json_or_null json_count row.entry.port)
      ∷ ("module", json_text (columns.ledger_module row))
      ∷ ("decision", json_text (decision_text row.entry.decision))
      ∷ ("reason", json_text (texts.reason row.entry.reason))
      ∷ ("outcome", json_text (outcome_text row.entry.outcome))
      ∷ ("recorded_at", json_time (some (columns.recorded_at row)))
      ∷ [])

  -- `build_json_export`, at the time `now`
  unfoldable pub build_json_export :
      ScanRow
      → ScopeProfileRow
      → List ModuleRunRow
      → List FindingRow
      → List ScanLedgerRow
      → ℕ
      → Json
  unfolding export_scan_row export_scope export_authorization export_run export_finding export_entry
  build_json_export scan scope runs findings ledger now = json_dict (
      ("schema_version", json_number "1")
      ∷ ("generated_at", json_time (some now))
      ∷ ("scan", export_scan_row scan)
      ∷ ("scope", export_scope scope)
      ∷ ("authorization", export_authorization scan)
      ∷ ("modules", json_array (json_items export_run runs))
      ∷ ("findings", json_array (json_items export_finding findings))
      ∷ ("ledger", json_array (json_items export_entry ledger))
      ∷ [])
