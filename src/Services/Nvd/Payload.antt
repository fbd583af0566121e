-- ===== src/Services/Nvd/Payload.antt =====
-- `parse_cve_payload` and `NvdClient` of backend/app/services/providers/nvd.py.
use scan_ledger.Prelude.{
  ℕ, Bool, true, false, not, none, some, List, [], ◌∷◌, String, string_eq, nat_eq, ◌==◌, any,
  length, if◌then◌else◌, Outcome, returns, raises, ◌>>=◌,
}
use scan_ledger.Text.Join.{f_string}
use scan_ledger.Services.Json.{
  Json, json_text, json_array, json_object, JsonList, no_item, item, JsonObject, field, JsonError,
  type_error, get_field, items_at,
}
use scan_ledger.Services.Outbound.{GatewayError}
use scan_ledger.Services.Nvd.{
  CveRecord, NvdResult, unenriched_statuses, is_text, value_at, fields_of, english, truth, or_empty,
  first_metric,
}

-- A query that fails at the gateway, or on an answer that is not of NVD's form.
pub data NvdError : Type 0 where
  of_gateway : GatewayError → NvdError
  of_payload : JsonError → NvdError

abbrev pub lift_payload : {A : Type 0} → Outcome JsonError A → Outcome NvdError A
lift_payload (returns a) = returns a
lift_payload (raises x) = raises (of_payload x)

abbrev pub lift_gateway : {A : Type 0} → Outcome GatewayError A → Outcome NvdError A
lift_gateway (returns a) = returns a
lift_gateway (raises x) = raises (of_gateway x)

abbrev pub empty_note : String
empty_note =
    "NVD returned no CVE with a CPE configuration matching this exact product and version. Under NVD's 2026 risk-based enrichment model most recent CVEs carry no CPE data at all, so this is not evidence that the service is unaffected."

module _ (is_zero : String → Bool) (str_other : Json → String) where
  -- The part of the loop's body after the two tests.
  unfoldable pub record_of : JsonObject → Outcome JsonError CveRecord
  unfolding english first_metric value_at items_at fields_of
  record_of cve = do
    descriptions ← items_at cve "descriptions"
    description ← english descriptions
    metrics ← fields_of (or_empty is_zero str_other (value_at cve "metrics"))
    metric ← first_metric is_zero str_other metrics
    returns (record {
      cve_id = value_at cve "id";
      description = description;
      vuln_status = value_at cve "vulnStatus";
      cvss_score = metric.0;
      cvss_severity = metric.1;
      cvss_version = metric.2;
      has_cpe_configuration = truth is_zero str_other (value_at cve "configurations");
    })

  -- The dictionary under "cve".
  unfoldable pub cve_of : Json → Outcome JsonError JsonObject
  unfolding fields_of value_at
  cve_of value =
      fields_of value >>= λ fields. fields_of (or_empty is_zero str_other (value_at fields "cve"))

  -- The two tests: there is an id, and the record is not rejected.
  abbrev pub is_reported : JsonObject → Bool
  is_reported cve =
      if truth is_zero str_other (value_at cve "id")
      then not (is_text (value_at cve "vulnStatus") "Rejected")
      else false

  -- The loop over the vulnerabilities.
  unfoldable pub parse_items : JsonList → Outcome JsonError (List CveRecord)
  unfolding cve_of record_of value_at
  parse_items no_item = returns []
  parse_items (item value items) =
      let rest = parse_items items in
      cve_of value >>= λ cve.
      if is_reported cve
      then (record_of cve >>= λ r. rest >>= λ records. returns (r ∷ records))
      else rest

  -- `vuln_status or ""` in a set of texts: a list or a dictionary cannot be looked up.
  unfoldable pub is_unenriched : Json → Outcome JsonError Bool
  is_unenriched (json_text s) = returns (any unenriched_statuses (λ t. s == t))
  is_unenriched (json_array (item value items)) = raises type_error
  is_unenriched (json_object (field name value others)) = raises type_error
  is_unenriched _ = returns false

  -- `CveRecord.enrichment_missing`
  unfoldable pub enrichment_missing : CveRecord → Outcome JsonError Bool
  unfolding is_unenriched
  enrichment_missing r = elim r.cvss_score [
    | none ↦ returns true
    | some score ↦ if not r.has_cpe_configuration then returns true else is_unenriched r.vuln_status
  ]

  module _ (int_of : Json → Outcome JsonError ℕ) where
    -- `int(payload.get("totalResults", len(records)))`
    unfoldable pub total_of : JsonObject → List CveRecord → Outcome JsonError ℕ
    unfolding get_field
    total_of payload records = elim (get_field payload "totalResults") [
      | none ↦ returns (length records)
      | some value ↦ int_of value
    ]

    unfoldable pub parse_cve_payload : JsonObject → Outcome JsonError (List CveRecord × ℕ)
    unfolding items_at parse_items total_of
    parse_cve_payload payload = do
      items ← items_at payload "vulnerabilities"
      records ← parse_items items
      total ← total_of payload records
      returns (records, total)

    -- `get_json` gives the payload that the gateway's call with these parameters returns.
    module _ (get_json : List (String × String) → Outcome GatewayError JsonObject)
        (repr : String → String) where
      unfoldable pub by_cpe : String → Outcome NvdError NvdResult
      unfolding parse_cve_payload
      by_cpe cpe_name = do
        payload ← lift_gateway (get_json (("cpeName", cpe_name) ∷ ("resultsPerPage", "50") ∷ []))
        parsed ← lift_payload (parse_cve_payload payload)
        returns (record {
          records = parsed.0;
          total_results = parsed.1;
          query_kind = "cpe";
          notes = if parsed.1 == 0 then empty_note ∷ [] else [];
        })

      abbrev pub keyword_note : String → String
      keyword_note product = f_string (
          "Matched on the product name "
          ∷ repr product
          ∷ " only, not on the detected version, because no curated CPE exists for this product. These are candidates to review, not version-matched results."
          ∷ [])

      unfoldable pub by_keyword : String → Outcome NvdError NvdResult
      unfolding parse_cve_payload
      by_keyword product = do
        payload ←
            lift_gateway (get_json (("keywordSearch", product) ∷ ("resultsPerPage", "50") ∷ []))
        parsed ← lift_payload (parse_cve_payload payload)
        returns (record {
          records = parsed.0;
          total_results = parsed.1;
          query_kind = "keyword";
          notes = keyword_note product ∷ [];
        })
