-- ===== src/Services/Nvd.antt =====
-- backend/app/services/providers/nvd.py: the CVE records of an answer of NVD. What `int` makes of a value,
-- whether a JSON number is zero, `str` on what is no text, and `repr` are arguments. `json_null` stands for
-- a key that is missing, as `d.get` gives it.
pub mod Payload
pub mod Read
use scan_ledger.Prelude.{
  ℕ, zero, suc, ◌+◌, Bool, true, false, not, ◌||◌, Option, none, some, List, [], ◌∷◌, String,
  string_eq, nat_eq, ◌==◌, any, length, if◌then◌else◌, Outcome, returns, raises, ◌>>=◌,
}
use scan_ledger.Text.Join.{f_string}
use scan_ledger.Services.Json.{
  Json, json_null, json_bool, json_number, json_text, json_array, json_object, JsonList, no_item,
  item, JsonObject, no_field, field, JsonError, attribute_error, type_error, key_error, get_field,
  items_at,
}
use scan_ledger.Services.Outbound.{GatewayError}

abbrev pub metric_keys : List String
metric_keys = "cvssMetricV40" ∷ "cvssMetricV31" ∷ "cvssMetricV30" ∷ "cvssMetricV2" ∷ []

abbrev pub unenriched_statuses : List String
unenriched_statuses = "Awaiting Analysis" ∷ "Received" ∷ "Deferred" ∷ "Undergoing Analysis" ∷ []

-- A number is the text of it, and `True` and `False` are numbers to Python.
pub record CveRecord : Type 0 where
  pub cve_id : Json
  pub description : Json
  pub vuln_status : Json
  pub cvss_score : Option String
  pub cvss_severity : Option String
  pub cvss_version : Option String
  pub has_cpe_configuration : Bool

pub record NvdResult : Type 0 where
  pub records : List CveRecord
  pub total_results : ℕ
  pub query_kind : String
  pub notes : List String

-- `value == text`
abbrev pub is_text : Json → String → Bool
is_text (json_text s) text = s == text
is_text _ text = false

-- `d.get(key)`, with None for a missing key
unfoldable pub value_at : JsonObject → String → Json
unfolding get_field
value_at fields key = elim (get_field fields key) [ none ↦ json_null | some value ↦ value ]

-- What `.get` is called on.
unfoldable pub fields_of : Json → Outcome JsonError JsonObject
fields_of (json_object fields) = returns fields
fields_of _ = raises attribute_error

-- `value[0]`, for a value that counts as true
unfoldable pub first_of : Json → Outcome JsonError Json
first_of (json_array (item value items)) = returns value
first_of (json_object fields) = raises key_error
first_of (json_text s) = returns (json_text s)
first_of _ = raises type_error

-- `d.get(key, default)`
unfoldable pub value_or : JsonObject → String → Json → Json
unfolding get_field
value_or fields key default = elim (get_field fields key) [ none ↦ default | some value ↦ value ]

-- `float(score) if isinstance(score, int | float) else None`
unfoldable pub score_of : Json → Option String
score_of (json_number n) = some n
score_of (json_bool true) = some "1"
score_of (json_bool false) = some "0"
score_of _ = none

-- The loop over the descriptions: the value of the first English one.
unfoldable pub english : JsonList → Outcome JsonError Json
unfolding value_at value_or fields_of
english no_item = returns (json_text "")
english (item entry entries) =
    let rest = english entries in
    fields_of entry >>= λ fields.
    if is_text (value_at fields "lang") "en"
    then returns (value_or fields "value" (json_text ""))
    else rest

abbrev pub Metric : Type 0
Metric = Option String × Option String × Option String

module _ (is_zero : String → Bool) (str_other : Json → String) where
  -- `bool(value)`
  abbrev pub truth : Json → Bool
  truth json_null = false
  truth (json_bool b) = b
  truth (json_number n) = not (is_zero n)
  truth (json_text s) = not (s == "")
  truth (json_array no_item) = false
  truth (json_array (item value items)) = true
  truth (json_object no_field) = false
  truth (json_object (field name value others)) = true

  -- `value or {}`
  abbrev pub or_empty : Json → Json
  or_empty value = if truth value then value else json_object no_field

  -- `a or b`
  abbrev pub or_json : Json → Json → Json
  or_json a b = if truth a then a else b

  -- `str(value) if value else None`
  abbrev pub text_or_none : Json → Option String
  text_or_none (json_text s) = if s == "" then none else some s
  text_or_none value = if truth value then some (str_other value) else none

  -- The metric read off the first entry under a key.
  unfoldable pub metric_of : String → Json → Outcome JsonError Metric
  unfolding first_of fields_of value_or value_at score_of
  metric_of key entries = do
    entry ← first_of entries
    fields ← fields_of entry
    data_fields ← fields_of (value_or fields "cvssData" (json_object no_field))
    returns (
      score_of (value_at data_fields "baseScore"),
      text_or_none (or_json (value_at data_fields "baseSeverity") (value_at fields "baseSeverity")),
      some key,
    )

  unfoldable pub metric_from : List String → JsonObject → Outcome JsonError Metric
  unfolding metric_of value_at
  metric_from [] metrics = returns (none, none, none)
  metric_from (key ∷ keys) metrics =
      let rest = metric_from keys metrics in
      if truth (value_at metrics key) then metric_of key (value_at metrics key) else rest

  -- `_first_metric`
  unfoldable pub first_metric : JsonObject → Outcome JsonError Metric
  unfolding metric_from
  first_metric metrics = metric_from metric_keys metrics
