-- ===== src/Services/Nvd/Read.antt =====
-- backend/app/services/providers/nvd.py: which CVEs of an answer become records, and with which score.
use scan_ledger.Prelude.{
  ℕ, ◌≡◌, ◌⊎◌, inl, inr, refl, sym, ap, subst, arith, Bool, true, false, none, Bool-cases, List, [],
  ◌∷◌, ◌++◌, String, string_eq, nat_eq, All, not, beq_sound, beq_refl, if◌then◌else◌, Outcome,
  returns, raises, ◌>>=◌, Option, some, Option-cases, ◌≢◌, ◌∙◌, >>=-returns, returns-injective,
}
use scan_ledger.Services.Json.{
  Json, json_null, json_bool, json_number, json_text, json_array, json_object, JsonList, no_item,
  item, JsonObject, no_field, JsonError, get_field, items_at,
}
use scan_ledger.Services.Outbound.{GatewayError}
use scan_ledger.Services.Nvd.{
  CveRecord, NvdResult, Metric, metric_keys, is_text, value_at, value_or, fields_of, first_of,
  score_of, truth, or_empty, english, metric_of, metric_from, first_metric,
}
use scan_ledger.Services.Nvd.Payload.{
  record_of, cve_of, parse_items, total_of, parse_cve_payload, lift_payload, lift_gateway, by_cpe,
  empty_note,
}

lift_payload-returns :
    {A : Type 0} (m : Outcome JsonError A) (a : A) → lift_payload m ≡ returns a → m ≡ returns a
lift_payload-returns (returns b) a h = ground arith
lift_payload-returns (raises x) a h = ground arith

lift_gateway-returns :
    (m : Outcome GatewayError JsonObject) (payload : JsonObject)
    → lift_gateway m ≡ returns payload
    → m ≡ returns payload
lift_gateway-returns (returns b) payload h = ground arith
lift_gateway-returns (raises x) payload h = ground arith

-- A score is the number that stands there, and `True` and `False` are 1 and 0.
abbrev pub ScoreRead : Option Json → Option String → Type 0
ScoreRead value (some s) =
    (value ≡ some (json_number s))
    ⊎ (((value ≡ some (json_bool true)) × (s ≡ "1"))
        ⊎ ((value ≡ some (json_bool false)) × (s ≡ "0")))
ScoreRead value none =
    ((s : String) → value ≢ some (json_number s)) × ((b : Bool) → value ≢ some (json_bool b))

score_of-ScoreRead :
    (value : Option Json)
    → ScoreRead value (score_of (elim value [ none ↦ json_null | some v ↦ v ]))
unfolding score_of
score_of-ScoreRead none = (λ s e. cc, λ b e. cc)
score_of-ScoreRead (some (json_number n)) = inl refl
score_of-ScoreRead (some (json_bool true)) = inr (inl (refl, refl))
score_of-ScoreRead (some (json_bool false)) = inr (inr (refl, refl))
score_of-ScoreRead (some json_null) = (λ s e. ground (arith, e), λ b e. ground (arith, e))
score_of-ScoreRead (some (json_text t)) = (λ s e. ground (arith, e), λ b e. ground (arith, e))
score_of-ScoreRead (some (json_array t)) = (λ s e. ground (arith, e), λ b e. ground (arith, e))
score_of-ScoreRead (some (json_object t)) = (λ s e. ground (arith, e), λ b e. ground (arith, e))

fields_of-object :
    (value : Json) (fields : JsonObject)
    → fields_of value ≡ returns fields
    → value ≡ json_object fields
unfolding fields_of
fields_of-object json_null fields h = ground arith
fields_of-object (json_bool b) fields h = ground arith
fields_of-object (json_number n) fields h = ground arith
fields_of-object (json_text s) fields h = ground arith
fields_of-object (json_array items) fields h = ground arith
fields_of-object (json_object others) fields h = ground arith

first_of-object :
    (value : Json) (fields : JsonObject)
    → first_of value ≡ returns (json_object fields)
    → (others : JsonList) × (value ≡ json_array (item (json_object fields) others))
unfolding first_of
first_of-object json_null fields h = absurd (ground arith)
first_of-object (json_bool b) fields h = absurd (ground arith)
first_of-object (json_number n) fields h = absurd (ground arith)
first_of-object (json_text s) fields h = absurd (ground arith)
first_of-object (json_array no_item) fields h = absurd (ground arith)
first_of-object (json_array (item v others)) fields h = (others, ground arith)
first_of-object (json_object others) fields h = absurd (ground arith)

-- What a metric's first entry holds under "cvssData": nothing is there like an empty dictionary.
abbrev pub CvssData : JsonObject → JsonObject → Type 0
CvssData fields inner =
    (get_field fields "cvssData" ≡ some (json_object inner))
    ⊎ ((get_field fields "cvssData" ≡ none) × (inner ≡ no_field))

value_or-CvssData :
    (fields inner : JsonObject)
    → value_or fields "cvssData" (json_object no_field) ≡ json_object inner
    → CvssData fields inner
unfolding value_or
value_or-CvssData fields inner h = elim (Option-cases (get_field fields "cvssData")) [
  | inl missing ↦ inr (missing, ground arith)
  | inr (v, there) ↦ inl (ground arith)
]

module _ (is_zero : String → Bool) (str_other : Json → String) where
  -- A dictionary under a key, where what counts as false is an empty one.
  abbrev pub Under : String → JsonObject → JsonObject → Type 0
  Under name fields inner =
      (get_field fields name ≡ some (json_object inner))
      ⊎ ((truth is_zero str_other (value_at fields name) ≡ false) × (inner ≡ no_field))

  or_empty-Under :
      (name : String) (fields inner : JsonObject)
      → fields_of (or_empty is_zero str_other (value_at fields name)) ≡ returns inner
      → Under name fields inner
  or_empty-Under name fields inner h =
      elim (Bool-cases (truth is_zero str_other (value_at fields name))) [
        | inl there ↦
            let same : value_at fields name ≡ json_object inner = fields_of-object _ inner (
              subst
                (λ b.
                  fields_of (if b then value_at fields name else json_object no_field)
                  ≡ returns inner)
                there h) in
            inl (of_value same)
        | inr missing ↦ inr (
          missing,
          unfold fields_of in
              sym (
                returns-injective (
                  subst
                    (λ b.
                      fields_of (if b then value_at fields name else json_object no_field)
                      ≡ returns inner)
                    missing h)),
        )
      ]
    where
      of_value :
          value_at fields name ≡ json_object inner
          → get_field fields name ≡ some (json_object inner)
      of_value same = elim (Option-cases (get_field fields name)) [
        | inl none_there ↦ absurd (unfold value_at in ground arith)
        | inr (v, e) ↦ unfold value_at in ground arith
      ]

  -- What is read off the first entry under a key.
  pub record MetricRead (key : String) (entries : Json) (m : Metric) : Type 0 where
    pub fields : JsonObject
    pub others : JsonList
    pub first : entries ≡ json_array (item (json_object fields) others)
    pub inner : JsonObject
    pub data_read : CvssData fields inner
    pub scored : ScoreRead (get_field inner "baseScore") m.0
    pub versioned : m.2 ≡ some key

  metric_of-MetricRead :
      (key : String) (entries : Json) (m : Metric)
      → metric_of is_zero str_other key entries ≡ returns m
      → MetricRead key entries m
  unfolding metric_of value_at
  metric_of-MetricRead key entries m h =
      let (entry, a, rest) = >>=-returns (first_of entries) _ h in
      let (fields, b, rest') = >>=-returns (fields_of entry) _ rest in
      let (inner, c, built) =
        >>=-returns (fields_of (value_or fields "cvssData" (json_object no_field))) _ rest' in
      let (others, first) =
        first_of-object entries fields (a ∙ ap returns (fields_of-object entry fields b)) in
      subst (MetricRead key entries) (returns-injective built) (record {
        fields = fields;
        others = others;
        first = first;
        inner = inner;
        data_read = value_or-CvssData fields inner (fields_of-object _ inner c);
        scored = score_of-ScoreRead (get_field inner "baseScore");
        versioned = refl;
      })

  -- The score is that of the first key, in the order of preference, that has entries; without one there is
  -- no score at all.
  abbrev pub Preferred : List String → JsonObject → Metric → Type 0
  Preferred keys metrics m =
      (All (λ k. truth is_zero str_other (value_at metrics k) ≡ false) keys
        × (m ≡ (none, none, none)))
      ⊎ ((before : List String) × (key : String) × (after : List String) × (keys
            ≡ before ++ key ∷ after)
          × All (λ k. truth is_zero str_other (value_at metrics k) ≡ false) before
          × (truth is_zero str_other (value_at metrics key) ≡ true)
          × MetricRead key (value_at metrics key) m)

  metric_from-Preferred :
      (keys : List String) (metrics : JsonObject) (m : Metric)
      → metric_from is_zero str_other keys metrics ≡ returns m
      → Preferred keys metrics m
  unfolding metric_from
  metric_from-Preferred [] metrics m h = inl (tt, sym (returns-injective h))
  metric_from-Preferred (key ∷ keys) metrics m h =
      elim (Bool-cases (truth is_zero str_other (value_at metrics key))) [
        | inl there ↦
            inr ([], key, keys, refl, tt, there, metric_of-MetricRead key _ m (ground arith))
        | inr missing ↦ elim (metric_from-Preferred keys metrics m (ground arith)) [
          | inl (none_there, e) ↦ inl ((missing, none_there), e)
          | inr (before, k, after, parts, quiet, there, e) ↦
              inr (key ∷ before, k, after, ap (λ r. key ∷ r) parts, (missing, quiet), there, e)
        ]
      ]

  -- What a record says of its CVE.
  pub record RecordOf (cve : JsonObject) (r : CveRecord) : Type 0 where
    pub same_id : r.cve_id ≡ value_at cve "id"
    pub same_status : r.vuln_status ≡ value_at cve "vulnStatus"
    pub metrics : JsonObject
    pub read : Under "metrics" cve metrics
    pub preferred : Preferred metric_keys metrics (r.cvss_score, r.cvss_severity, r.cvss_version)
    pub configured :
        r.has_cpe_configuration ≡ truth is_zero str_other (value_at cve "configurations")

  record_of-RecordOf :
      (cve : JsonObject) (r : CveRecord)
      → record_of is_zero str_other cve ≡ returns r
      → RecordOf cve r
  unfolding record_of first_metric
  record_of-RecordOf cve r h =
      let (descriptions, d, rest) = >>=-returns (items_at cve "descriptions") _ h in
      let (description, e, rest') = >>=-returns (english descriptions) _ rest in
      let (metrics, m, rest'') =
        >>=-returns (fields_of (or_empty is_zero str_other (value_at cve "metrics"))) _ rest' in
      let (metric, f, built) = >>=-returns (first_metric is_zero str_other metrics) _ rest'' in
      subst (RecordOf cve) (returns-injective built) (record {
        same_id = refl;
        same_status = refl;
        metrics = metrics;
        read = or_empty-Under "metrics" cve metrics m;
        preferred = metric_from-Preferred metric_keys metrics metric f;
        configured = refl;
      })

  -- The CVEs of the items, one for each.
  abbrev pub CvesOf : JsonList → List JsonObject → Type 0
  CvesOf no_item [] = Unit
  CvesOf no_item (cve ∷ cves) = ⊥
  CvesOf (item value items) [] = ⊥
  CvesOf (item value items) (cve ∷ cves) =
      ((fields : JsonObject) × (value ≡ json_object fields) × Under "cve" fields cve)
      × CvesOf items cves

  cve_of-Under :
      (value : Json) (cve : JsonObject)
      → cve_of is_zero str_other value ≡ returns cve
      → (fields : JsonObject) × (value ≡ json_object fields) × Under "cve" fields cve
  unfolding cve_of
  cve_of-Under value cve h =
      let (fields, a, rest) = >>=-returns (fields_of value) _ h in
      (fields, fields_of-object value fields a, or_empty-Under "cve" fields cve rest)

  -- The records of the CVEs that have an id and are not rejected, in their order.
  pub data RecordsOf : List JsonObject → List CveRecord → Type 0 where
    no_more : RecordsOf [] []
    keep :
        {cve : JsonObject} {cves : List JsonObject} {r : CveRecord} {records : List CveRecord}
        → truth is_zero str_other (value_at cve "id") ≡ true
        → value_at cve "vulnStatus" ≢ json_text "Rejected"
        → RecordOf cve r
        → RecordsOf cves records
        → RecordsOf (cve ∷ cves) (r ∷ records)
    leave_out :
        {cve : JsonObject} {cves : List JsonObject} {records : List CveRecord}
        → (truth is_zero str_other (value_at cve "id") ≡ false)
          ⊎ (value_at cve "vulnStatus" ≡ json_text "Rejected")
        → RecordsOf cves records
        → RecordsOf (cve ∷ cves) records

  is_text-same : (value : Json) (text : String) → is_text value text ≡ true → value ≡ json_text text
  is_text-same (json_text s) text h = ap json_text (beq_sound s text h)
  is_text-same json_null text h = ground (arith, h)
  is_text-same (json_bool b) text h = ground (arith, h)
  is_text-same (json_number n) text h = ground (arith, h)
  is_text-same (json_array items) text h = ground (arith, h)
  is_text-same (json_object fields) text h = ground (arith, h)

  is_text-other :
      (value : Json) (text : String) → is_text value text ≡ false → value ≢ json_text text
  is_text-other value text h e =
      ground (arith, beq_refl text, subst (λ v. is_text v text ≡ false) e h)

  abbrev Parsed : JsonList → List CveRecord → Type 0
  Parsed items records = (cves : List JsonObject) × CvesOf items cves × RecordsOf cves records

  parse_items_lem :
      (items : JsonList) (records : List CveRecord)
      → parse_items is_zero str_other items ≡ returns records
      → Parsed items records
  unfolding parse_items
  parse_items_lem no_item records h = ([], tt, subst (RecordsOf []) (returns-injective h) no_more)
  parse_items_lem (item value items) records h =
      let (cve, c, rest) = >>=-returns (cve_of is_zero str_other value) _ h in
      let (cves, each, read) =
        tested (λ others m. parse_items_lem items others m) cve
          (truth is_zero str_other (value_at cve "id")) refl
          (is_text (value_at cve "vulnStatus") "Rejected") refl rest in
      (cve ∷ cves, (cve_of-Under value cve c, each), read)
    where
      tested :
          ((others : List CveRecord)
            → parse_items is_zero str_other items ≡ returns others
            → Parsed items others)
          → (cve : JsonObject) (b : Bool) → truth is_zero str_other (value_at cve "id") ≡ b
          → (rejected : Bool) → is_text (value_at cve "vulnStatus") "Rejected" ≡ rejected
          → (if (if b then not rejected else false)
              then (record_of is_zero str_other cve >>= λ r.
                  parse_items is_zero str_other items >>= λ others. returns (r ∷ others))
              else parse_items is_zero str_other items)
            ≡ returns records
          → (cves : List JsonObject) × CvesOf items cves × RecordsOf (cve ∷ cves) records
      tested induct cve true named false valid e =
          let (r, one, more) = >>=-returns (record_of is_zero str_other cve) _ e in
          let (others, m, built) = >>=-returns (parse_items is_zero str_other items) _ more in
          let (cves, each, read) = induct others m in
          (
            cves,
            each,
            subst (RecordsOf (cve ∷ cves)) (returns-injective built)
                (keep named (is_text-other _ "Rejected" valid) (record_of-RecordOf cve r one) read),
          )
      tested induct cve true named true rejected e =
          let (cves, each, read) = induct records e in
          (cves, each, leave_out (inr (is_text-same _ "Rejected" rejected)) read)
      tested induct cve false nameless rejected status e =
          let (cves, each, read) = induct records e in (cves, each, leave_out (inl nameless) read)

  -- What an answer of NVD is read as.
  pub record PayloadRead (payload : JsonObject) (records : List CveRecord) : Type 0 where
    pub items : JsonList
    pub listed : items_at payload "vulnerabilities" ≡ returns items
    pub cves : List JsonObject
    pub each_item : CvesOf items cves
    pub each_record : RecordsOf cves records

  module _ (int_of : Json → Outcome JsonError ℕ) where
    parse_cve_payload-PayloadRead :
        (payload : JsonObject) (records : List CveRecord) (total : ℕ)
        → parse_cve_payload is_zero str_other int_of payload ≡ returns (records, total)
        → PayloadRead payload records
    unfolding parse_cve_payload
    parse_cve_payload-PayloadRead payload records total h =
        let (items, i, rest) = >>=-returns (items_at payload "vulnerabilities") _ h in
        let (rs, p, rest') = >>=-returns (parse_items is_zero str_other items) _ rest in
        let (t, e, built) = >>=-returns (total_of is_zero str_other int_of payload rs) _ rest' in
        let (cves, each, read) = parse_items_lem items rs p in
        subst (PayloadRead payload) (ap (λ r. r.0) (returns-injective built))
          (record { items = items; listed = i; cves = cves; each_item = each; each_record = read })

    module _ (get_json : List (String × String) → Outcome GatewayError JsonObject)
        (repr : String → String) where
      -- What a query by CPE name answers.
      pub record Answered (cpe_name : String) (result : NvdResult) : Type 0 where
        pub payload : JsonObject
        pub asked :
            get_json (("cpeName", cpe_name) ∷ ("resultsPerPage", "50") ∷ []) ≡ returns payload
        pub read : PayloadRead payload result.records
        pub empty_said : result.total_results ≡ 0 → result.notes ≡ empty_note ∷ []

      -- When `by_cpe` returns, its records are those of the CVEs in the payload that the gateway gave for this
      -- CPE name, in their order: one for each CVE with an id that is not rejected, and none for another. A
      -- record's score is the number that stands as base score in the first entry of the first scoring system,
      -- in the order of preference, that has entries, and there is no score where there is no such number.
      -- An answer without a result says that this is no evidence that the
      -- service is unaffected.
      pub by_cpe-Answered :
          (cpe_name : String) (result : NvdResult)
          → by_cpe is_zero str_other int_of get_json repr cpe_name ≡ returns result
          → Answered cpe_name result
      unfolding by_cpe
      by_cpe-Answered cpe_name result h =
          let params : List (String × String) =
            ("cpeName", cpe_name) ∷ ("resultsPerPage", "50") ∷ [] in
          let (payload, a, rest) = >>=-returns (lift_gateway (get_json params)) _ h in
          let ((records, total), p, built) =
            >>=-returns (lift_payload (parse_cve_payload is_zero str_other int_of payload)) _
              rest in
          subst (Answered cpe_name) (returns-injective built) (record {
            payload = payload;
            asked = lift_gateway-returns (get_json params) payload a;
            read =
                parse_cve_payload-PayloadRead payload records total
                  (lift_payload-returns _ (records, total) p);
            empty_said = λ none_found. ground (arith, none_found);
          })
