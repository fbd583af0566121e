-- ===== src/Api/Findings/Complete.antt =====
-- backend/app/api/findings.py: what a reader of the findings of a scan, or of its export, is given.
use scan_ledger.Prelude.{
  ℕ, zero, suc, ◌+◌, ◌*◌, ◌≤◌, ◌≡◌, ◌⊎◌, inl, inr, refl, ap, subst, ◌∙◌, arith, Bool, true, false,
  not, ◌||◌, beq_sound, some, List, [], ◌++◌, String, string_eq, ◌==◌, select, count_if, length,
  Option-cases, Bool-cases, if◌then◌else◌, Outcome, returns, raises, ◌>>=◌, >>=-returns,
  returns-injective,
}
use scan_ledger.Db.{ScanRow, FindingRow, ScanLedgerRow, Database, find_scan, find_scope}
use scan_ledger.Services.Reports.{Texts}
use scan_ledger.Services.Reports.Export.{Columns}
use scan_ledger.Api.Paging.{page, pages, order_by, drop, pages-all, length-order_by, count-order_by}
use scan_ledger.Api.Scans.{ApiError, unknown_format, unknown_mode}
use scan_ledger.Api.Findings.Rendered.{
  JsonShows, MarkdownShows, json-JsonShows, markdown-MarkdownShows,
}
use scan_ledger.Api.Findings.{
  FindingList, Filters, ExportInputs, Exported, wanted_rows, list_findings, by_host, by_category,
  is_of_scan, ledger_of_scan, load_export_inputs, render, export_scan,
}

-- What an answer that returned lists, and the total that it states.
abbrev pub items_in : Outcome ApiError FindingList → List FindingRow
items_in (returns answer) = answer.items
items_in (raises x) = []

module _ (scan_id : String) (filters : Filters) (limit : ℕ) (db : Database) where
  -- The items of `n` pages, from an offset on.
  abbrev pub found : ℕ → ℕ → List FindingRow
  found zero offset = []
  found (suc n) offset =
      items_in (list_findings scan_id filters limit offset db) ++ found n (offset + limit)

  items-page :
      (offset : ℕ) (scan : ScanRow)
      → find_scan db.scans scan_id ≡ some scan
      → items_in (list_findings scan_id filters limit offset db)
        ≡ page limit offset (order_by by_host (wanted_rows scan_id filters db))
  unfolding list_findings
  items-page offset scan e = ground (arith, e)

  found-pages :
      (n offset : ℕ) (scan : ScanRow)
      → find_scan db.scans scan_id ≡ some scan
      → found n offset ≡ pages n limit offset (order_by by_host (wanted_rows scan_id filters db))
  unfolding pages
  found-pages zero offset scan e = refl
  found-pages (suc n) offset scan e =
      ap (λ items. items ++ found n (offset + limit)) (items-page offset scan e)
      ∙ ap (λ r. page limit offset (order_by by_host (wanted_rows scan_id filters db)) ++ r)
          (found-pages n (offset + limit) scan e)

  stated_total :
      (first : FindingList)
      → list_findings scan_id filters limit 0 db ≡ returns first
      → first.total ≡ length (wanted_rows scan_id filters db)
  unfolding list_findings
  stated_total first h = ground arith

  -- A reader who asks for page after page of a scan's findings, until the pages cover the total that the answer
  -- states, sees each finding of the scan that passes the filters as often as the table holds it, by host,
  -- port and kind.
  pub list_findings_complete :
      (n : ℕ) (first : FindingList)
      → list_findings scan_id filters limit 0 db ≡ returns first
      → first.total ≤ n * limit
      → (found n 0 ≡ order_by by_host (wanted_rows scan_id filters db))
        × ((p : FindingRow → Bool)
            → count_if (found n 0) p ≡ count_if (wanted_rows scan_id filters db) p)
  unfolding list_findings drop
  list_findings_complete n first h total = elim (Option-cases (find_scan db.scans scan_id)) [
    | inl missing ↦ ground arith
    | inr (scan, e) ↦
        let rows = wanted_rows scan_id filters db in
        let every : found n 0 ≡ order_by by_host rows =
          found-pages n 0 scan e
          ∙ pages-all n limit 0 (order_by by_host rows)
              (omega (arith, length-order_by by_host rows, total, stated_total first h)) in
        (every, λ p. ap (λ r. count_if r p) every ∙ count-order_by by_host rows p)
  ]

one_of : (text u v : String) → (text == u || text == v) ≡ true → (text ≡ u) ⊎ (text ≡ v)
one_of text u v h = elim (Bool-cases (text == u)) [
  | inl e ↦ inl (beq_sound text u e)
  | inr e ↦ inr (beq_sound text v (ground (arith, e)))
]

module _ (oldest : ScanLedgerRow → ScanLedgerRow → Bool) where
  -- What an export is made of.
  pub record FromScan (texts : Texts) (columns : Columns) (scan_id format mode : String) (now : ℕ)
      (db : Database) (x : Exported) : Type 0 where
    pub known_format : (format ≡ "json") ⊎ (format ≡ "md")
    pub known_mode : (mode ≡ "summary") ⊎ (mode ≡ "full")
    pub scan : ScanRow
    pub findings : List FindingRow
    pub ledger : List ScanLedgerRow
    pub scan_found : find_scan db.scans scan_id ≡ some scan
    pub shown :
        ((format ≡ "json") × JsonShows texts scan findings ledger x)
        ⊎ ((format ≡ "md") × MarkdownShows texts mode findings x)
    pub every_finding :
        (p : FindingRow → Bool)
        → count_if findings p ≡ count_if (select db.findings (is_of_scan scan_id)) p
    pub every_entry :
        (p : ScanLedgerRow → Bool)
        → count_if ledger p ≡ count_if (select db.ledger (ledger_of_scan scan_id)) p

  load_export_inputs-every :
      (scan_id : String) (db : Database) (inputs : ExportInputs)
      → load_export_inputs oldest scan_id db ≡ returns inputs
      → (find_scan db.scans scan_id ≡ some inputs.scan)
        × (inputs.findings ≡ order_by by_category (select db.findings (is_of_scan scan_id)))
        × (inputs.ledger ≡ order_by oldest (select db.ledger (ledger_of_scan scan_id)))
  unfolding load_export_inputs
  load_export_inputs-every scan_id db inputs h = elim (Option-cases (find_scan db.scans scan_id)) [
    | inl missing ↦ ground arith
    | inr (scan, e) ↦ elim (Option-cases (find_scope db.scopes scan.scope_id)) [
      | inl gone ↦ ground arith
      | inr (scope, f) ↦ (ground arith, ground arith, ground arith)
    ]
  ]

  shown_as :
      (texts : Texts) (columns : Columns) (format mode : String) (now : ℕ) (i : ExportInputs)
      (x : Exported)
      → (format == "json" || format == "md") ≡ true
      → render oldest texts columns format mode now i ≡ x
      → ((format ≡ "json") × JsonShows texts i.scan i.findings i.ledger x)
        ⊎ ((format ≡ "md") × MarkdownShows texts mode i.findings x)
  shown_as texts columns format mode now i x known h = elim (Bool-cases (format == "json")) [
    | inl e ↦ inl (
      beq_sound format "json" e,
      subst (JsonShows texts i.scan i.findings i.ledger) (ground (arith, e, h))
          (json-JsonShows texts columns now i),
    )
    | inr e ↦ inr (
      beq_sound format "md" (ground (arith, e, known)),
      subst (MarkdownShows texts mode i.findings) (ground (arith, e, h))
          (markdown-MarkdownShows texts columns now mode i),
    )
  ]

  -- When an export returns, its format and mode are known ones. A JSON export has the stored scan and one
  -- dictionary for each finding and each entry of the ledger, in one order, with the host, the kind, the
  -- title and the fingerprint of the finding, and the destination, the decision and the outcome of the
  -- entry; a Markdown export has the findings part of the report of these findings among its lines. The
  -- findings and the entries are those of the scan, each as often as the table holds it and none of
  -- another scan.
  pub export_scan-FromScan :
      (texts : Texts) (columns : Columns) (scan_id format mode : String) (now : ℕ) (db : Database)
      (x : Exported)
      → export_scan oldest texts columns scan_id format mode now db ≡ returns x
      → FromScan texts columns scan_id format mode now db x
  unfolding export_scan
  export_scan-FromScan texts columns scan_id format mode now db x h =
      tested (format == "json" || format == "md") (mode == "summary" || mode == "full") refl refl h
    where
      tested :
          (f m : Bool)
          → (format == "json" || format == "md") ≡ f
          → (mode == "summary" || mode == "full") ≡ m
          → (if not f
              then raises (unknown_format format)
              else if not m
              then raises (unknown_mode mode)
              else load_export_inputs oldest scan_id db >>= λ inputs.
                  returns (render oldest texts columns format mode now inputs))
            ≡ returns x
          → FromScan texts columns scan_id format mode now db x
      tested false m ef em e = ground (arith, e)
      tested true false ef em e = ground (arith, e)
      tested true true ef em e =
          let (inputs, loaded, built) = >>=-returns (load_export_inputs oldest scan_id db) _ e in
          let (found, findings, ledger) = load_export_inputs-every scan_id db inputs loaded in
          record {
            known_format = one_of format "json" "md" ef;
            known_mode = one_of mode "summary" "full" em;
            scan = inputs.scan;
            findings = inputs.findings;
            ledger = inputs.ledger;
            shown = shown_as texts columns format mode now inputs x ef (returns-injective built);
            scan_found = found;
            every_finding = λ p.
                ap (λ r. count_if r p) findings
                ∙ count-order_by by_category (select db.findings (is_of_scan scan_id)) p;
            every_entry = λ p.
                ap (λ r. count_if r p) ledger
                ∙ count-order_by oldest (select db.ledger (ledger_of_scan scan_id)) p;
          }
