-- ===== src/Services/Reports/Complete.antt =====
-- The findings in the Markdown export of backend/app/services/reports.py: none is left out unsaid.
use mathlib.Core.List.{append-nil, append_assoc}
use scan_ledger.Prelude.{
  ℕ, suc, ◌+◌, ◌-◌, ◌≡◌, refl, sym, ap, ◌∙◌, arith, Bool, true, false, List, [], ◌∷◌, ◌++◌, String,
  string_eq, ◌==◌, Bool-cases, inl, inr, min, ltb, ltb→lt, length, length-append, map, select,
  count_if, length-select, if◌then◌else◌, Dict, get,
}
use scan_ledger.Text.Join.{f_string}
use scan_ledger.Text.Decimal.{str_of}
use scan_ledger.Models.Domain.{
  FindingCategory, live_host, port_service, enumeration, vulnerability, category_text,
}
use scan_ledger.Models.Findings.{port_text}
use scan_ledger.Db.{FindingRow}
use scan_ledger.Scan.Concurrency.{concat}
use scan_ledger.Modules.Ports.{or_else}
use scan_ledger.Modules.Sweep.{append_at}
use scan_ledger.Modules.Sweep.Grouping.{boxed, or_else-boxed, append_at-get}
use scan_ledger.Services.Reports.{
  Texts, category_title, category_rows, category_section, finding_line, findings_lines, first_rows,
  group_findings, rows_of, shown_rows, omitted_lines, omitted_note,
}

abbrev pub in_category : FindingCategory → FindingRow → Bool
in_category c f = category_text f.category == category_text c

group_findings-get :
    (findings : List FindingRow) (d : Dict String (List FindingRow)) (c : FindingCategory)
    (vs : List FindingRow)
    → get d (category_text c) ≡ boxed vs
    → get (group_findings d findings) (category_text c)
      ≡ boxed (vs ++ select findings (in_category c))
unfolding group_findings
group_findings-get [] d c vs e = e ∙ ap boxed (sym (append-nil vs))
group_findings-get (f ∷ findings) d c vs e =
    group_findings-get findings (append_at d (category_text f.category) f) c _
      (append_at-get d (category_text f.category) (category_text c) f vs e)
    ∙ ap boxed (regroup (in_category c f) (select findings (in_category c)))
  where
    regroup :
        (b : Bool) (rest : List FindingRow)
        → (if b then vs ++ f ∷ [] else vs) ++ rest ≡ vs ++ (if b then f ∷ rest else rest)
    regroup true rest = append_assoc vs (f ∷ []) rest
    regroup false rest = refl

rows_of-select :
    (findings : List FindingRow) (c : FindingCategory)
    → rows_of (group_findings [] findings) c ≡ select findings (in_category c)
unfolding get
rows_of-select findings c =
    ap (λ o. or_else o []) (group_findings-get findings [] c [] refl)
    ∙ or_else-boxed (select findings (in_category c))

-- Every finding is in one category.
counted_once :
    (findings : List FindingRow)
    → length findings
      ≡ count_if findings (in_category live_host)
        + count_if findings (in_category port_service)
        + count_if findings (in_category enumeration)
        + count_if findings (in_category vulnerability)
counted_once [] = refl
counted_once (f ∷ findings) = one_more f.category (counted_once findings)
  where
    one_more :
        (c : FindingCategory)
        → length findings
          ≡ count_if findings (in_category live_host)
            + count_if findings (in_category port_service)
            + count_if findings (in_category enumeration)
            + count_if findings (in_category vulnerability)
        → suc (length findings)
          ≡ ((if category_text c == "live_host" then 1 else 0)
              + count_if findings (in_category live_host))
            + ((if category_text c == "port_service" then 1 else 0)
                + count_if findings (in_category port_service))
            + ((if category_text c == "enumeration" then 1 else 0)
                + count_if findings (in_category enumeration))
            + ((if category_text c == "vulnerability" then 1 else 0)
                + count_if findings (in_category vulnerability))
    one_more live_host h = omega (arith, h)
    one_more port_service h = omega (arith, h)
    one_more enumeration h = omega (arith, h)
    one_more vulnerability h = omega (arith, h)

module _ {A : Type 0} where
  first_rows_lem :
      (n : ℕ) (rows : List A)
      → (rest : List A) × (rows ≡ first_rows n rows ++ rest)
        × (length (first_rows n rows) ≡ min n (length rows))
  unfolding first_rows
  first_rows_lem n [] = ([], refl, omega arith)
  first_rows_lem n (r ∷ rows) = elim (Bool-cases (ltb 0 n)) [
    | inl more ↦
        let (rest, parts, count) = first_rows_lem (n - 1) rows in
        (rest, rw more (ap (λ l. r ∷ l) parts), rw more (omega (arith, count, ltb→lt 0 n more)))
    | inr none_left ↦ (r ∷ rows, rw none_left refl, rw none_left (ground (arith, none_left)))
  ]

-- The line that counts the rows left out, if there are any.
abbrev pub note_of : List FindingRow → List String
note_of [] = []
note_of (f ∷ omitted) =
    ""
    ∷ f_string (
        "_"
        ∷ str_of (length (f ∷ omitted))
        ∷ " further row(s) omitted from this summary; "
        ∷ "the JSON export carries the complete record._"
        ∷ [])
    ∷ []

-- Which rows of a category are listed: all of them, or the first twenty.
record Split (full : Bool) (rows : List FindingRow) : Type 0 where
  omitted : List FindingRow
  parts : rows ≡ shown_rows full rows ++ omitted
  said : omitted_lines full rows (shown_rows full rows) ≡ note_of omitted
  all_in_full : full ≡ true → omitted ≡ []
  twenty_in_summary : full ≡ false → length (shown_rows full rows) ≡ min 20 (length rows)

rows-Split : (full : Bool) (rows : List FindingRow) → Split full rows
unfolding omitted_note
rows-Split true rows = record {
  omitted = [];
  parts = sym (append-nil rows);
  said = refl;
  all_in_full = λ e. refl;
  twenty_in_summary = λ e. ground (arith, e);
}
rows-Split false rows =
    let (omitted, parts, count) = first_rows_lem 20 rows in
    let total : length rows ≡ length (first_rows 20 rows) + length omitted =
      ap length parts ∙ length-append (first_rows 20 rows) omitted in
    record {
      omitted = omitted;
      parts = parts;
      said = noted (length (first_rows 20 rows)) (length rows) omitted total;
      all_in_full = λ e. ground (arith, e);
      twenty_in_summary = λ e. count;
    }
  where
    noted :
        (shown every : ℕ) (left : List FindingRow)
        → every ≡ shown + length left
        → (if ltb shown every then "" ∷ omitted_note (every - shown) ∷ [] else []) ≡ note_of left
    noted shown every [] h = let test : ltb shown every ≡ false = ground (arith, h) in rw test refl
    noted shown every (f ∷ left) h =
        let same : every - shown ≡ length (f ∷ left) = omega (arith, h) in
        let test : ltb shown every ≡ true = ground (arith, h) in rw (test, same) refl

module _ (texts : Texts) where
  -- The table row of a finding.
  abbrev pub columns_of : FindingRow → String
  columns_of f = f_string (
      "| "
      ∷ f.host
      ∷ " | "
      ∷ port_text f.port
      ∷ " | "
      ∷ f.title
      ∷ " | "
      ∷ f.module_name
      ∷ " | "
      ∷ texts.iso (texts.observed_at f)
      ∷ " |"
      ∷ [])

  -- A table of findings, and what it leaves out of the rows.
  pub record Table (full : Bool) (rows : List FindingRow) (lines : List String) : Type 0 where
    pub listed : List FindingRow
    pub omitted : List FindingRow
    pub parts : rows ≡ listed ++ omitted
    pub all_in_full : full ≡ true → omitted ≡ []
    pub twenty_in_summary : full ≡ false → length listed ≡ min 20 (length rows)
    pub reads :
        lines
        ≡ "| Host | Port | Finding | Module | Observed |"
            ∷ "| --- | --- | --- | --- | --- |"
            ∷ map columns_of listed
          ++ note_of omitted
          ++ "" ∷ []

  abbrev pub TableOf : Bool → List FindingRow → List String → Type 0
  TableOf full [] lines = lines ≡ "No findings in this category." ∷ "" ∷ []
  TableOf full (f ∷ rows) lines = Table full (f ∷ rows) lines

  -- The section of a category, with its rows.
  abbrev pub Section : Bool → FindingCategory → List FindingRow → List String → Type 0
  Section full c rows lines =
      (table : List String) × (lines ≡ f_string ("### " ∷ category_title c ∷ []) ∷ "" ∷ table)
      × TableOf full rows table

  category_rows-TableOf :
      (full : Bool) (rows : List FindingRow) → TableOf full rows (category_rows texts full rows)
  unfolding category_rows finding_line
  category_rows-TableOf full [] = refl
  category_rows-TableOf full (f ∷ rows) =
      let s = rows-Split full (f ∷ rows) in
      record {
        listed = shown_rows full (f ∷ rows);
        omitted = s.omitted;
        parts = s.parts;
        all_in_full = s.all_in_full;
        twenty_in_summary = s.twenty_in_summary;
        reads = rw (s.said) refl;
      }

  category_section-Section :
      (full : Bool) (findings : List FindingRow) (c : FindingCategory)
      → Section full c
          (select findings (in_category c))
          (category_section texts full (group_findings [] findings) c)
  unfolding category_section
  category_section-Section full findings c = (
    category_rows texts full (rows_of (group_findings [] findings) c),
    refl,
    rw (rows_of-select findings c) (category_rows-TableOf full (select findings (in_category c))),
  )

  -- What the report says of the findings.
  pub record FindingsReported (full : Bool) (findings : List FindingRow) : Type 0 where
    pub hosts : List String
    pub ports : List String
    pub services : List String
    pub weak : List String
    pub sections :
        findings_lines texts full findings
        ≡ "" ∷ "## Findings" ∷ "" ∷ concat (hosts ∷ ports ∷ services ∷ weak ∷ [])
    pub of_hosts : Section full live_host (select findings (in_category live_host)) hosts
    pub of_ports : Section full port_service (select findings (in_category port_service)) ports
    pub of_services : Section full enumeration (select findings (in_category enumeration)) services
    pub of_weak : Section full vulnerability (select findings (in_category vulnerability)) weak
    pub counted :
        length findings
        ≡ length (select findings (in_category live_host))
          + length (select findings (in_category port_service))
          + length (select findings (in_category enumeration))
          + length (select findings (in_category vulnerability))

  -- The findings part of a report has a section for every category, and every finding is in one category.
  -- A section has its title and a table with one row for each finding of the category, in their order, with
  -- host, port, title, module and time, or says that there are none. A full report lists them all; a
  -- summary lists the first twenty of a category and, if there are more, says how many it omits.
  pub findings_lines-FindingsReported :
      (full : Bool) (findings : List FindingRow) → FindingsReported full findings
  unfolding findings_lines category_section
  findings_lines-FindingsReported full findings = record {
    hosts = category_section texts full (group_findings [] findings) live_host;
    ports = category_section texts full (group_findings [] findings) port_service;
    services = category_section texts full (group_findings [] findings) enumeration;
    weak = category_section texts full (group_findings [] findings) vulnerability;
    sections = refl;
    of_hosts = category_section-Section full findings live_host;
    of_ports = category_section-Section full findings port_service;
    of_services = category_section-Section full findings enumeration;
    of_weak = category_section-Section full findings vulnerability;
    counted =
        rw
          (
            length-select findings (in_category live_host),
            length-select findings (in_category port_service),
            length-select findings (in_category enumeration),
            length-select findings (in_category vulnerability),
          )
          (counted_once findings);
  }
