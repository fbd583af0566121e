-- ===== src/Tests/Routing.antt =====
-- The theorems about the KEV catalog and the routes at concrete inputs.
use scan_ledger.Prelude.{
  ℕ, ◌≤◌, ◌≡◌, ◌≢◌, refl, arith, Bool, true, none, [], ◌∷◌, String, string_eq, ◌==◌, if◌then◌else◌,
  nat_eq, returns, inl, inr, Bool-cases, count_if, select, length, put,
}
use scan_ledger.Models.Domain.{ScanStatus}
use scan_ledger.Db.{ScanRow, Database, find_scan}
use scan_ledger.Services.Json.{
  JsonObject, json_text, json_object, json_array, no_item, item, no_field, field, text_at, items_at,
  items_of, get_field,
}
use scan_ledger.Services.Kev.{
  KevCatalog, entry_of, parse_item, parse_items, parse_catalog, serialize_catalog,
}
use scan_ledger.Services.Kev.RoundTrip.{parse_catalog_round_trip}
use scan_ledger.Scan.Writes.{cancel_requested}
use scan_ledger.Api.Scans.{
  ScanDetail, list_scans, has_status, cancel, with_cancel, cancel_scan, delete_scan,
}
use scan_ledger.Api.Scans.Listed.{Descending, listed, list_scans_complete}
use scan_ledger.Api.Scans.Canceled.{cancel_scan_lem}
use scan_ledger.Api.Integrity.{Integrity, start, after, scan_created, scan_deleted}
use scan_ledger.Api.Integrity.Reached.{Reaches-Integrity}
use scan_ledger.Services.Scans.{create_scan}
use scan_ledger.Tests.Lab.{reader, resolver, registry, request, stored, scan_row}

abbrev upper : String → String
upper s = if s == "cve-1" then "CVE-1" else s

upper_twice : (s : String) → upper (upper s) ≡ upper s
upper_twice s = elim (Bool-cases (s == "cve-1")) [ inl e ↦ rw e refl | inr e ↦ rw (e, e) refl ]

abbrev lower : String → String
lower s = if s == "Known" then "known" else "unknown"

abbrev feed : JsonObject
feed =
    field "vulnerabilities"
      (json_array (
        item
          (json_object (
            field "cveID" (json_text "cve-1")
              (field "knownRansomwareCampaignUse" (json_text "Known") no_field)))
          (item (json_object no_field) no_item)))
      no_field

abbrev catalog : KevCatalog
catalog = record {
  version = "unknown";
  released = "";
  entries =
      (
        "CVE-1",
        record {
          cve_id = "CVE-1";
          vendor_project = "";
          product = "";
          vulnerability_name = "";
          date_added = "";
          due_date = "";
          known_ransomware_use = true;
          required_action = "";
        },
      )
      ∷ [];
}

parse_catalog_round_trip_example :
    parse_catalog upper lower (λ j. "") (serialize_catalog catalog) ≡ returns catalog
unfolding parse_catalog parse_items parse_item entry_of text_at items_at items_of get_field put
parse_catalog_round_trip_example =
    parse_catalog_round_trip upper lower (λ j. "") feed catalog upper_twice refl refl refl

abbrev three_scans : Database
three_scans = record stored {
  scans =
      scan_row "s1" ScanStatus.queued 10
      ∷ scan_row "s2" ScanStatus.running 20
      ∷ scan_row "s3" ScanStatus.completed 30
      ∷ [];
}

-- The first query puts rows of one time as they come, the others the other way round.
abbrev any_order : ℕ → ScanRow → ScanRow → Bool
any_order offset a b = offset == 0

list_scans_complete_example :
    Descending (listed any_order 2 2 0 none three_scans)
    × ((p : ScanRow → Bool)
        → count_if (listed any_order 2 2 0 none three_scans) p
          ≡ count_if (select three_scans.scans (has_status none)) p)
    × ((offset : ℕ)
        → (length (list_scans (any_order offset) 2 offset none three_scans).items ≤ 2)
          × ((list_scans (any_order offset) 2 offset none three_scans).total
              ≡ length (select three_scans.scans (has_status none))))
list_scans_complete_example =
    list_scans_complete any_order 2 none three_scans 2
      (
        (λ e. omega (arith, e), (λ e. omega (arith, e), tt)),
        ((λ e. omega (arith, e), tt), (tt, tt)),
      )
      (unfold list_scans in omega arith)

cancel_scan_lem_example :
    (detail : ScanDetail) × (cancel_scan "s2" three_scans
      ≡ (returns detail, with_cancel "s2" three_scans))
    × (detail.scan ≡ cancel (scan_row "s2" ScanStatus.running 20))
    × (cancel_requested "s2" (with_cancel "s2" three_scans).scans ≡ true)
    × ((j : String)
        → j ≢ "s2"
        → find_scan (with_cancel "s2" three_scans).scans j ≡ find_scan three_scans.scans j)
unfolding find_scan
cancel_scan_lem_example =
    cancel_scan_lem "s2" three_scans (scan_row "s2" ScanStatus.running 20) refl refl

stored-Integrity : Integrity stored
stored-Integrity = record {
  of_scans = (refl, tt);
  of_runs = tt;
  of_findings = tt;
  of_events = tt;
  of_ledger = tt;
}

abbrev with_second : Database
with_second = (create_scan reader resolver registry "s2" 20 (request true) stored).1

Reaches-Integrity_example : Integrity (delete_scan "s1" with_second).1
Reaches-Integrity_example =
    Reaches-Integrity stored (delete_scan "s1" with_second).1
      (after
        (after (start stored) (scan_created reader resolver registry "s2" 20 (request true) stored))
        (scan_deleted "s1" with_second))
      stored-Integrity
