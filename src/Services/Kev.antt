-- ===== src/Services/Kev.antt =====
-- backend/app/services/providers/kev.py: the KEV catalog. `upper` and `lower` are the methods of `str`, and
-- `str_other` is `str` on what is no text.
pub mod RoundTrip
use scan_ledger.Prelude.{
  ℕ, Bool, true, false, Option, none, some, List, [], ◌∷◌, String, string_eq, ◌==◌, if◌then◌else◌,
  Outcome, returns, raises, ◌>>=◌, Dict, get, put, length,
}
use scan_ledger.Services.Json.{
  Json, json_text, json_array, json_object, JsonList, no_item, item, JsonObject, no_field, field,
  JsonError, attribute_error, text_at, items_at,
}

abbrev pub cache_key : String
cache_key = "kev:catalog"

pub record KevEntry : Type 0 where
  pub cve_id : String
  pub vendor_project : String
  pub product : String
  pub vulnerability_name : String
  pub date_added : String
  pub due_date : String
  pub known_ransomware_use : Bool
  pub required_action : String

pub record KevCatalog : Type 0 where
  pub version : String
  pub released : String
  pub entries : Dict String KevEntry

-- `count`
unfoldable pub count : KevCatalog → ℕ
count c = length c.entries

ransomware_text : Bool → String
ransomware_text true = "Known"
ransomware_text false = "Unknown"

unfoldable pub serialize_entry : KevEntry → Json
unfolding ransomware_text
serialize_entry e = json_object (
    field "cveID" (json_text e.cve_id) (
      field "vendorProject" (json_text e.vendor_project) (
        field "product" (json_text e.product) (
          field "vulnerabilityName" (json_text e.vulnerability_name) (
            field "dateAdded" (json_text e.date_added) (
              field "dueDate" (json_text e.due_date) (
                field "knownRansomwareCampaignUse"
                  (json_text (ransomware_text e.known_ransomware_use))
                  (field "requiredAction" (json_text e.required_action) no_field))))))))

serialize_entries : Dict String KevEntry → JsonList
unfolding serialize_entry
serialize_entries [] = no_item
serialize_entries ((_, e) ∷ entries) = item (serialize_entry e) (serialize_entries entries)

unfoldable pub serialize_catalog : KevCatalog → JsonObject
unfolding serialize_entries
serialize_catalog c = field "catalogVersion" (json_text c.version) (
    field "dateReleased" (json_text c.released)
      (field "vulnerabilities" (json_array (serialize_entries c.entries)) no_field))

module _ (upper lower : String → String) (str_other : Json → String) where
  -- `get`
  unfoldable pub find : KevCatalog → String → Option KevEntry
  find c cve_id = get c.entries (upper cve_id)

  unfoldable pub entry_of : JsonObject → String → KevEntry
  unfolding text_at
  entry_of fields cve_id = record {
    cve_id = cve_id;
    vendor_project = text_at str_other fields "vendorProject" "";
    product = text_at str_other fields "product" "";
    vulnerability_name = text_at str_other fields "vulnerabilityName" "";
    date_added = text_at str_other fields "dateAdded" "";
    due_date = text_at str_other fields "dueDate" "";
    known_ransomware_use =
        lower (text_at str_other fields "knownRansomwareCampaignUse" "") == "known";
    required_action = text_at str_other fields "requiredAction" "";
  }

  -- One round of the loop: an item without an id is passed over.
  unfoldable pub parse_item : Dict String KevEntry → Json → Outcome JsonError (Dict String KevEntry)
  unfolding entry_of
  parse_item entries (json_object fields) =
      let cve_id = upper (text_at str_other fields "cveID" "") in
      if cve_id == ""
      then returns entries
      else returns (put entries cve_id (entry_of fields cve_id))
  parse_item entries _ = raises attribute_error

  unfoldable pub parse_items :
      Dict String KevEntry → JsonList → Outcome JsonError (Dict String KevEntry)
  unfolding parse_item
  parse_items entries no_item = returns entries
  parse_items entries (item value items) =
      parse_item entries value >>= λ more. parse_items more items

  unfoldable pub parse_catalog : JsonObject → Outcome JsonError KevCatalog
  unfolding parse_items items_at
  parse_catalog payload = do
    items ← items_at payload "vulnerabilities"
    entries ← parse_items [] items
    returns (record {
      version = text_at str_other payload "catalogVersion" "unknown";
      released = text_at str_other payload "dateReleased" "";
      entries = entries;
    })
