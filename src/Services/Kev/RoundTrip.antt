-- ===== src/Services/Kev/RoundTrip.antt =====
-- backend/app/services/providers/kev.py: what is cached of a catalog gives it back.
use mathlib.Core.List.{append_assoc, append-nil}
use scan_ledger.Prelude.{
  ◌≡◌, refl, sym, ap, ◌∙◌, subst, inl, inr, arith, Bool, true, false, Bool-cases, [], ◌∷◌, ◌++◌,
  String, string_eq, ◌==◌, beq_sound, returns, ◌>>=◌, >>=-returns, returns-injective, Dict, put,
  has, Unique, put-Unique, put_new, has-append, All,
}
use scan_ledger.Services.Json.{
  Json, JsonList, no_item, item, JsonObject, items_at, items_of, get_field, text_at, json_object,
}
use scan_ledger.Services.Kev.{
  KevEntry, KevCatalog, entry_of, ransomware_text, serialize_entry, serialize_entries,
  serialize_catalog, parse_item, parse_items, parse_catalog,
}

middle_new :
    (d : Dict String KevEntry) (k : String) (e : KevEntry) (entries : Dict String KevEntry)
    → Unique (d ++ (k, e) ∷ entries)
    → has d k ≡ false
unfolding has
middle_new [] k e entries u = refl
middle_new ((j, w) ∷ d) k e entries u = ground (
  arith,
  has-append d ((k, e) ∷ entries) j,
  string_eq.beq_iff k j,
  string_eq.beq_iff j k,
  middle_new d k e entries u.1,
)

module _ (upper lower : String → String) (str_other : Json → String) where
  -- An entry stands under its own id, which is in upper case and not empty.
  abbrev pub Clean : String × KevEntry → Type 0
  Clean (k, e) = (e.cve_id ≡ k) × (upper k ≡ k) × ((k == "") ≡ false)

  abbrev pub CleanEntries : Dict String KevEntry → Type 0
  CleanEntries d = Unique d × All Clean d

  put-Clean :
      (d : Dict String KevEntry) (k : String) (e : KevEntry)
      → All Clean d
      → Clean (k, e)
      → All Clean (put d k e)
  unfolding put
  put-Clean [] k e h c = (c, tt)
  put-Clean ((j, w) ∷ d) k e h c = elim (Bool-cases (j == k)) [
    | inl same ↦ rw same (subst (λ i. Clean (i, e)) (sym (beq_sound j k same)) c, h.1)
    | inr other ↦ rw other (h.0, put-Clean d k e h.1 c)
  ]

  module _ (upper_twice : (s : String) → upper (upper s) ≡ upper s) where
    parse_item-Clean :
        (d d' : Dict String KevEntry) (value : Json)
        → parse_item upper lower str_other d value ≡ returns d'
        → CleanEntries d
        → CleanEntries d'
    unfolding parse_item entry_of
    parse_item-Clean d d' (json_object fields) h c =
        let cve_id = upper (text_at str_other fields "cveID" "") in
        elim (Bool-cases (cve_id == "")) [
          | inl e ↦ subst CleanEntries (ground arith) c
          | inr e ↦ subst CleanEntries (ground arith) (
            put-Unique d cve_id (entry_of upper lower str_other fields cve_id) c.0,
            put-Clean d cve_id (entry_of upper lower str_other fields cve_id) c.1
                (refl, upper_twice _, e),
          )
        ]
    parse_item-Clean d d' _ h c = ground arith

    parse_items-Clean :
        (items : JsonList) (d d' : Dict String KevEntry)
        → parse_items upper lower str_other d items ≡ returns d'
        → CleanEntries d
        → CleanEntries d'
    unfolding parse_items
    parse_items-Clean no_item d d' h c = subst CleanEntries (returns-injective h) c
    parse_items-Clean (item value items) d d' h c =
        let (e, one, rest) = >>=-returns (parse_item upper lower str_other d value) _ h in
        parse_items-Clean items e d' rest (parse_item-Clean d e value one c)

    parse_catalog-Clean :
        (payload : JsonObject) (c : KevCatalog)
        → parse_catalog upper lower str_other payload ≡ returns c
        → CleanEntries c.entries
    unfolding parse_catalog
    parse_catalog-Clean payload c h =
        let (items, one, rest) = >>=-returns (items_at payload "vulnerabilities") _ h in
        let (entries, two, built) =
          >>=-returns (parse_items upper lower str_other [] items) _ rest in
        subst (λ (d : KevCatalog). CleanEntries d.entries) (returns-injective built)
          (parse_items-Clean items [] entries two (tt, tt))

  module _ (lower_known : lower "Known" ≡ "known")
      (lower_unknown : lower "Unknown" ≡ "unknown") where
    parse_item-serialize :
        (d : Dict String KevEntry) (k : String) (e : KevEntry)
        → Clean (k, e)
        → has d k ≡ false
        → parse_item upper lower str_other d (serialize_entry e) ≡ returns (d ++ (k, e) ∷ [])
    unfolding parse_item entry_of serialize_entry ransomware_text text_at get_field
    parse_item-serialize d k e c new =
        let same : upper e.cve_id ≡ k = ap upper c.0 ∙ c.1 in
        rw (same, c.2, known e.known_ransomware_use)
          (ap returns
            (put_new d k _ new ∙ ap (λ i. d ++ (k, record e { cve_id = i }) ∷ []) (sym c.0)))
      where
        known : (b : Bool) → (lower (ransomware_text b) == "known") ≡ b
        known true = rw lower_known refl
        known false = rw lower_unknown refl

    parse_items-serialize :
        (entries d : Dict String KevEntry)
        → Unique (d ++ entries)
        → All Clean entries
        → parse_items upper lower str_other d (serialize_entries entries) ≡ returns (d ++ entries)
    unfolding parse_items serialize_entries
    parse_items-serialize [] d u c = ap returns (sym (append-nil d))
    parse_items-serialize ((k, e) ∷ entries) d u c =
        ap (λ m. m >>= λ more. parse_items upper lower str_other more (serialize_entries entries))
          (parse_item-serialize d k e c.0 (middle_new d k e entries u))
        ∙ parse_items-serialize entries (d ++ (k, e) ∷ [])
            (subst Unique (sym (append_assoc d ((k, e) ∷ []) entries)) u) c.1
        ∙ ap returns (append_assoc d ((k, e) ∷ []) entries)

    -- What `serialize_catalog` writes of a catalog with clean entries is read back as the same catalog.
    parse_catalog-serialize :
        (c : KevCatalog)
        → CleanEntries c.entries
        → parse_catalog upper lower str_other (serialize_catalog c) ≡ returns c
    unfolding parse_catalog serialize_catalog text_at get_field items_at items_of
    parse_catalog-serialize c clean =
        ap (λ m. m >>= λ entries. returns (record c { entries = entries }))
          (parse_items-serialize c.entries [] clean.0 clean.1)

  -- A catalog that was parsed from any payload, serialized for the cache and parsed again is the same
  -- catalog: no entry is lost, renamed or moved, and none loses its mark for ransomware. `upper` is
  -- idempotent, and `lower` does what it does to the two words that are written.
  pub parse_catalog_round_trip :
      (payload : JsonObject) (c : KevCatalog)
      → ((s : String) → upper (upper s) ≡ upper s)
      → lower "Known" ≡ "known"
      → lower "Unknown" ≡ "unknown"
      → parse_catalog upper lower str_other payload ≡ returns c
      → parse_catalog upper lower str_other (serialize_catalog c) ≡ returns c
  parse_catalog_round_trip payload c upper_twice lower_known lower_unknown h =
      parse_catalog-serialize lower_known lower_unknown c
        (parse_catalog-Clean upper_twice payload c h)
