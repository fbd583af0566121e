-- ===== src/Modules/Fingerprints/Stated.antt =====
-- backend/app/modules/fingerprints.py: a version is only ever what a service said of itself.
use mathlib.Core.Option.{some-injective}
use scan_ledger.Prelude.{
  subst, ap, refl, ◌++◌, ◌≡◌, ◌⊎◌, inl, inr, arith, Option, none, some, Option-cases, List, [], ◌∷◌,
  String,
}
use scan_ledger.Text.{strip, some_text, some_text_lem}
use scan_ledger.Models.Domain.{Confidence}
use scan_ledger.Modules.Ports.{or_else}
use scan_ledger.Modules.Fingerprints.{
  Re, Groups, confidence_of, header_guess, group_1, group_2, ServiceGuess, BannerPattern,
  banner_patterns, http_server_header, http_product_version, guess_of, first_match,
  identify_from_http_server_header,
}

-- A guess is of high confidence only with a version.
abbrev pub HasVersion : ServiceGuess → Type 0
HasVersion guess =
    guess.confidence ≡ Confidence.high → (v : String) × (some_text guess.version ≡ some v)

confidence_of-high :
    (version : Option String)
    → confidence_of version ≡ Confidence.high
    → (v : String) × (some_text version ≡ some v)
confidence_of-high version h = elim (Option-cases (some_text version)) [
  | inl missing ↦ ground arith
  | inr (v, told) ↦ (v, told)
]

header_guess-HasVersion : (found : Option Groups) → HasVersion (header_guess found)
header_guess-HasVersion none h = ground (arith, h)
header_guess-HasVersion (some groups) h = confidence_of-high (group_2 groups) h

module _ (re : Re) where
  -- The text that `v` was read off: the first group of one of these banner patterns, or the second group of the
  -- product in a Server header.
  abbrev pub ByPattern : List BannerPattern → String → String → Type 0
  ByPattern entries banner v =
      (before : List BannerPattern) × (entry : BannerPattern) × (after : List BannerPattern)
      × (entries ≡ before ++ entry ∷ after)
      × (groups : Groups) × (re.search entry.pattern banner ≡ some groups)
      × (group_1 groups ≡ some v)

  abbrev pub InHeader : String → String → Type 0
  InHeader value v =
      (groups : Groups) × (re.match_start http_product_version (strip value) ≡ some groups)
      × (group_2 groups ≡ some v)

  pub first_match-ByPattern :
      (entries : List BannerPattern) (banner : String) (guess : ServiceGuess) (v : String)
      → first_match re entries banner ≡ some guess
      → guess.version ≡ some v
      → ByPattern entries banner v
  unfolding first_match guess_of
  first_match-ByPattern [] banner guess v h e = ground arith
  first_match-ByPattern (entry ∷ entries) banner guess v h e =
      elim (Option-cases (re.search entry.pattern banner)) [
        | inl quiet ↦
            let (before, found, after, parts, groups, read, told) =
              first_match-ByPattern entries banner guess v (ground arith) e in
            (entry ∷ before, found, after, ap (λ r. entry ∷ r) parts, groups, read, told)
        | inr (groups, found) ↦ (
          [],
          entry,
          entries,
          refl,
          groups,
          found,
          some_text_lem (group_1 groups) v (ground arith),
        )
      ]

  -- `v` is what the banner states.
  abbrev pub States : String → String → Type 0
  States banner v =
      ByPattern banner_patterns banner v
      ⊎ ((header : Groups) × (re.search http_server_header banner ≡ some header)
          × InHeader (or_else (group_1 header) "") v)

  pub header-InHeader :
      (value v : String)
      → (identify_from_http_server_header re value).version ≡ some v
      → InHeader value v
  unfolding identify_from_http_server_header
  header-InHeader value v e =
      elim (Option-cases (re.match_start http_product_version (strip value))) [
        | inl quiet ↦ ground arith
        | inr (groups, found) ↦ (groups, found, ground arith)
      ]

  guess-HasVersion : (entry : BannerPattern) (groups : Groups) → HasVersion (guess_of entry groups)
  unfolding guess_of
  guess-HasVersion entry groups h = confidence_of-high (some_text (group_1 groups)) h

  pub header-HasVersion : (value : String) → HasVersion (identify_from_http_server_header re value)
  unfolding identify_from_http_server_header
  header-HasVersion value =
      header_guess-HasVersion (re.match_start http_product_version (strip value))

  pub first_match-HasVersion :
      (entries : List BannerPattern) (banner : String) (guess : ServiceGuess)
      → first_match re entries banner ≡ some guess
      → HasVersion guess
  unfolding first_match
  first_match-HasVersion [] banner guess h = ground arith
  first_match-HasVersion (entry ∷ entries) banner guess h =
      elim (Option-cases (re.search entry.pattern banner)) [
        | inl quiet ↦ first_match-HasVersion entries banner guess (ground arith)
        | inr (groups, found) ↦
            let same : guess_of entry groups ≡ guess = some-injective _ _ (ground arith) in
            subst HasVersion same (guess-HasVersion entry groups)
      ]
