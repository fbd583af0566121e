-- ===== src/Modules/ServiceDetect/Honest.antt =====
-- What backend/app/modules/service_detect.py makes of a banner.
use mathlib.Core.Option.{some-injective}
use scan_ledger.Prelude.{
  ℕ, ◌≡◌, refl, subst, arith, inl, inr, Option, none, some, Option-cases, Bool-cases, String,
  string_eq, ◌==◌, nat_eq, get,
}
use scan_ledger.Models.Domain.{Confidence}
use scan_ledger.Modules.Ports.{or_else}
use scan_ledger.Modules.Fingerprints.{
  Re, ServiceGuess, group_1, banner_patterns, http_server_header, well_known_service_names,
  identify_from_banner, first_match, identify_from_http_server_header, service_name_for_port,
}
use scan_ledger.Modules.Fingerprints.Stated.{
  States, HasVersion, first_match-ByPattern, first_match-HasVersion, header-InHeader,
  header-HasVersion,
}
use scan_ledger.Modules.ServiceDetect.{stated_guess, unknown_guess, guess_for}

-- A guess that the banner bears out: what it says of the version stands in the banner.
pub record Honest (re : Re) (banner : String) (guess : ServiceGuess) : Type 0 where
  pub version_stated : (v : String) → guess.version ≡ some v → States re banner v
  pub high_has_version : HasVersion guess

module _ (re : Re) where
  stated_guess-Honest :
      (banner : String) (port : ℕ) (guess : ServiceGuess)
      → stated_guess re banner port ≡ some guess
      → Honest re banner guess
  unfolding stated_guess identify_from_banner
  stated_guess-Honest banner port guess h = elim (Bool-cases (banner == "")) [
    | inl empty ↦ ground arith
    | inr full ↦ elim (Option-cases (first_match re banner_patterns banner)) [
      | inr (g, found) ↦
          let same : g ≡ guess = some-injective _ _ (ground arith) in
          subst (Honest re banner) same (record {
            version_stated =
                λ v e. inl (first_match-ByPattern re banner_patterns banner g v found e);
            high_has_version = first_match-HasVersion re banner_patterns banner g found;
          })
      | inl missing ↦ elim (Option-cases (re.search http_server_header banner)) [
        | inl none_found ↦ ground arith
        | inr (header, found) ↦
            let value : String = or_else (group_1 header) "" in
            let same : identify_from_http_server_header re value ≡ guess =
              some-injective _ _ (ground arith) in
            subst (Honest re banner) same (record {
              version_stated = λ v e. inr (header, found, header-InHeader re value v e);
              high_has_version = header-HasVersion re value;
            })
      ]
    ]
  ]

  port_name-unversioned :
      (port : ℕ) (guess : ServiceGuess)
      → service_name_for_port port ≡ some guess
      → (guess.product ≡ none) × (guess.version ≡ none) × (guess.confidence ≡ Confidence.low)
  unfolding service_name_for_port
  port_name-unversioned port guess h = elim (Option-cases (get well_known_service_names port)) [
    | inl missing ↦ ground arith
    | inr (name, found) ↦ (ground arith, ground arith, ground arith)
  ]

  -- Without a guess from the banner there is the port's usual name or none, of low confidence.
  fallback_unversioned :
      (port : ℕ)
      → let guess = or_else (service_name_for_port port) unknown_guess in
        (guess.product ≡ none) × (guess.version ≡ none) × (guess.confidence ≡ Confidence.low)
  fallback_unversioned port = of_name (service_name_for_port port) refl
    where
      of_name :
          (o : Option ServiceGuess)
          → service_name_for_port port ≡ o
          → let guess = or_else o unknown_guess in
            (guess.product ≡ none) × (guess.version ≡ none) × (guess.confidence ≡ Confidence.low)
      of_name none e = (refl, refl, refl)
      of_name (some guess) e = port_name-unversioned port guess e

  pub guess_for-Honest :
      (banner : String) (port : ℕ)
      → Honest re banner (guess_for re banner port)
        × ((stated_guess re banner port ≡ none)
            → let guess = guess_for re banner port in
              (guess.product ≡ none) × (guess.version ≡ none) × (guess.confidence ≡ Confidence.low))
  unfolding guess_for
  guess_for-Honest banner port = of_guess (stated_guess re banner port) refl
    where
      of_guess :
          (o : Option ServiceGuess)
          → stated_guess re banner port ≡ o
          → let guess = or_else o (or_else (service_name_for_port port) unknown_guess) in
            Honest re banner guess
            × ((o ≡ none)
                → (guess.product ≡ none)
                  × (guess.version ≡ none)
                  × (guess.confidence ≡ Confidence.low))
      of_guess (some guess) e =
          (stated_guess-Honest banner port guess e, λ missing. ground (arith, missing))
      of_guess none e =
          let (product, version, confidence) = fallback_unversioned port in
          (
            record {
              version_stated = λ v told. ground (arith, told, version);
              high_has_version = λ high. ground (arith, high, confidence);
            },
            λ missing. (product, version, confidence),
          )
