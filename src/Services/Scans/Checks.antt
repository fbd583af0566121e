-- ===== src/Services/Scans/Checks.antt =====
-- The checks of backend/app/services/scans.py, one at a time.
use scan_ledger.Prelude.{
  string_eq, ◌≡◌, ◌≢◌, refl, inl, inr, Option, none, some, Option-cases, arith, List, [], ◌∷◌,
  String, get, All, returns, raises,
}
use scan_ledger.Net.{IpAddress, IpNetwork}
use scan_ledger.Modules.{ModuleRegistry, ModuleMetadata, get_module}
use scan_ledger.Guard.Ledger.{Destination, of_address, of_network}
use scan_ledger.Guard.ScanGuard.{ValidatedTarget}
use scan_ledger.Services.Scans.{
  index_error, integrity_error, check_modules, resolved_of, normalized_of,
}

pub normalized_of-returns :
    (t : ValidatedTarget) (network : Option IpNetwork) (addresses : List IpAddress)
    → t.network ≡ network
    → t.addresses ≡ addresses
    → (network ≡ none → addresses ≢ [])
    → (d : Destination) × (normalized_of t ≡ returns d)
unfolding normalized_of resolved_of
normalized_of-returns t (some n) addresses p q h = (of_network n, ground arith)
normalized_of-returns t none [] p q h = absurd (h refl refl)
normalized_of-returns t none (a ∷ others) p q h = (of_address a, ground arith)

pub check_modules-get :
    (registry : ModuleRegistry) (names : List String)
    → check_modules registry names ≡ returns tt
    → All (λ name. (m : ModuleMetadata) × (get registry name ≡ some m)) names
unfolding check_modules get_module
check_modules-get registry [] h = tt
check_modules-get registry (name ∷ names) h = elim (Option-cases (get registry name)) [
  | inl e ↦ absurd (ground arith)
  | inr (m, e) ↦ ((m, e), check_modules-get registry names (ground arith))
]

pub check_modules-handled :
    (registry : ModuleRegistry) (names : List String)
    → (check_modules registry names ≢ raises index_error)
      × (check_modules registry names ≢ raises integrity_error)
unfolding check_modules get_module
check_modules-handled registry [] = (λ h. cc, λ h. cc)
check_modules-handled registry (name ∷ names) =
    let rest = check_modules-handled registry names in
    (λ h. ground (arith, rest.0), λ h. ground (arith, rest.1))
