-- ===== src/Tests/Serving.antt =====
-- The theorems about the services at concrete inputs.
use scan_ledger.Prelude.{
  ℕ, ◌+◌, ◌/◌, ◌≤◌, ◌≡◌, ◌⊎◌, refl, arith, false, none, some, List, [], ◌∷◌, String, string_eq,
  nat_eq, ◌==◌, if◌then◌else◌, returns, raises, count_if, All,
}
use scan_ledger.Guard.Scope.{create as scope_of}
use scan_ledger.Services.Scans.{attestation_required, create_scan}
use scan_ledger.Services.Scans.Gates.{Refused, create_scan-raises}
use scan_ledger.Services.Outbound.{
  GatewayError, SplitUrl, Reply, unreachable, replied, create, get_json, check_url,
  provider_unavailable,
}
use scan_ledger.Services.Outbound.Grants.{Within}
use scan_ledger.Services.Outbound.Window.{acquire_all, limiter_window}
use scan_ledger.Services.Outbound.Retries.{
  IsSafe, is_request, outcome_of, replies_from, get_json-Safe,
}
use scan_ledger.Tests.Lab.{registry, request, stored, reader, resolver}

create_scan-raises_example :
    Refused reader resolver registry "s2" 20 (request false) stored stored attestation_required
unfolding create_scan
create_scan-raises_example =
    create_scan-raises reader resolver registry "s2" 20 (request false) stored stored
      attestation_required refl

awake : (now wait : ℕ) → now + wait ≤ now + wait
awake now wait = omega arith

limiter_window_example :
    (grants : List ℕ) × (acquire_all
        (λ now wait. now + wait)
        awake
        2
        (record { limit = 2; window = 1000; timestamps = [] })
        0
        (0 ∷ 0 ∷ 0 ∷ [])
      ≡ some grants)
    × Within 2 1000 grants
limiter_window_example =
    limiter_window (λ now wait. now + wait) awake 2 1000 0 (0 ∷ 0 ∷ 0 ∷ []) (omega arith)
      (omega arith)

abbrev split : String → SplitUrl
split url = record { scheme = "https"; hostname = some "www.cisa.gov" }

abbrev second_time : ℕ → Reply
second_time attempt = if attempt == 1 then unreachable else replied 200 (some "{}") none

abbrev drawn : ℕ → ℕ → ℕ
drawn attempt ceiling = ceiling / 2

drawn_below : (attempt ceiling : ℕ) → drawn attempt ceiling ≤ ceiling
drawn_below attempt ceiling = omega arith

get_json-Safe_example :
    let (result, actions) =
      get_json split (λ s. s) second_time drawn (create (some "key")) "https://www.cisa.gov/feed" in
    All (IsSafe split (λ s. s)) actions
    × (count_if actions is_request ≤ 4)
    × (((x : GatewayError) × (check_url split (λ s. s) "https://www.cisa.gov/feed" ≡ raises x)
          × (result ≡ raises x)
          × (actions ≡ []))
        ⊎ ((check_url split (λ s. s) "https://www.cisa.gov/feed"
              ≡ returns "https://www.cisa.gov/feed")
            × (result ≡ outcome_of (provider_unavailable none) (replies_from second_time 4 1))))
get_json-Safe_example =
    get_json-Safe split (λ s. s) second_time drawn (create (some "key")) "https://www.cisa.gov/feed"
      drawn_below
