-- ===== src/Guard/Resolver.antt =====
-- backend/app/guard/resolver.py. What the operating system's resolver answers is an argument.
use scan_ledger.Prelude.{
  Option, none, some, List, [], ◌∷◌, String, ◌==◌, any, Outcome, returns, raises, if◌then◌else◌,
}
use scan_ledger.Net.{IpAddress, address_eq}
use scan_ledger.Guard.Ranges.{Reason, unresolved}

-- `tuple(dict.fromkeys(…))`: the first of equal elements stays.
unfoldable pub from_keys_after : List IpAddress → List IpAddress → List IpAddress
from_keys_after seen [] = []
from_keys_after seen (a ∷ others) =
    let rest = from_keys_after (if any seen (λ b. b == a) then seen else a ∷ seen) others in
    if any seen (λ b. b == a) then rest else a ∷ rest

unfoldable pub from_keys : List IpAddress → List IpAddress
unfolding from_keys_after
from_keys others = from_keys_after [] others

-- `resolve_hostname`: `none` from the system is a `gaierror`.
unfoldable pub resolve_hostname :
    (String → Option (List IpAddress)) → String → Outcome Reason (List IpAddress)
unfolding from_keys
resolve_hostname getaddrinfo hostname = elim (getaddrinfo hostname) [
  | none ↦ raises (unresolved hostname)
  | some infos ↦ elim (from_keys infos) [
    | [] ↦ raises (unresolved hostname)
    | a ∷ others ↦ returns (a ∷ others)
  ]
]
