-- ===== src/Guard/Scope.antt =====
-- `ScopeProfile` and `_parse_scope_entry` of backend/app/guard/scanguard.py. What Python's
-- `ipaddress` reads from a text is a parameter.
pub mod Lab
use scan_ledger.Prelude.{
  ℕ, ◌≡◌, Bool, true, false, Option, none, some, List, [], ◌∷◌, ◌++◌, String, string_eq, ◌==◌, any,
  if◌then◌else◌, Outcome, returns, raises, ◌>>=◌,
}
use scan_ledger.Text.{strip}
use scan_ledger.Net.{IpAddress, IpNetwork, in_network}
use scan_ledger.Net.Laws.{IsNetwork}
use scan_ledger.Guard.Ranges.{
  Reason, allowed_ranges_for, check_prefix_breadth, network_within_allowed,
}

-- `ipaddress.ip_network(text, strict=False)` and `ipaddress.ip_address(text)`, with `none` for a
-- ValueError; the first clears the host bits.
pub record IpReader : Type 0 where
  pub ip_network : String → Option IpNetwork
  pub ip_address : String → Option IpAddress
  pub ip_network-IsNetwork :
      (text : String) (n : IpNetwork) → ip_network text ≡ some n → IsNetwork n

pub data ScopeValidationError : Type 0 where
  no_entries empty_entry : ScopeValidationError
  invalid_entry : String → ScopeValidationError
  entry_too_broad : String → Reason → ScopeValidationError
  entry_not_allowed : String → ScopeValidationError

pub record ScopeProfile : Type 0 where
  pub name : String
  pub entries : List String
  pub networks : List IpNetwork
  pub allow_cgnat : Bool
  pub allow_link_local : Bool

unfoldable pub contains_address : ScopeProfile → IpAddress → Bool
contains_address s a = any s.networks (λ n. in_network a n)

unfoldable pub contains_network : ScopeProfile → IpNetwork → Bool
contains_network s n = network_within_allowed n s.networks

module _ (reader : IpReader) where
  unfoldable pub parse_scope_entry : String → Outcome ScopeValidationError IpNetwork
  parse_scope_entry raw =
      let text = strip raw in
      if text == ""
      then raises empty_entry
      else elim (reader.ip_network text) [ none ↦ raises (invalid_entry raw) | some n ↦ returns n ]

  -- One round of the loop of `create`.
  unfoldable pub admit_entry : List IpNetwork → String → Outcome ScopeValidationError IpNetwork
  unfolding parse_scope_entry
  admit_entry allowed raw = do
    network ← parse_scope_entry raw
    elim (check_prefix_breadth network) [
      | some problem ↦ raises (entry_too_broad raw problem)
      | none ↦
          if network_within_allowed network allowed
          then returns network
          else raises (entry_not_allowed raw)
    ]

  unfoldable pub admit_entries :
      List IpNetwork → List String → Outcome ScopeValidationError (List IpNetwork)
  unfolding admit_entry
  admit_entries allowed [] = returns []
  admit_entries allowed (raw ∷ raws) = do
    network ← admit_entry allowed raw
    networks ← admit_entries allowed raws
    returns (network ∷ networks)

  -- `ScopeProfile.create`
  unfoldable pub create :
      String → List String → Bool → Bool → Outcome ScopeValidationError ScopeProfile
  unfolding admit_entries
  create name [] cgnat link_local = raises no_entries
  create name (raw ∷ raws) cgnat link_local = do
    networks ← admit_entries (allowed_ranges_for cgnat link_local) (raw ∷ raws)
    returns (record {
      name = name;
      entries = raw ∷ raws;
      networks = networks;
      allow_cgnat = cgnat;
      allow_link_local = link_local;
    })
