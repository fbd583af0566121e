-- ===== src/Guard/ScanGuard.antt =====
-- `ValidatedTarget` and `ScanGuard.validate_target` of backend/app/guard/scanguard.py.
pub mod Proven
pub mod Ledgers
use scan_ledger.Prelude.{
  ℕ, Bool, Option, none, some, List, [], ◌∷◌, String, string_eq, ◌==◌, any, if◌then◌else◌, Outcome,
  returns, raises,
}
use scan_ledger.Text.{strip, contains}
use scan_ledger.Net.{IpAddress, address_eq, IpNetwork, in_network}
use scan_ledger.Models.Domain.{TargetType, ip, cidr, host}
use scan_ledger.Guard.Ranges.{
  Reason, outside_scope, inside_scope, target_empty, invalid_cidr, no_addresses, from_target,
  is_always_denied, network_always_denied, check_prefix_breadth,
}
use scan_ledger.Guard.Ledger.{
  Ledger, LedgerEntry, Decision, allowed, denied, ResultOf, validated, rejected, Destination,
  raw_text, of_address, of_network, record_entry,
}
use scan_ledger.Guard.Scope.{IpReader, ScopeProfile, contains_address, contains_network}

pub record TargetRejected : Type 0 where
  pub target : Destination
  pub reason : Reason

pub record ValidatedTarget : Type 0 where
  pub raw : String
  pub kind : TargetType
  pub addresses : List IpAddress
  pub network : Option IpNetwork

unfoldable pub covers : ValidatedTarget → IpAddress → Bool
covers t a = elim t.network [ some n ↦ in_network a n | none ↦ any t.addresses (λ b. a == b) ]

abbrev pub entry : Destination → Option ℕ → Decision → Reason → ResultOf → LedgerEntry
entry d p decision reason outcome = record {
  destination = d;
  port = p;
  decision = decision;
  reason = reason;
  outcome = outcome;
}

-- `_deny`
unfoldable pub deny :
    {A : Type 0} → Destination → Option ℕ → Reason → Ledger → Outcome TargetRejected A × Ledger
unfolding record_entry
deny d p reason l = (
  raises (record { target = d; reason = reason }),
  record_entry l (entry d p denied reason rejected),
)

-- The refusal that both `connect` and `_validate_addresses` compute.
unfoldable pub denial_of : ScopeProfile → IpAddress → Option Reason
denial_of scope a = elim (is_always_denied a) [
  | some reason ↦ some reason
  | none ↦ if contains_address scope a then none else some outside_scope
]

unfoldable pub network_denial_of : ScopeProfile → IpNetwork → Option Reason
network_denial_of scope n = elim (network_always_denied n) [
  | some reason ↦ some reason
  | none ↦ if contains_network scope n then none else some outside_scope
]

-- `_classify`
pub data Classified : Type 0 where
  a_network : IpNetwork → Classified
  some_addresses : TargetType → List IpAddress → Classified

unfoldable pub reject : {A : Type 0} → String → Reason → Outcome TargetRejected A
reject raw reason = raises (record { target = raw_text raw; reason = reason })

module _ (reader : IpReader) (resolver : String → Outcome Reason (List IpAddress)) where
  unfoldable pub classify : String → Outcome TargetRejected Classified
  unfolding reject
  classify raw =
      let text = strip raw in
      if text == ""
      then reject raw target_empty
      else if contains text b'/'
      then (elim (reader.ip_network text) [
        | none ↦ reject raw invalid_cidr
        | some n ↦ returns (a_network n)
      ])
      else elim (reader.ip_address text) [
        | some a ↦ returns (some_addresses ip (a ∷ []))
        | none ↦ elim (resolver text) [
          | raises reason ↦ reject raw reason
          | returns found ↦ returns (some_addresses host found)
        ]
      ]

module _ (scope : ScopeProfile) where
  -- `_validate_network`
  unfoldable pub validate_network : IpNetwork → Ledger → Outcome TargetRejected (Unit {0}) × Ledger
  unfolding deny network_denial_of record_entry
  validate_network n l = elim (check_prefix_breadth n) [
    | some problem ↦ deny (of_network n) none problem l
    | none ↦ elim (network_denial_of scope n) [
      | some reason ↦ deny (of_network n) none reason l
      | none ↦
          (returns tt, record_entry l (entry (of_network n) none allowed inside_scope validated))
    ]
  ]

  -- The first loop of `_validate_addresses`: the first address that is refused, with the reason.
  unfoldable pub first_denial : List IpAddress → Option (IpAddress × Reason)
  unfolding denial_of
  first_denial [] = none
  first_denial (a ∷ others) =
      let rest = first_denial others in
      elim (denial_of scope a) [ some reason ↦ some (a, reason) | none ↦ rest ]

  -- The second loop.
  unfoldable pub record_validated : List IpAddress → Ledger → Ledger
  unfolding record_entry
  record_validated [] l = l
  record_validated (a ∷ others) l =
      record_validated others
        (record_entry l (entry (of_address a) none allowed inside_scope validated))

  unfoldable pub validate_addresses :
      String → List IpAddress → Ledger → Outcome TargetRejected (Unit {0}) × Ledger
  unfolding reject deny
  validate_addresses raw [] l = (reject raw no_addresses, l)
  validate_addresses raw (a ∷ others) l = elim (first_denial (a ∷ others)) [
    | some (b, reason) ↦ deny (of_address b) none (from_target reason raw) l
    | none ↦ (returns tt, record_validated (a ∷ others) l)
  ]

  after :
      {A : Type 0}
      → A
      → Outcome TargetRejected (Unit {0}) × Ledger
      → Outcome TargetRejected A × Ledger
  after v (returns _, l) = (returns v, l)
  after v (raises x, l) = (raises x, l)

  validate_classified :
      String → Classified → Ledger → Outcome TargetRejected ValidatedTarget × Ledger
  unfolding after
  validate_classified raw (a_network n) l =
      after (record { raw = raw; kind = cidr; addresses = []; network = some n })
        (validate_network n l)
  validate_classified raw (some_addresses kind others) l =
      after (record { raw = raw; kind = kind; addresses = others; network = none })
        (validate_addresses raw others l)

  unfoldable pub validate_target :
      IpReader
      → (String → Outcome Reason (List IpAddress))
      → String
      → Ledger
      → Outcome TargetRejected ValidatedTarget × Ledger
  unfolding validate_classified
  validate_target reader resolver raw l = elim (classify reader resolver raw) [
    | raises x ↦ (raises x, l)
    | returns c ↦ validate_classified raw c l
  ]
