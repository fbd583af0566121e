-- ===== src/Guard/Connect/Safety.antt =====
-- `ScanGuard.connect` of backend/app/guard/scanguard.py: what it takes to reach a socket, and what is
-- written to the ledger.
use mathlib.Core.List.{append-nil}
use scan_ledger.Prelude.{
  ℕ, ◌≤◌, ◌<◌, ◌≡◌, ◌⊎◌, true, none, some, arith, List, [], ◌∷◌, ◌++◌, Outcome, returns, raises,
}
use scan_ledger.Net.{IpAddress, address_eq}
use scan_ledger.Guard.Ranges.{inside_scope, is_always_denied}
use scan_ledger.Guard.Ledger.{
  LedgerEntry, allowed, denied, connected, connect_failed, rejected, of_address,
}
use scan_ledger.Guard.Scope.{ScopeProfile, contains_address}
use scan_ledger.Guard.ScanGuard.{ValidatedTarget, covers, denial_of, entry}
use scan_ledger.Guard.Connect.{
  Answer, ConnectError, target_rejected, over_budget, still_waiting, GuardState, acquire, attempt,
  attempt_in_slot, deny_connect, connect,
}

-- What an address has to meet before a socket is told to connect to it.
pub record Cleared (scope : ScopeProfile) (target : ValidatedTarget) (a : IpAddress) (port : ℕ)
    : Type 0 where
  pub port_low : 0 < port
  pub port_high : port ≤ 65535
  pub covered : covers target a ≡ true
  pub not_denied : is_always_denied a ≡ none
  pub in_scope : contains_address scope a ≡ true

pub denial_of-none :
    (scope : ScopeProfile) (a : IpAddress)
    → denial_of scope a ≡ none
    → (is_always_denied a ≡ none) × (contains_address scope a ≡ true)
unfolding denial_of
denial_of-none scope a h = ground arith

module _ (answer : Answer) (a : IpAddress) (port : ℕ) (s : GuardState) where
  attempt_in_slot_attempts :
      ((attempt_in_slot answer a port s).1.attempts ≡ s.attempts)
      ⊎ ((attempt_in_slot answer a port s).1.attempts ≡ s.attempts ++ (a, port) ∷ [])
  unfolding attempt_in_slot attempt
  attempt_in_slot_attempts = ground arith

-- The ledger entry that a call with this result leaves: none for a port out of range, for a budget
-- that is used up and while the call waits.
abbrev pub entries_for : Outcome ConnectError (Unit {0}) → IpAddress → ℕ → List LedgerEntry
entries_for (returns _) a port =
    entry (of_address a) (some port) allowed inside_scope connected ∷ []
entries_for (raises (target_rejected x)) a port = elim x.target [
  | of_address b ↦ entry (of_address b) (some port) denied x.reason rejected ∷ []
  | _ ↦ []
]
entries_for (raises (over_budget x)) a port = []
entries_for (raises still_waiting) a port = []
entries_for (raises _) a port =
    entry (of_address a) (some port) allowed inside_scope connect_failed ∷ []

-- The connections that a call with this result has started.
abbrev pub attempts_for : Outcome ConnectError (Unit {0}) → IpAddress → ℕ → List (IpAddress × ℕ)
attempts_for (raises (target_rejected x)) a port = []
attempts_for (raises (over_budget x)) a port = []
attempts_for (raises still_waiting) a port = []
attempts_for _ a port = (a, port) ∷ []

module _ (scope : ScopeProfile) (answer : Answer) (target : ValidatedTarget) (a : IpAddress)
    (port : ℕ) (s : GuardState) where
  -- `connect` starts at most one connection, to the address and port that it was given, and only if
  -- the port is in range, the validated target covers the address, the address is in no class that is
  -- always denied and the scope profile contains it.
  pub connect_safe :
      ((connect scope answer target a port s).1.attempts ≡ s.attempts)
      ⊎ (((connect scope answer target a port s).1.attempts ≡ s.attempts ++ (a, port) ∷ [])
          × Cleared scope target a port)
  unfolding connect deny_connect
  connect_safe = ground (arith, attempt_in_slot_attempts answer a port s, denial_of-none scope a)

  -- What `connect` writes is settled by its result: one denied entry with the reason when it raises
  -- TargetRejected for its address, one allowed entry when a connection was started, with the outcome
  -- of the connection, and nothing when the port is out of range, a budget is used up or the call
  -- waits. A connection is started in the second case only.
  pub connect_ledger :
      let (result, t) = connect scope answer target a port s in
      (t.ledger ≡ s.ledger ++ entries_for result a port)
      × (t.attempts ≡ s.attempts ++ attempts_for result a port)
  unfolding connect deny_connect attempt_in_slot attempt acquire
  connect_ledger = ground (arith, append-nil s.ledger, append-nil s.attempts)
