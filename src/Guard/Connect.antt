-- ===== src/Guard/Connect.antt =====
-- `ScanGuard.connect` of backend/app/guard/scanguard.py. What the network answers is an argument;
-- `attempts` records each socket that was told to connect.
pub mod Safety
pub mod Slots
pub mod Validated
use scan_ledger.Prelude.{
  ℕ, ◌≡◌, Bool, true, false, not, ◌&&◌, Option, none, some, List, [], ◌∷◌, ◌++◌, String, string_eq,
  ◌==◌, any, leb, ltb, if◌then◌else◌, Outcome, returns, raises,
}
use scan_ledger.Text.{strip, contains}
use scan_ledger.Net.{IpAddress, address_eq, IpNetwork, in_network}
use scan_ledger.Models.Domain.{TargetType, ip, cidr, host}
use scan_ledger.Scan.Governor.{
  IntensityGovernor, BudgetExceeded, check_budget, take_global, take_host, release, report_error,
  report_success,
}
use scan_ledger.Guard.Ranges.{
  Reason, outside_scope, inside_scope, bad_port, not_covered, target_empty, invalid_cidr,
  no_addresses, from_target, is_always_denied, network_always_denied, check_prefix_breadth,
}
use scan_ledger.Guard.Ledger.{
  Ledger, LedgerEntry, Decision, allowed, denied, ResultOf, connected, connect_failed, validated,
  rejected, Destination, raw_text, of_address, of_network, endpoint, record_entry,
}
use scan_ledger.Guard.Scope.{IpReader, ScopeProfile, contains_address, contains_network}
use scan_ledger.Guard.ScanGuard.{TargetRejected, ValidatedTarget, covers, entry, denial_of}

-- How the operating system and the host answer a connect.
pub data Answer : Type 0 where
  accepted refused timed_out os_error : Answer

pub data ConnectError : Type 0 where
  target_rejected : TargetRejected → ConnectError
  over_budget : BudgetExceeded IpAddress → ConnectError
  connection_refused timeout_error other_os_error : ConnectError
  -- The governor has no permit free: the call is still waiting in this state.
  still_waiting : ConnectError

pub record GuardState : Type 0 where
  pub ledger : Ledger
  pub governor : IntensityGovernor IpAddress
  pub attempts : List (IpAddress × ℕ)

abbrev pub error_of : Answer → Outcome ConnectError (Unit {0})
error_of accepted = returns tt
error_of refused = raises connection_refused
error_of timed_out = raises timeout_error
error_of os_error = raises other_os_error

-- `governor._acquire` for a call that need not wait.
unfoldable pub acquire :
    IntensityGovernor IpAddress → IpAddress → Outcome ConnectError (IntensityGovernor IpAddress)
acquire g a = elim (check_budget g a) [
  | raises x ↦ raises (over_budget x)
  | returns _ ↦ elim (take_global g) [
    | none ↦ raises still_waiting
    | some g' ↦ elim (take_host g' a) [ none ↦ raises still_waiting | some g'' ↦ returns g'' ]
  ]
]

-- The body of `async with governor.slot(host_key)` and what follows it.
unfoldable pub attempt :
    Answer → IpAddress → ℕ → GuardState → Outcome ConnectError (Unit {0}) × GuardState
unfolding record_entry
attempt accepted a port s = (
  returns tt,
  record {
    ledger =
        record_entry s.ledger (entry (of_address a) (some port) allowed inside_scope connected);
    governor = report_success (release s.governor a) a;
    attempts = s.attempts ++ (a, port) ∷ [];
  },
)
attempt failure a port s = (
  error_of failure,
  record {
    ledger =
        record_entry s.ledger
          (entry (of_address a) (some port) allowed inside_scope connect_failed);
    governor = release (report_error s.governor a) a;
    attempts = s.attempts ++ (a, port) ∷ [];
  },
)

unfoldable pub deny_connect :
    IpAddress → ℕ → Reason → GuardState → Outcome ConnectError (Unit {0}) × GuardState
unfolding record_entry
deny_connect a port reason s = (
  raises (target_rejected (record { target = of_address a; reason = reason })),
  record s {
    ledger = record_entry s.ledger (entry (of_address a) (some port) denied reason rejected);
  },
)

unfoldable pub attempt_in_slot :
    Answer → IpAddress → ℕ → GuardState → Outcome ConnectError (Unit {0}) × GuardState
attempt_in_slot answer a port s = elim (acquire s.governor a) [
  | raises x ↦ (raises x, s)
  | returns g ↦ attempt answer a port (record s { governor = g })
]

-- `connect`
unfoldable pub connect :
    ScopeProfile
    → Answer
    → ValidatedTarget
    → IpAddress
    → ℕ
    → GuardState
    → Outcome ConnectError (Unit {0}) × GuardState
connect scope answer target a port s =
    if not (ltb 0 port && leb port 65535)
    then (raises (target_rejected (record { target = endpoint a port; reason = bad_port })), s)
    else if not (covers target a)
    then deny_connect a port not_covered s
    else elim (denial_of scope a) [
      | some reason ↦ deny_connect a port reason s
      | none ↦ attempt_in_slot answer a port s
    ]
