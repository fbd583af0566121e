-- ===== src/Guard/Connect/Validated.antt =====
-- What `validate_target` of backend/app/guard/scanguard.py promises of the calls of `connect`.
use scan_ledger.Prelude.{ℕ, ◌≤◌, ◌<◌, ◌≡◌, ◌≢◌, true, arith, List, String, Outcome, returns, raises}
use scan_ledger.Net.{IpAddress}
use scan_ledger.Guard.Ranges.{Reason}
use scan_ledger.Guard.Ledger.{Ledger}
use scan_ledger.Guard.Scope.{IpReader, ScopeProfile}
use scan_ledger.Guard.Scope.Lab.{IsValid}
use scan_ledger.Guard.ScanGuard.{
  TargetRejected, ValidatedTarget, covers, denial_of, validate_target,
}
use scan_ledger.Guard.ScanGuard.Proven.{InScope, validate_target-Proven}
use scan_ledger.Guard.Connect.{
  Answer, target_rejected, GuardState, acquire, attempt, attempt_in_slot, connect,
}

module _ (scope : ScopeProfile) (answer : Answer) (target : ValidatedTarget) (a : IpAddress)
    (port : ℕ) (s : GuardState) where
  covered_not_rejected :
      InScope scope a
      → covers target a ≡ true
      → 0 < port
      → port ≤ 65535
      → (x : TargetRejected) → (connect scope answer target a port s).0 ≢ raises (target_rejected x)
  unfolding connect denial_of attempt_in_slot acquire attempt
  covered_not_rejected clear covered lo hi x h = ground arith

-- After `validate_target` has returned a target, under a profile that `create` accepts, `connect` with
-- that profile never refuses an address that the target covers at a port from 1 to 65535: the address
-- check at the socket agrees with the check of the whole target.
pub validated_not_rejected :
    (reader : IpReader) (resolver : String → Outcome Reason (List IpAddress)) (scope : ScopeProfile)
    (raw : String) (target : ValidatedTarget) (l l' : Ledger)
    → IsValid scope
    → validate_target scope reader resolver raw l ≡ (returns target, l')
    → (answer : Answer) (a : IpAddress) (port : ℕ) (s : GuardState) → covers target a ≡ true
    → 0 < port
    → port ≤ 65535
    → (x : TargetRejected) → (connect scope answer target a port s).0 ≢ raises (target_rejected x)
validated_not_rejected reader resolver scope raw target l l' valid h answer a port s covered =
    covered_not_rejected scope answer target a port s
      (validate_target-Proven reader resolver scope raw target l l' valid h a covered) covered
