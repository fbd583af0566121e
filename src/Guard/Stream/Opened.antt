-- ===== src/Guard/Stream/Opened.antt =====
-- `ScanGuard.open_stream` of backend/app/guard/scanguard.py: what it leaves behind.
use scan_ledger.Prelude.{
  ℕ, ◌≡◌, arith, Bool, false, none, List, [], ◌∷◌, ◌++◌, Outcome, returns, raises, Outcome-cases,
  inl, inr, ◌↔◌,
}
use mathlib.Core.List.{append-nil}
use scan_ledger.Net.{IpAddress}
use scan_ledger.Guard.Scope.{ScopeProfile}
use scan_ledger.Guard.ScanGuard.{TargetRejected, ValidatedTarget}
use scan_ledger.Guard.Connect.{
  Answer, ConnectError, target_rejected, GuardState, deny_connect, connect,
}
use scan_ledger.Guard.Connect.Safety.{Cleared, denial_of-none}
use scan_ledger.Guard.Stream.{
  GuardedStream, Opening, StreamState, tls_info, wrap, upgrade, open_stream,
}

connect_returned :
    (scope : ScopeProfile) (answer : Answer) (target : ValidatedTarget) (a : IpAddress) (port : ℕ)
    (g : GuardState) (u : Unit {0})
    → (connect scope answer target a port g).0 ≡ returns u
    → Cleared scope target a port
unfolding connect deny_connect
connect_returned scope answer target a port g u h = ground (arith, denial_of-none scope a)

module _ {R W : Type 0} where
  -- The sockets that a call with this result leaves open.
  abbrev pub left_open :
      Outcome ConnectError (GuardedStream R W) → IpAddress → ℕ → List (IpAddress × ℕ)
  left_open (returns _) a port = (a, port) ∷ []
  left_open (raises _) a port = []

  module _ (scope : ScopeProfile) (answer : Answer) (opening : Bool → Opening R W)
      (target : ValidatedTarget) (a : IpAddress) (port : ℕ) (use_tls : Bool) (s : StreamState) where
    -- `open_stream` makes no connection and writes no ledger entry of its own: the guard's state after it is
    -- the one that `connect` leaves. A call that raises leaves no socket open, one that returns leaves the one
    -- that `connect` made, and the flag of the network boundary is as it was.
    pub open_stream-connect :
        let (result, t) = open_stream scope answer opening target a port use_tls s in
        (t.guard ≡ (connect scope answer target a port s.guard).1)
        × (t.sockets ≡ s.sockets ++ left_open result a port)
        × (t.guard_active ≡ s.guard_active)
    unfolding open_stream upgrade
    open_stream-connect = ground (arith, append-nil s.sockets)

    -- A stream that `open_stream` returns leads to an address that the validated target covers, that is in no
    -- class that is always denied and that the scope profile contains, at a port in range, and it carries
    -- facts of TLS if and only if TLS was asked for.
    pub open_stream-Cleared :
        (stream : GuardedStream R W)
        → (open_stream scope answer opening target a port use_tls s).0 ≡ returns stream
        → Cleared scope target a port × (stream.tls ≡ none ↔ use_tls ≡ false)
    unfolding open_stream upgrade wrap tls_info
    open_stream-Cleared stream h = (
      (elim (Outcome-cases (connect scope answer target a port s.guard).0) [
        | inl (u, e) ↦ connect_returned scope answer target a port s.guard u e
        | inr (x, e) ↦ ground (arith, e)
      ]),
      ground arith,
    )

    -- `open_stream` refuses nothing that `connect` does not refuse.
    pub open_stream-rejected :
        (x : TargetRejected)
        → (open_stream scope answer opening target a port use_tls s).0 ≡ raises (target_rejected x)
        → (connect scope answer target a port s.guard).0 ≡ raises (target_rejected x)
    unfolding open_stream upgrade wrap
    open_stream-rejected x h = ground arith
