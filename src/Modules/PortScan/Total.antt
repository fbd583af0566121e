-- ===== src/Modules/PortScan/Total.antt =====
-- `run` of backend/app/modules/port_scan.py on a target that the guard has validated.
use scan_ledger.Prelude.{
  ℕ, ◌≡◌, ◌≢◌, refl, arith, true, List, [], ◌∷◌, String, map, All, All-append, All-imp, Outcome,
  returns, raises, sym, ◌∙◌,
}
use scan_ledger.Net.{IpAddress}
use scan_ledger.Guard.Ranges.{Reason}
use scan_ledger.Guard.Ledger.{Ledger}
use scan_ledger.Guard.Scope.{IpReader, ScopeProfile}
use scan_ledger.Guard.Scope.Lab.{IsValid}
use scan_ledger.Guard.ScanGuard.{TargetRejected, covers, validate_target}
use scan_ledger.Guard.Connect.{
  Answer, ConnectError, target_rejected, over_budget, still_waiting, GuardState, connect,
}
use scan_ledger.Guard.ScanGuard.Proven.{validated-IsNetwork}
use scan_ledger.Guard.Connect.Validated.{validated_not_rejected}
use scan_ledger.Modules.Ports.{resolve_ports, iter_target_addresses}
use scan_ledger.Modules.Ports.Covered.{IsPort, resolve_ports-IsPort, iter_target_addresses-covers}
use scan_ledger.Modules.Sweep.{ModuleContext, ProbeResult, Swept, pairs}
use scan_ledger.Modules.Sweep.Collected.{Taken, over_budget_of}
use scan_ledger.Modules.PortScan.{
  PortObservation, PortFacts, probe, probe_state, result_of, sweep, run,
}
use scan_ledger.Modules.PortScan.Runs.{sweep-total}

module _ {A B : Type 0} (R : A × B → Type 0) where
  All-row : (a : A) (ys : List B) → All (λ b. R (a, b)) ys → All R (map (λ b. (a, b)) ys)
  All-row a [] h = tt
  All-row a (y ∷ ys) h = (h.0, All-row a ys h.1)

  All-pairs :
      {P : A → Type 0} {Q : B → Type 0}
      → ((a : A) (b : B) → P a → Q b → R (a, b))
      → (xs : List A) (ys : List B) → All P xs
      → All Q ys
      → All R (pairs xs ys)
  unfolding pairs
  All-pairs f [] ys ps qs = tt
  All-pairs f (x ∷ xs) ys ps qs =
      All-append R (map (λ b. (x, b)) ys) (pairs xs ys)
        (All-row x ys (All-imp (λ b. f x b ps.0) ys qs)) (All-pairs f xs ys ps.1 qs)

module _ (str_address : IpAddress → String) (context : ModuleContext) where
  probe-Taken :
      (a : IpAddress) (p : ℕ)
      → ((x : TargetRejected) → context.connect_of a p ≢ raises (target_rejected x))
      → context.connect_of a p ≢ raises still_waiting
      → Taken (probe str_address context (a, p))
  unfolding probe probe_state
  probe-Taken a p admitted ended x h = only_budget x (probe-raises x h) h
    where
      probe-raises :
          (x : ConnectError)
          → probe str_address context (a, p) ≡ raises x
          → context.connect_of a p ≡ raises x
      probe-raises x h = ground arith

      only_budget :
          (x : ConnectError)
          → context.connect_of a p ≡ raises x
          → probe str_address context (a, p) ≡ raises x
          → over_budget_of {A = PortObservation} (raises x) ≡ true
      only_budget (target_rejected y) e h = absurd (admitted y e)
      only_budget (over_budget y) e h = refl
      only_budget still_waiting e h = absurd (ended e)
      only_budget y e h = ground arith

  swept_run :
      (ports : List ℕ) (addresses : List IpAddress)
      → resolve_ports context.options ≡ returns ports
      → iter_target_addresses context.target ≡ returns addresses
      → (swept : Swept PortObservation) × (sweep str_address context addresses ports
          ≡ returns swept)
      → (result : ProbeResult PortFacts) × (run str_address context ≡ returns result)
  unfolding run
  swept_run ports addresses p a (swept, s) = (result_of str_address context swept, ground arith)

  -- A port scan of a target that `validate_target` returned, under a profile that `create` accepts, returns
  -- a result, if its options name ports and its target is small enough to expand: whatever the hosts
  -- answer, and also when a budget is used up, no exception ends it. Each connect of the run is a call of
  -- the guard's `connect` with that profile, in any state, that has ended.
  pub run-total :
      (reader : IpReader) (resolver : String → Outcome Reason (List IpAddress))
      (scope : ScopeProfile) (raw : String) (l l' : Ledger) (ports : List ℕ)
      (addresses : List IpAddress) (answers : IpAddress → ℕ → Answer)
      (states : IpAddress → ℕ → GuardState)
      → IsValid scope
      → validate_target scope reader resolver raw l ≡ (returns context.target, l')
      → resolve_ports context.options ≡ returns ports
      → iter_target_addresses context.target ≡ returns addresses
      → ((a : IpAddress) (p : ℕ)
          → context.connect_of a p
            ≡ (connect scope (answers a p) context.target a p (states a p)).0)
      → ((a : IpAddress) (p : ℕ) → context.connect_of a p ≢ raises still_waiting)
      → (result : ProbeResult PortFacts) × (run str_address context ≡ returns result)
  run-total reader resolver scope raw l l' ports addresses answers states valid h p a calls ended =
      swept_run ports addresses p a (
        sweep-total str_address context addresses ports (
          All-pairs _ taken addresses ports
            (iter_target_addresses-covers context.target addresses
              (validated-IsNetwork reader resolver scope raw context.target l l' h) a)
            (resolve_ports-IsPort context.options ports p)))
    where
      taken :
          (b : IpAddress) (q : ℕ)
          → covers context.target b ≡ true
          → IsPort q
          → Taken (probe str_address context (b, q))
      taken b q covered port =
          probe-Taken b q
            (λ x e.
              validated_not_rejected reader resolver scope raw context.target l l' valid h
                (answers b q) b q (states b q) covered port.0 port.1 x (sym (calls b q) ∙ e))
            (ended b q)
