-- ===== src/Modules/PortScan/Runs.antt =====
-- `run` of backend/app/modules/port_scan.py against what its connects gave.
use scan_ledger.Prelude.{
  ℕ, ◌≡◌, refl, sym, ap, ◌∙◌, subst, arith, Bool, true, false, ◌&&◌, not, any, List, [], ◌∷◌, All,
  String, string_eq, select, map, if◌then◌else◌, Outcome, returns, raises, >>=-returns,
  returns-injective,
}
use scan_ledger.Net.{IpAddress}
use scan_ledger.Guard.Connect.{
  ConnectError, connection_refused, timeout_error, other_os_error, over_budget,
}
use scan_ledger.Scan.Concurrency.{concat, default_wave_size, in_bounded_waves}
use scan_ledger.Scan.Concurrency.Waves.{in_bounded_waves_lem}
use scan_ledger.Modules.Ports.{resolve_ports, iter_target_addresses}
use scan_ledger.Modules.Sweep.{
  ModuleContext, ProbeResult, Swept, collect, pairs, lift_module, lift_connect,
}
use scan_ledger.Modules.Sweep.Collected.{
  kept_of, over_budget_of, Taken, collect-returns, collect-total, lift_module-returns,
  lift_connect-returns,
}
use scan_ledger.Modules.PortScan.{
  PortState, port_open, port_closed, port_filtered, PortObservation, PortFacts, probe, probe_state,
  to_findings, sweep, run, budget_warning,
}
use scan_ledger.Modules.PortScan.Hosts.{
  at_address, of_host, TellsOf, report-TellsOf, to_findings-host,
}

-- The answer to a connect, if it is one: accepted is open, refused is closed, no answer is filtered.
abbrev pub answer_of : Outcome ConnectError (Unit {0}) → List PortState
answer_of (returns _) = port_open ∷ []
answer_of (raises connection_refused) = port_closed ∷ []
answer_of (raises timeout_error) = port_filtered ∷ []
answer_of (raises other_os_error) = port_filtered ∷ []
answer_of (raises _) = []

abbrev pub is_budget : Outcome ConnectError (Unit {0}) → Bool
is_budget (raises (over_budget _)) = true
is_budget _ = false

pub All-map :
    {A B : Type 0} (P : B → Type 0) (f : A → B) (xs : List A)
    → All (λ x. P (f x)) xs
    → All P (map f xs)
All-map P f [] h = tt
All-map P f (x ∷ xs) h = (h.0, All-map P f xs h.1)

module _ (str_address : IpAddress → String) (context : ModuleContext) where
  -- What one probe observes.
  abbrev pub seen : IpAddress × ℕ → List PortObservation
  seen (a, p) =
      if context.cancel_at a p
      then []
      else map (λ s. record { address = str_address a; port = p; state = s })
          (answer_of (context.connect_of a p))

  abbrev pub budget_hit : IpAddress × ℕ → Bool
  budget_hit (a, p) = not (context.cancel_at a p) && is_budget (context.connect_of a p)

  kept_of-probe : (f : IpAddress × ℕ) → kept_of (probe str_address context f) ≡ seen f
  unfolding probe probe_state
  kept_of-probe (a, p) = ground arith

  over_budget_of-probe :
      (f : IpAddress × ℕ) → over_budget_of (probe str_address context f) ≡ budget_hit f
  unfolding probe probe_state
  over_budget_of-probe (a, p) = ground arith

  kept-probes :
      (probes : List (IpAddress × ℕ))
      → concat (map kept_of (map (probe str_address context) probes)) ≡ concat (map seen probes)
  kept-probes [] = refl
  kept-probes (f ∷ probes) = rw (kept_of-probe f, kept-probes probes) refl

  budget-probes :
      (probes : List (IpAddress × ℕ))
      → any (map (probe str_address context) probes) over_budget_of ≡ any probes budget_hit
  budget-probes [] = refl
  budget-probes (f ∷ probes) = rw (over_budget_of-probe f, budget-probes probes) refl

  waves_run :
      (probes : List (IpAddress × ℕ))
      → in_bounded_waves default_wave_size (probe str_address context) probes
        ≡ map (probe str_address context) probes
  waves_run probes =
      (in_bounded_waves_lem default_wave_size (probe str_address context) probes (omega arith)).0

  swept_lem :
      (addresses : List IpAddress) (ports : List ℕ) (swept : Swept PortObservation)
      → sweep str_address context addresses ports ≡ returns swept
      → (swept.kept ≡ concat (map seen (pairs addresses ports)))
        × (swept.budget_reached ≡ any (pairs addresses ports) budget_hit)
  unfolding sweep
  swept_lem addresses ports swept h =
      let probes = pairs addresses ports in
      let landed : collect (map (probe str_address context) probes) ≡ returns swept =
        subst (λ o. collect o ≡ returns swept) (waves_run probes) h in
      let (kept, budget) = collect-returns (map (probe str_address context) probes) swept landed in
      (kept ∙ kept-probes probes, budget ∙ budget-probes probes)

  pub sweep-total :
      (addresses : List IpAddress) (ports : List ℕ)
      → All (λ f. Taken (probe str_address context f)) (pairs addresses ports)
      → (swept : Swept PortObservation) × (sweep str_address context addresses ports
          ≡ returns swept)
  unfolding sweep
  sweep-total addresses ports taken =
      let probes = pairs addresses ports in
      rw (waves_run probes) (
        collect-total (map (probe str_address context) probes)
          (All-map Taken (probe str_address context) probes taken))

  -- What a run reports, against the probes of every address at every port.
  pub record Reported (result : ProbeResult PortFacts) : Type 0 where
    pub ports : List ℕ
    pub addresses : List IpAddress
    pub resolved : resolve_ports context.options ≡ returns ports
    pub expanded : iter_target_addresses context.target ≡ returns addresses
    pub of_each_host :
        (h : String)
        → TellsOf
            (select (concat (map seen (pairs addresses ports))) (at_address h))
            (select result.findings (of_host h))
    pub warned :
        result.warnings
        ≡ (if any (pairs addresses ports) budget_hit then budget_warning ∷ [] else [])

  -- When `run` returns, the findings of a host are those that the probes of its address observed, for
  -- every address of the target and every selected port: one finding per port that accepted, in ascending
  -- order, and one summary with these ports and the numbers of those that were answered, that refused and
  -- that gave no answer. A host without an observation has no finding. The warning is there
  -- if and only if a probe met a used up budget.
  pub run-Reported :
      (result : ProbeResult PortFacts) → run str_address context ≡ returns result → Reported result
  unfolding run
  run-Reported result h =
      let (ports, p, rest) = >>=-returns (lift_module (resolve_ports context.options)) _ h in
      let (addresses, a, rest') =
        >>=-returns (lift_module (iter_target_addresses context.target)) _ rest in
      let (swept, c, built) =
        >>=-returns (lift_connect (sweep str_address context addresses ports)) _ rest' in
      let (kept, budget) = swept_lem addresses ports swept (lift_connect-returns _ swept c) in
      subst Reported (returns-injective built) (record {
        ports = ports;
        addresses = addresses;
        resolved = lift_module-returns _ ports p;
        expanded = lift_module-returns _ addresses a;
        of_each_host = λ host.
            subst (TellsOf _)
              (sym
                (ap (λ os. select (to_findings os) (of_host host)) kept ∙ to_findings-host host _))
              (report-TellsOf host _);
        warned = ap (λ b. if b then budget_warning ∷ [] else []) budget;
      })
