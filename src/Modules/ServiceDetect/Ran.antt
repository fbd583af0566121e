-- ===== src/Modules/ServiceDetect/Ran.antt =====
-- `run` of backend/app/modules/service_detect.py as a whole.
use scan_ledger.Prelude.{
  ℕ, ◌≡◌, refl, sym, ap, ◌∙◌, subst, arith, Bool, any, Option, List, [], ◌∷◌, ◌++◌, map, All,
  String, string_eq, if◌then◌else◌, Outcome, returns, >>=-returns, returns-injective,
}
use scan_ledger.Net.{IpAddress}
use scan_ledger.Models.Findings.{Finding}
use scan_ledger.Guard.Scope.{ScopeProfile}
use scan_ledger.Guard.Connect.{Answer, ConnectError}
use scan_ledger.Guard.Stream.{Bytes, GuardedStream, Opening, StreamState, open_stream}
use scan_ledger.Scan.Concurrency.{concat, in_bounded_waves}
use scan_ledger.Scan.Concurrency.Waves.{in_bounded_waves_lem}
use scan_ledger.Modules.Sweep.{ProbeResult, collect}
use scan_ledger.Modules.Sweep.Collected.{kept_of, over_budget_of, collect-returns}
use scan_ledger.Modules.OpenPorts.{open_ports_by_host}
use scan_ledger.Modules.OpenPorts.Told.{open_ports_by_host_told}
use scan_ledger.Modules.Fingerprints.{Re}
use scan_ledger.Modules.ServiceDetect.{
  ServiceContext, ServiceFacts, identify, identify_all, host_ports, run_service_detect,
  no_ports_warning, service_budget_warning,
}
use scan_ledger.Modules.ServiceDetect.Identified.{
  Identified, Yields, service_at-Yields, meets_budget, over_budget_of-identify, service_at,
  All-service_at, All-host_ports,
}

module _ {V R W : Type 0} (str_address : IpAddress → String) (decode : Bytes → String) (re : Re)
    (context : ServiceContext V (GuardedStream R W)) where
  kept-services :
      (probes : List (String × ℕ))
      → concat (map kept_of (map (identify str_address decode re context) probes))
        ≡ concat (map (service_at str_address decode re context) probes)
  kept-services [] = refl
  kept-services (f ∷ probes) =
      ap (λ r. service_at str_address decode re context f ++ r) (kept-services probes)

  -- The probes of a run: the ports that the earlier findings tell of, host by host.
  abbrev pub service_probes : List (String × ℕ)
  service_probes = host_ports (open_ports_by_host context.prior_findings)

  -- The warning that the outcomes of the probes call for.
  abbrev pub warned_of : Bool → List (String × List ℕ) → List String
  warned_of reached [] = no_ports_warning ∷ []
  warned_of reached (entry ∷ entries) = if reached then service_budget_warning ∷ [] else []

  abbrev pub any_over_budget : Bool
  any_over_budget = any service_probes (meets_budget str_address decode re context)

  budget-probes :
      (probes : List (String × ℕ))
      → any (map (identify str_address decode re context) probes) over_budget_of
        ≡ any probes (meets_budget str_address decode re context)
  budget-probes [] = refl
  budget-probes (f ∷ probes) =
      rw (over_budget_of-identify str_address decode re context f, budget-probes probes) refl

  identify_all-returns :
      (probes : List (String × ℕ)) (result : ProbeResult ServiceFacts)
      → identify_all str_address decode re context probes ≡ returns result
      → (result.findings ≡ concat (map (service_at str_address decode re context) probes))
        × (result.warnings ≡ (
            if any probes (meets_budget str_address decode re context)
            then service_budget_warning ∷ []
            else []))
  unfolding identify_all
  identify_all-returns probes result h =
      let probe : String × ℕ → Outcome ConnectError (Option (Finding ServiceFacts)) =
        identify str_address decode re context in
      let (swept, c, built) = >>=-returns (collect (in_bounded_waves 32 probe probes)) _ h in
      let landed : collect (map probe probes) ≡ returns swept =
        subst (λ o. collect o ≡ returns swept)
          (in_bounded_waves_lem 32 probe probes (omega arith)).0 c in
      let (kept, budget) = collect-returns (map probe probes) swept landed in
      subst
        (λ r.
          (r.findings ≡ concat (map (service_at str_address decode re context) probes))
          × (r.warnings ≡ (
              if any probes (meets_budget str_address decode re context)
              then service_budget_warning ∷ []
              else [])))
        (returns-injective built)
        (
          kept ∙ kept-services probes,
          ap (λ b. if b then service_budget_warning ∷ [] else []) (budget ∙ budget-probes probes),
        )

  run_service_detect-returns :
      (result : ProbeResult ServiceFacts)
      → run_service_detect str_address decode re context ≡ returns result
      → (result.findings ≡ concat (map (service_at str_address decode re context) service_probes))
        × (result.warnings ≡ warned_of any_over_budget (open_ports_by_host context.prior_findings))
  unfolding run_service_detect
  run_service_detect-returns result h = of_ports (open_ports_by_host context.prior_findings) h
    where
      of_ports :
          (open_ports : List (String × List ℕ))
          → (elim open_ports [
            | [] ↦ returns (record { findings = []; warnings = no_ports_warning ∷ [] })
            | entry ∷ entries ↦
                identify_all str_address decode re context (host_ports (entry ∷ entries))
          ])
            ≡ returns result
          → (result.findings
              ≡ concat (map (service_at str_address decode re context) (host_ports open_ports)))
            × (result.warnings
                ≡ warned_of
                    (any (host_ports open_ports) (meets_budget str_address decode re context))
                    open_ports)
      of_ports [] e =
          unfold host_ports in
          subst (λ r. (r.findings ≡ []) × (r.warnings ≡ no_ports_warning ∷ []))
            (returns-injective e) (refl, refl)
      of_ports (entry ∷ entries) e = identify_all-returns (host_ports (entry ∷ entries)) result e

  pub record ServicesFound (scope : ScopeProfile) (result : ProbeResult ServiceFacts) : Type 0 where
    pub each_once :
        result.findings ≡ concat (map (service_at str_address decode re context) service_probes)
    pub each_probe : All (Yields str_address decode re context) service_probes
    pub warned :
        result.warnings ≡ warned_of any_over_budget (open_ports_by_host context.prior_findings)
    pub identified : All (Identified str_address decode re context scope) result.findings

  -- When service detection returns, its findings are those of the ports that earlier findings tell are open,
  -- one each, in their order, and none only by a cancel, without an address or when the stream did not
  -- open. Every one is of a host and a port that an earlier finding tells is
  -- open, and was learned from a stream to an address that the guard cleared for a connection. Its version
  -- is what a pattern of the table or the Server header reads off the banner, which is what the host
  -- volunteered or else answered; its confidence is high only with a version; and a host that said
  -- nothing is given no product, no version and low confidence. The warnings say
  -- that no port was open, or that a probe met a used up budget. Each stream of the run is a call of the
  -- guard's `open_stream` with the active profile, in any state.
  pub run_service_detect-ServicesFound :
      (scope : ScopeProfile) (answers : IpAddress → ℕ → Answer)
      (openings : IpAddress → ℕ → Bool → Opening R W) (states : IpAddress → ℕ → StreamState)
      → ((a : IpAddress) (p : ℕ) (use_tls : Bool)
          → context.stream_of a p use_tls
            ≡ (open_stream scope
                (answers a p)
                (openings a p)
                context.target
                a
                p
                use_tls
                (states a p)).0)
      → (result : ProbeResult ServiceFacts)
      → run_service_detect str_address decode re context ≡ returns result
      → ServicesFound scope result
  run_service_detect-ServicesFound scope answers openings states calls result h =
      let (found, warned) = run_service_detect-returns result h in
      record {
        each_once = found;
        each_probe = each service_probes;
        warned = warned;
        identified = subst (All (Identified str_address decode re context scope)) (sym found) (
            All-service_at str_address decode re context scope answers openings states calls
              service_probes
              (All-host_ports _ (open_ports_by_host context.prior_findings)
                (open_ports_by_host_told context.prior_findings)));
      }
    where
      each : (probes : List (String × ℕ)) → All (Yields str_address decode re context) probes
      each [] = tt
      each (f ∷ probes) = (service_at-Yields str_address decode re context f, each probes)
