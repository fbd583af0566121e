-- ===== src/Modules/ServiceDetect/Total.antt =====
-- `run` of backend/app/modules/service_detect.py on a target that the guard has validated.
use mathlib.Core.Option.{some-injective}
use scan_ledger.Prelude.{
  ℕ, ◌≡◌, ◌≢◌, refl, sym, ◌∙◌, subst, arith, Bool, true, false, any, inl, inr, Option, none, some,
  Bool-cases, List, [], ◌∷◌, map, All, All-imp, String, string_eq, ◌==◌, if◌then◌else◌, Outcome,
  returns, raises,
}
use scan_ledger.Net.{IpAddress, IpNetwork, address_eq, size, in_network}
use scan_ledger.Net.Laws.{IsNetwork}
use scan_ledger.Models.Findings.{Finding}
use scan_ledger.Guard.ScanGuard.{TargetRejected, ValidatedTarget, covers}
use scan_ledger.Guard.Scope.{ScopeProfile}
use scan_ledger.Guard.Connect.{
  Answer, ConnectError, target_rejected, over_budget, still_waiting, timeout_error,
  connection_refused, other_os_error,
}
use scan_ledger.Guard.Stream.{Bytes, GuardedStream, Opening, StreamState, open_stream}
use scan_ledger.Modules.Ports.{hosts_from}
use scan_ledger.Modules.Ports.Covered.{IsPort, hosts_from-in_network, member_of}
use scan_ledger.Modules.Sweep.Collected.{Taken, over_budget_of}
use scan_ledger.Modules.Fingerprints.{Re}
use scan_ledger.Guard.Ranges.{Reason}
use scan_ledger.Guard.Ledger.{Ledger}
use scan_ledger.Guard.Scope.{IpReader}
use scan_ledger.Guard.Scope.Lab.{IsValid}
use scan_ledger.Guard.ScanGuard.{validate_target}
use scan_ledger.Guard.ScanGuard.Proven.{validated-IsNetwork, validated_bare}
use scan_ledger.Guard.Connect.Validated.{validated_not_rejected}
use scan_ledger.Guard.Stream.Opened.{open_stream-rejected}
use scan_ledger.Scan.Concurrency.Waves.{in_bounded_waves_lem}
use scan_ledger.Modules.Sweep.{ProbeResult}
use scan_ledger.Modules.Sweep.Collected.{collect-total}
use scan_ledger.Modules.PortScan.Runs.{All-map}
use scan_ledger.Modules.OpenPorts.{open_port_of, open_ports_by_host}
use scan_ledger.Modules.OpenPorts.Told.{open_ports_by_host-All}
use scan_ledger.Modules.ServiceDetect.Identified.{All-host_ports}
use scan_ledger.Modules.ServiceDetect.{
  host_ports, identify_all, run_service_detect, services_of, no_ports_warning,
}
use scan_ledger.Modules.ServiceDetect.{
  ServiceContext, ServiceFacts, is_tls_port, first_named, address_for, identify_stream, identify,
}

module _ (str_address : IpAddress → String) where
  first_named-All :
      (P : IpAddress → Type 0) (candidates : List IpAddress) (host : String) (a : IpAddress)
      → first_named str_address candidates host ≡ some a
      → All P candidates
      → P a
  unfolding first_named
  first_named-All P [] host a h ps = ground arith
  first_named-All P (c ∷ candidates) host a h ps = elim (Bool-cases (str_address c == host)) [
    | inl e ↦ subst P (some-injective _ _ (ground arith)) ps.0
    | inr e ↦ first_named-All P candidates host a (ground arith) ps.1
  ]

  -- A target's network has its host bits cleared, and stands alone.
  abbrev pub Alone : ValidatedTarget → Type 0
  Alone target = (n : IpNetwork) → target.network ≡ some n → IsNetwork n × (target.addresses ≡ [])

  address_for-covers :
      (target : ValidatedTarget) (host : String) (a : IpAddress)
      → Alone target
      → address_for str_address target host ≡ some a
      → covers target a ≡ true
  unfolding address_for covers first_named
  address_for-covers target host a alone h = of_network target.network alone h
    where
      of_network :
          (network : Option IpNetwork)
          → Alone (record target { network = network })
          → address_for str_address (record target { network = network }) host ≡ some a
          → covers (record target { network = network }) a ≡ true
      of_network none alone h =
          first_named-All (λ b. any target.addresses (λ c. b == c) ≡ true) target.addresses host a
            (ground (arith, h)) (member_of [] target.addresses)
      of_network (some n) alone h =
          let (network, bare) = alone n refl in
          let none_first : first_named str_address target.addresses host ≡ none =
            subst (λ c. first_named str_address c host ≡ none) (sym bare) refl in
          first_named-All (λ b. in_network b n ≡ true) (hosts_from n.version n.base (size n)) host a
            (ground (arith, h, none_first))
            (hosts_from-in_network n network n.base (size n) (omega arith) (omega arith))

module _ {V R W : Type 0} (str_address : IpAddress → String) (decode : Bytes → String) (re : Re)
    (context : ServiceContext V (GuardedStream R W)) where
  -- What the guard never gives for an address and a port that are within the target.
  abbrev pub Admitted : Type 0
  Admitted =
      (a : IpAddress) (p : ℕ) (use_tls : Bool)
      → covers context.target a ≡ true
      → IsPort p
      → ((x : TargetRejected) → context.stream_of a p use_tls ≢ raises (target_rejected x))
        × (context.stream_of a p use_tls ≢ raises still_waiting)

  identify_stream-Taken :
      (host : String) (port : ℕ) (o : Outcome ConnectError (GuardedStream R W))
      → ((x : TargetRejected) → o ≢ raises (target_rejected x))
      → o ≢ raises still_waiting
      → Taken (identify_stream str_address decode re context host port o)
  unfolding identify_stream
  identify_stream-Taken host port (returns stream) admitted ended x h = ground arith
  identify_stream-Taken host port (raises timeout_error) admitted ended x h = ground arith
  identify_stream-Taken host port (raises connection_refused) admitted ended x h = ground arith
  identify_stream-Taken host port (raises other_os_error) admitted ended x h = ground arith
  identify_stream-Taken host port (raises (over_budget y)) admitted ended x h =
      subst (λ e. over_budget_of {A = Finding ServiceFacts} e ≡ true) h refl
  identify_stream-Taken host port (raises (target_rejected y)) admitted ended x h =
      absurd (admitted y refl)
  identify_stream-Taken host port (raises still_waiting) admitted ended x h = absurd (ended refl)

  identify-Taken :
      Alone str_address context.target
      → Admitted
      → (f : String × ℕ) → IsPort f.1
      → Taken (identify str_address decode re context f)
  unfolding identify
  identify-Taken alone admitted (host, port) valid =
      tested (context.cancel_at host port) (address_for str_address context.target host) refl
    where
      tested :
          (b : Bool) (o : Option IpAddress)
          → address_for str_address context.target host ≡ o
          → Taken (
              if b
              then returns none
              else elim o as (λ _. Outcome ConnectError (Option (Finding ServiceFacts))) [
                | none ↦ returns none
                | some a ↦
                    identify_stream str_address decode re context host port
                      (context.stream_of a port (is_tls_port port))
              ])
      tested true o e x h = ground arith
      tested false none e x h = ground arith
      tested false (some a) e x h =
          let covered = address_for-covers str_address context.target host a alone e in
          let (passed, ended) = admitted a port (is_tls_port port) covered valid in
          identify_stream-Taken host port (context.stream_of a port (is_tls_port port)) passed ended
            x h

  identify_all-total :
      (probes : List (String × ℕ))
      → All (λ f. Taken (identify str_address decode re context f)) probes
      → (result : ProbeResult ServiceFacts) × (identify_all str_address decode re context probes
          ≡ returns result)
  unfolding identify_all
  identify_all-total probes taken =
      let probe : String × ℕ → Outcome ConnectError (Option (Finding ServiceFacts)) =
        identify str_address decode re context in
      let (swept, e) = collect-total (map probe probes) (All-map Taken probe probes taken) in
      (
        services_of str_address decode re context swept,
        rw ((in_bounded_waves_lem 32 probe probes (omega arith)).0, e) refl,
      )

  run_of_ports :
      All
        (λ f. Taken (identify str_address decode re context f))
        (host_ports (open_ports_by_host context.prior_findings))
      → (result : ProbeResult ServiceFacts) × (run_service_detect str_address decode re context
          ≡ returns result)
  unfolding run_service_detect
  run_of_ports taken = of_ports (open_ports_by_host context.prior_findings) taken
    where
      of_ports :
          (open_ports : List (String × List ℕ))
          → All (λ f. Taken (identify str_address decode re context f)) (host_ports open_ports)
          → (result : ProbeResult ServiceFacts) × ((elim open_ports
                as (λ _. Outcome ConnectError (ProbeResult ServiceFacts)) [
                  | [] ↦ returns (record { findings = []; warnings = no_ports_warning ∷ [] })
                  | entry ∷ entries ↦
                      identify_all str_address decode re context (host_ports (entry ∷ entries))
                ])
              ≡ returns result)
      of_ports [] taken = (_, refl)
      of_ports (entry ∷ entries) taken = identify_all-total (host_ports (entry ∷ entries)) taken

  -- Service detection of a target that `validate_target` returned, under a profile that `create` accepts,
  -- returns a result, if the open ports that earlier findings tell of are from 1 to 65535: whatever the hosts
  -- answer and send, and also when a budget is used up, no exception ends it. Each stream of the run is a call
  -- of the guard's `open_stream` with that profile, in any state, that has ended.
  pub run_service_detect-total :
      (reader : IpReader) (resolver : String → Outcome Reason (List IpAddress))
      (scope : ScopeProfile) (raw : String) (l l' : Ledger) (answers : IpAddress → ℕ → Answer)
      (openings : IpAddress → ℕ → Bool → Opening R W) (states : IpAddress → ℕ → StreamState)
      → IsValid scope
      → validate_target scope reader resolver raw l ≡ (returns context.target, l')
      → All (λ f. (p : ℕ) → open_port_of f ≡ some p → IsPort p) context.prior_findings
      → ((a : IpAddress) (p : ℕ) (use_tls : Bool)
          → context.stream_of a p use_tls
            ≡ (open_stream scope
                (answers a p)
                (openings a p)
                context.target
                a
                p
                use_tls
                (states a p)).0)
      → ((a : IpAddress) (p : ℕ) (use_tls : Bool)
          → context.stream_of a p use_tls ≢ raises still_waiting)
      → (result : ProbeResult ServiceFacts) × (run_service_detect str_address decode re context
          ≡ returns result)
  run_service_detect-total reader resolver scope raw l l' answers openings states valid h ports
        calls ended =
      run_of_ports (
        All-imp (identify-Taken alone admitted)
          (host_ports (open_ports_by_host context.prior_findings))
          (All-host_ports (λ host p. IsPort p) (open_ports_by_host context.prior_findings)
            (open_ports_by_host-All (λ host p. IsPort p) context.prior_findings ports)))
    where
      alone : Alone str_address context.target
      alone n e = (
        validated-IsNetwork reader resolver scope raw context.target l l' h n e,
        validated_bare reader resolver scope raw context.target l l' h n e,
      )

      admitted : Admitted
      admitted a p use_tls covered port = (
        (λ x e.
            validated_not_rejected reader resolver scope raw context.target l l' valid h
              (answers a p) a p (states a p).guard covered port.0 port.1 x
              (open_stream-rejected scope (answers a p) (openings a p) context.target a p use_tls
                (states a p) x (sym (calls a p use_tls) ∙ e))),
        ended a p use_tls,
      )
