-- ===== src/Modules/HostDiscovery/Alive.antt =====
-- What the findings of backend/app/modules/host_discovery.py prove.
use scan_ledger.Prelude.{
  ◌≡◌, refl, ap, ◌∙◌, subst, sym, arith, false, Option, none, some, List, [], ◌∷◌, ◌++◌, String,
  map, All, All-append, Outcome, returns, raises, >>=-returns, returns-injective, Bool-cases,
  Outcome-cases, Option-cases, inl, inr, ◌⊎◌,
}
use scan_ledger.Net.{IpAddress}
use scan_ledger.Text.Join.{f_string}
use scan_ledger.Models.Domain.{FindingCategory}
use scan_ledger.Models.Findings.{Finding}
use scan_ledger.Guard.Connect.{
  ConnectError, target_rejected, connection_refused, timeout_error, other_os_error,
}
use scan_ledger.Scan.Concurrency.{concat, default_wave_size}
use scan_ledger.Scan.Concurrency.Waves.{in_bounded_waves_lem}
use scan_ledger.Modules.Ports.{PortValue, resolve_discovery_ports, iter_target_addresses}
use scan_ledger.Modules.Sweep.{
  ModuleContext, ProbeResult, Swept, collect, lift_module, lift_connect,
}
use scan_ledger.Modules.Sweep.Collected.{
  kept_of, collect-returns, lift_module-returns, lift_connect-returns,
}
use scan_ledger.Modules.HostDiscovery.{
  LiveFacts, live, port_value_text, alive_finding, evidence_of, connect_value, cancel_value,
  probe_ports, discover, run_discovery,
}

-- A connect that ended without an answer of the host.
abbrev pub Unanswered : Outcome ConnectError (Unit {0}) → Type 0
Unanswered o = (o ≡ raises timeout_error) ⊎ (o ≡ raises other_os_error)

-- A connect that the host accepted or refused, and what is said of it.
abbrev pub Answered : PortValue → Outcome ConnectError (Unit {0}) → String → Type 0
Answered port o evidence =
    ((o ≡ returns tt)
      × (evidence ≡ f_string ("tcp/" ∷ port_value_text port ∷ " accepted a connection" ∷ [])))
    ⊎ ((o ≡ raises connection_refused)
        × (evidence ≡ f_string ("tcp/" ∷ port_value_text port ∷ " refused the connection" ∷ [])))

evidence_of-none :
    (port : PortValue) (o : Outcome ConnectError (Unit {0}))
    → evidence_of port o ≡ returns none
    → Unanswered o
unfolding evidence_of
evidence_of-none port (returns tt) h = absurd (ground arith)
evidence_of-none port (raises connection_refused) h = absurd (ground arith)
evidence_of-none port (raises timeout_error) h = inl refl
evidence_of-none port (raises other_os_error) h = inr refl
evidence_of-none port (raises (target_rejected d)) h = absurd (ground arith)
evidence_of-none port (raises x) h = absurd (ground arith)

evidence_of-some :
    (port : PortValue) (o : Outcome ConnectError (Unit {0})) (evidence : String)
    → evidence_of port o ≡ returns (some evidence)
    → Answered port o evidence
unfolding evidence_of
evidence_of-some port (returns tt) evidence h = inl (refl, ground arith)
evidence_of-some port (raises connection_refused) evidence h = inr (refl, ground arith)
evidence_of-some port (raises timeout_error) evidence h = absurd (ground arith)
evidence_of-some port (raises other_os_error) evidence h = absurd (ground arith)
evidence_of-some port (raises x) evidence h = absurd (ground arith)

module _ (str_address : IpAddress → String) (context : ModuleContext) where
  -- A probe that was made and got no answer.
  pub record Silent (a : IpAddress) (port : PortValue) : Type 0 where
    pub not_canceled : cancel_value str_address context a port ≡ false
    pub no_answer : Unanswered (connect_value str_address context a port)

  -- The first port that answered, after silent ones.
  pub record Life (ports : List PortValue) (a : IpAddress) (f : Finding LiveFacts) : Type 0 where
    pub before : List PortValue
    pub port : PortValue
    pub after : List PortValue
    pub parts : ports ≡ before ++ port ∷ after
    pub silent : All (Silent a) before
    pub not_canceled : cancel_value str_address context a port ≡ false
    pub evidence : String
    pub answered : Answered port (connect_value str_address context a port) evidence
    pub names_host : f.host ≡ str_address a
    pub is_live_host : f.category ≡ FindingCategory.live_host
    pub tells : f.normalized_value ≡ live (str_address a) port
    pub shows : f.raw_evidence ≡ some evidence

  Life-next :
      (port : PortValue) (ports : List PortValue) (a : IpAddress) (f : Finding LiveFacts)
      → Silent a port
      → Life ports a f
      → Life (port ∷ ports) a f
  Life-next port ports a f s l = record {
    before = port ∷ l.before;
    port = l.port;
    after = l.after;
    parts = ap (λ r. port ∷ r) l.parts;
    silent = (s, l.silent);
    not_canceled = l.not_canceled;
    evidence = l.evidence;
    answered = l.answered;
    names_host = l.names_host;
    is_live_host = l.is_live_host;
    tells = l.tells;
    shows = l.shows;
  }

  probe_ports-Life :
      (ports : List PortValue) (a : IpAddress) (f : Finding LiveFacts)
      → probe_ports str_address context ports a ≡ returns (some f)
      → Life ports a f
  unfolding probe_ports
  probe_ports-Life [] a f h = absurd (ground arith)
  probe_ports-Life (port ∷ ports) a f h =
      elim (Bool-cases (cancel_value str_address context a port)) [
        | inl e ↦ absurd (ground arith)
        | inr e ↦
            elim (Outcome-cases (evidence_of port (connect_value str_address context a port))) [
              | inr (x, r) ↦ absurd (ground arith)
              | inl (o, r) ↦ elim (Option-cases o) [
                | inl quiet ↦
                    Life-next port ports a f
                      (record {
                        not_canceled = e;
                        no_answer = evidence_of-none port _ (r ∙ ap returns quiet);
                      })
                      (probe_ports-Life ports a f (ground arith))
                | inr (evidence, said) ↦ record {
                  before = [];
                  port = port;
                  after = ports;
                  parts = refl;
                  silent = tt;
                  not_canceled = e;
                  evidence = evidence;
                  answered = evidence_of-some port _ evidence (r ∙ ap returns said);
                  names_host = unfold alive_finding in ground arith;
                  is_live_host = unfold alive_finding in ground arith;
                  tells = unfold alive_finding in ground arith;
                  shows = unfold alive_finding in ground arith;
                }
              ]
            ]
      ]

  -- A host that answers at one of the ports, after silent ones, is found alive there.
  probe_ports-Answered :
      (before after : List PortValue) (port : PortValue) (a : IpAddress) (evidence : String)
      → All (Silent a) before
      → cancel_value str_address context a port ≡ false
      → Answered port (connect_value str_address context a port) evidence
      → probe_ports str_address context (before ++ port ∷ after) a
        ≡ returns (some (alive_finding (str_address a) port evidence))
  unfolding probe_ports evidence_of
  probe_ports-Answered [] after port a evidence quiet going (inl (r, s)) = rw (going, r, s) refl
  probe_ports-Answered [] after port a evidence quiet going (inr (r, s)) = rw (going, r, s) refl
  probe_ports-Answered (p ∷ before) after port a evidence quiet going answered =
      elim quiet.0.no_answer [
        | inl e ↦
            rw (quiet.0.not_canceled, e)
              (probe_ports-Answered before after port a evidence quiet.1 going answered)
        | inr e ↦
            rw (quiet.0.not_canceled, e)
              (probe_ports-Answered before after port a evidence quiet.1 going answered)
      ]

  -- The findings of one address: none or one.
  kept-Life :
      (ports : List PortValue) (a : IpAddress)
      → All
          (λ f. (b : IpAddress) × Life ports b f)
          (kept_of (probe_ports str_address context ports a))
  kept-Life ports a = of_outcome (probe_ports str_address context ports a) refl
    where
      of_outcome :
          (o : Outcome ConnectError (Option (Finding LiveFacts)))
          → probe_ports str_address context ports a ≡ o
          → All (λ f. (b : IpAddress) × Life ports b f) (kept_of o)
      of_outcome (returns none) e = tt
      of_outcome (returns (some f)) e = ((a, probe_ports-Life ports a f e), tt)
      of_outcome (raises x) e = tt

  All-Life :
      (ports : List PortValue) (addresses : List IpAddress)
      → All
          (λ f. (a : IpAddress) × Life ports a f)
          (concat (map (λ a. kept_of (probe_ports str_address context ports a)) addresses))
  All-Life ports [] = tt
  All-Life ports (a ∷ addresses) =
      All-append _ (kept_of (probe_ports str_address context ports a)) _ (kept-Life ports a)
        (All-Life ports addresses)

  kept-probes :
      (ports : List PortValue) (addresses : List IpAddress)
      → concat (map kept_of (map (probe_ports str_address context ports) addresses))
        ≡ concat (map (λ a. kept_of (probe_ports str_address context ports a)) addresses)
  kept-probes ports [] = refl
  kept-probes ports (a ∷ addresses) =
      ap (λ r. kept_of (probe_ports str_address context ports a) ++ r) (kept-probes ports addresses)

  discover_lem :
      (addresses : List IpAddress) (ports : List PortValue) (swept : Swept (Finding LiveFacts))
      → discover str_address context addresses ports ≡ returns swept
      → swept.kept ≡ concat (map (λ a. kept_of (probe_ports str_address context ports a)) addresses)
  unfolding discover
  discover_lem addresses ports swept h =
      let probe : IpAddress → Outcome ConnectError (Option (Finding LiveFacts)) =
        probe_ports str_address context ports in
      let landed : collect (map probe addresses) ≡ returns swept =
        subst (λ o. collect o ≡ returns swept)
          (in_bounded_waves_lem default_wave_size probe addresses (omega arith)).0 h in
      (collect-returns (map probe addresses) swept landed).0 ∙ kept-probes ports addresses

  pub record Discovered (result : ProbeResult LiveFacts) : Type 0 where
    pub ports : List PortValue
    pub addresses : List IpAddress
    pub resolved : resolve_discovery_ports context.options ≡ returns ports
    pub expanded : iter_target_addresses context.target ≡ returns addresses
    pub each_once :
        result.findings
        ≡ concat (map (λ a. kept_of (probe_ports str_address context ports a)) addresses)
    pub alive : All (λ f. (a : IpAddress) × Life ports a f) result.findings
    pub answering :
        (a : IpAddress) (before after : List PortValue) (port : PortValue) (evidence : String)
        → ports ≡ before ++ port ∷ after
        → All (Silent a) before
        → cancel_value str_address context a port ≡ false
        → Answered port (connect_value str_address context a port) evidence
        → (f : Finding LiveFacts) × (kept_of (probe_ports str_address context ports a) ≡ f ∷ [])
          × Life ports a f

  -- When host discovery returns, its findings are those of the probes of the target's addresses, at most
  -- one each in their order. Every finding names an address and the first of the discovery ports at which
  -- it accepted or refused a connection, after ports at which the connect timed out or failed otherwise,
  -- with no cancel before; and an address that answers so has such a finding.
  pub run_discovery-Discovered :
      (result : ProbeResult LiveFacts)
      → run_discovery str_address context ≡ returns result
      → Discovered result
  unfolding run_discovery
  run_discovery-Discovered result h =
      let (ports, p, rest) =
        >>=-returns (lift_module (resolve_discovery_ports context.options)) _ h in
      let (addresses, a, rest') =
        >>=-returns (lift_module (iter_target_addresses context.target)) _ rest in
      let (swept, c, built) =
        >>=-returns (lift_connect (discover str_address context addresses ports)) _ rest' in
      let kept = discover_lem addresses ports swept (lift_connect-returns _ swept c) in
      subst Discovered (returns-injective built) (record {
        ports = ports;
        addresses = addresses;
        resolved = lift_module-returns _ ports p;
        expanded = lift_module-returns _ addresses a;
        each_once = kept;
        alive = subst (All _) (sym kept) (All-Life ports addresses);
        answering = λ a before after port evidence parts quiet going answered.
            let f : Finding LiveFacts = alive_finding (str_address a) port evidence in
            let probed : probe_ports str_address context ports a ≡ returns (some f) =
              rw parts (probe_ports-Answered before after port a evidence quiet going answered) in
            (f, ap kept_of probed, probe_ports-Life ports a f probed);
      })
