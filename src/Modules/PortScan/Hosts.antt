-- ===== src/Modules/PortScan/Hosts.antt =====
-- backend/app/modules/port_scan.py: how the observations of a host become its findings.
use scan_ledger.Prelude.{
  ℕ, ◌≡◌, refl, sym, ap, ◌∙◌, arith, Bool, true, false, ◌&&◌, Option, some, count_if, length, List,
  [], ◌∷◌, ◌++◌, String, string_eq, nat_eq, ◌==◌, select, select-append, map, if◌then◌else◌, Dict,
  get, Unique, put-Unique,
}
use mathlib.Core.List.{append-nil, append_assoc}
use scan_ledger.Models.Findings.{Finding}
use scan_ledger.Modules.Sweep.{append_at}
use scan_ledger.Modules.Sweep.Grouping.{boxed, from_entry, select-entries, append_at-get}
use scan_ledger.Modules.PortScan.Report.{
  Sorted, observed_open, observed_closed, observed_filtered, open_ports_lem, count_in-closed,
  count_in-filtered,
}
use scan_ledger.Modules.PortScan.{
  PortObservation, PortFacts, tcp_port, tcp_summary, port_open, open_ports_of, open_finding,
  summary_finding, host_findings, per_host, to_findings,
}

abbrev pub at_address : String → PortObservation → Bool
at_address h o = o.address == h

abbrev pub of_host : String → Finding PortFacts → Bool
of_host h f = f.host == h

-- What is reported of a host with these observations: nothing without any.
abbrev pub report : String → List PortObservation → List (Finding PortFacts)
report h observations = from_entry host_findings h (boxed observations)

-- The kind, the port and the value of a finding.
abbrev pub told_of : Finding PortFacts → String × Option ℕ × PortFacts
told_of f = (f.kind, f.port, f.normalized_value)

abbrev pub open_facts : ℕ → String × Option ℕ × PortFacts
open_facts p = ("port.open", some p, tcp_port p port_open)

-- What a host's findings say of its observations: one finding per open port, in ascending order, and the
-- counts.
pub record Told (observations : List PortObservation) (findings : List (Finding PortFacts))
    : Type 0 where
  pub ports : List ℕ
  pub opened : List (Finding PortFacts)
  pub summary : Finding PortFacts
  pub parts : findings ≡ opened ++ summary ∷ []
  pub ascending : Sorted ports
  pub as_observed :
      (p : ℕ)
      → count_if ports (λ q. q == p) ≡ count_if observations (λ o. observed_open o && (o.port == p))
  pub one_each : map told_of opened ≡ map open_facts ports
  pub summary_kind : summary.kind ≡ "port.summary"
  pub summed :
      summary.normalized_value
      ≡ tcp_summary
          (length observations)
          ports
          (count_if observations observed_closed)
          (count_if observations observed_filtered)

-- The findings of a host: none without an observation.
abbrev pub TellsOf : List PortObservation → List (Finding PortFacts) → Type 0
TellsOf [] findings = findings ≡ []
TellsOf (o ∷ observations) findings = Told (o ∷ observations) findings

pub report-TellsOf :
    (h : String) (observations : List PortObservation)
    → TellsOf observations (report h observations)
unfolding host_findings open_finding summary_finding
report-TellsOf h [] = refl
report-TellsOf h (o ∷ observations) =
    let all : List PortObservation = o ∷ observations in
    let (ascending, as_observed, total) = open_ports_lem all in
    record {
      ports = open_ports_of all;
      opened = _;
      summary = summary_finding h all;
      parts = refl;
      ascending = ascending;
      as_observed = as_observed;
      one_each = each (open_ports_of all);
      summary_kind = refl;
      summed = rw (count_in-closed all, count_in-filtered all) refl;
    }
  where
    each : (ports : List ℕ) → map told_of (map (open_finding h) ports) ≡ map open_facts ports
    each [] = refl
    each (p ∷ ports) = ap (λ r. open_facts p ∷ r) (each ports)

module _ (h : String) where
  per_host-get :
      (d : Dict String (List PortObservation)) (observations group : List PortObservation)
      → get d h ≡ boxed group
      → get (per_host d observations) h ≡ boxed (group ++ select observations (at_address h))
  unfolding per_host
  per_host-get d [] group e = e ∙ ap boxed (sym (append-nil group))
  per_host-get d (o ∷ observations) group e =
      per_host-get (append_at d o.address o) observations _ (append_at-get d o.address h o group e)
      ∙ ap boxed (regroup (o.address == h) o group (select observations (at_address h)))
    where
      regroup :
          (b : Bool) (o : PortObservation) (group rest : List PortObservation)
          → (if b then group ++ o ∷ [] else group) ++ rest ≡ group ++ (if b then o ∷ rest else rest)
      regroup true o group rest = append_assoc group (o ∷ []) rest
      regroup false o group rest = refl

  per_host-Unique :
      (observations : List PortObservation) (d : Dict String (List PortObservation))
      → Unique d
      → Unique (per_host d observations)
  unfolding per_host
  per_host-Unique [] d u = u
  per_host-Unique (o ∷ observations) d u =
      per_host-Unique observations (append_at d o.address o) (put-Unique d o.address _ u)

  open_findings-host :
      (k : String) (ports : List ℕ)
      → select (map (open_finding k) ports) (of_host h)
        ≡ (if k == h then map (open_finding k) ports else [])
  unfolding open_finding
  open_findings-host k [] = ground arith
  open_findings-host k (p ∷ ports) = ground (arith, open_findings-host k ports)

  host_findings-host :
      (k : String) (observations : List PortObservation)
      → select (host_findings k observations) (of_host h)
        ≡ (if k == h then host_findings k observations else [])
  unfolding host_findings summary_finding
  host_findings-host k observations =
      select-append (map (open_finding k) (open_ports_of observations)) _ (of_host h)
      ∙ rw (open_findings-host k (open_ports_of observations)) (ground arith)

  -- The findings of a host are those that its own observations give.
  pub to_findings-host :
      (observations : List PortObservation)
      → select (to_findings observations) (of_host h)
        ≡ report h (select observations (at_address h))
  unfolding to_findings get
  to_findings-host observations =
      select-entries host_findings (of_host h) h host_findings-host (per_host [] observations)
        (per_host-Unique observations [] tt)
      ∙ ap (from_entry host_findings h) (per_host-get [] observations [] refl)
