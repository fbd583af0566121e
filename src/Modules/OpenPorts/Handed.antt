-- ===== src/Modules/OpenPorts/Handed.antt =====
-- What a port scan (backend/app/modules/port_scan.py) hands to the modules after it.
use mathlib.Core.List.{append-nil, append_assoc}
use scan_ledger.Prelude.{
  ℕ, ◌≤◌, ◌≡◌, refl, sym, ap, ◌∙◌, arith, Bool, true, false, Option, none, some, List, [], ◌∷◌,
  ◌++◌, String, string_eq, ◌==◌, if◌then◌else◌, Dict, get, map, select, count_if, ◌&&◌, nat_eq, All,
  inl, inr, Bool-cases,
}
use scan_ledger.Models.Findings.{Finding}
use scan_ledger.Modules.Sweep.{insert_sorted, sorted}
use scan_ledger.Modules.Sweep.Grouping.{boxed, append_at-get}
use scan_ledger.Modules.PortScan.{
  PortObservation, PortFacts, open_finding, summary_finding, host_findings, open_ports_of,
  to_findings,
}
use scan_ledger.Modules.PortScan.Hosts.{at_address, of_host, report, to_findings-host}
use scan_ledger.Modules.PortScan.Report.{Sorted, observed_open, open_ports_lem}
use scan_ledger.Modules.OpenPorts.{open_port_of, take_port, ports_found, open_ports_by_host}

insert_sorted_least :
    (p : ℕ) (ports : List ℕ) → All (λ q. p ≤ q) ports → insert_sorted p ports ≡ p ∷ ports
unfolding insert_sorted
insert_sorted_least p [] h = refl
insert_sorted_least p (q ∷ ports) h = ground (arith, h.0)

-- Sorting a sorted list changes nothing.
sorted_again : (ports : List ℕ) → Sorted ports → sorted ports ≡ ports
unfolding sorted
sorted_again [] s = refl
sorted_again (p ∷ ports) s =
    ap (insert_sorted p) (sorted_again ports s.1) ∙ insert_sorted_least p ports s.0

abbrev listed_port : Option ℕ → List ℕ
listed_port none = []
listed_port (some p) = p ∷ []

-- The open ports among findings, in their order.
abbrev ports_in : List (Finding PortFacts) → List ℕ
ports_in [] = []
ports_in (f ∷ findings) = listed_port (open_port_of f) ++ ports_in findings

module _ (h : String) where
  take_port-get :
      (found : Dict String (List ℕ)) (host : String) (port : Option ℕ) (vs : List ℕ)
      → get found h ≡ boxed vs
      → get (take_port found host port) h
        ≡ boxed (vs ++ (if host == h then listed_port port else []))
  take_port-get found host none vs e = e ∙ ap boxed (unchanged (host == h) vs)
    where
      unchanged : (b : Bool) (vs : List ℕ) → vs ≡ vs ++ (if b then [] else [])
      unchanged true vs = sym (append-nil vs)
      unchanged false vs = sym (append-nil vs)
  take_port-get found host (some p) vs e =
      append_at-get found host h p vs e ∙ ap boxed (grown (host == h) vs)
    where
      grown :
          (b : Bool) (vs : List ℕ)
          → (if b then vs ++ p ∷ [] else vs) ≡ vs ++ (if b then p ∷ [] else [])
      grown true vs = refl
      grown false vs = sym (append-nil vs)

  ports_found-get :
      (findings : List (Finding PortFacts)) (found : Dict String (List ℕ)) (vs : List ℕ)
      → get found h ≡ boxed vs
      → get (ports_found found findings) h ≡ boxed (vs ++ ports_in (select findings (of_host h)))
  unfolding ports_found
  ports_found-get [] found vs e = e ∙ ap boxed (sym (append-nil vs))
  ports_found-get (f ∷ findings) found vs e =
      ports_found-get findings (take_port found f.host (open_port_of f)) _
        (take_port-get found f.host (open_port_of f) vs e)
      ∙ ap boxed (regroup (f.host == h) vs (select findings (of_host h)))
    where
      regroup :
          (b : Bool) (vs : List ℕ) (rest : List (Finding PortFacts))
          → (vs ++ (if b then listed_port (open_port_of f) else [])) ++ ports_in rest
            ≡ vs ++ ports_in (if b then f ∷ rest else rest)
      regroup true vs rest = append_assoc vs (listed_port (open_port_of f)) (ports_in rest)
      regroup false vs rest = append_assoc vs [] (ports_in rest)

  ports_in-report :
      (observations : List PortObservation)
      → ports_in (report h observations) ≡ open_ports_of observations
  unfolding host_findings open_finding summary_finding open_port_of open_ports_of sorted
  ports_in-report [] = refl
  ports_in-report (o ∷ observations) =
      each_port (open_ports_of (o ∷ observations)) (o ∷ observations)
    where
      each_port :
          (ports : List ℕ) (os : List PortObservation)
          → ports_in (map (open_finding h) ports ++ summary_finding h os ∷ []) ≡ ports
      each_port [] os = refl
      each_port (p ∷ ports) os = ap (λ r. p ∷ r) (each_port ports os)

abbrev mapped : (List ℕ → List ℕ) → Option (List ℕ) → Option (List ℕ)
mapped f none = none
mapped f (some ports) = some (f ports)

get-map :
    (f : List ℕ → List ℕ) (d : Dict String (List ℕ)) (h : String)
    → get (map (λ ((host, ports) : String × List ℕ). (host, f ports)) d) h ≡ mapped f (get d h)
unfolding get
get-map f [] h = refl
get-map f ((k, ports) ∷ d) h = elim (Bool-cases (k == h)) [
  | inl e ↦ rw e refl
  | inr e ↦ rw e (get-map f d h)
]

mapped-boxed : (f : List ℕ → List ℕ) (vs : List ℕ) → f vs ≡ vs → mapped f (boxed vs) ≡ boxed vs
mapped-boxed f [] same = refl
mapped-boxed f (v ∷ vs) same = ap some same

handed :
    (observations : List PortObservation) (h : String)
    → get (open_ports_by_host (to_findings observations)) h
      ≡ boxed (open_ports_of (select observations (at_address h)))
unfolding open_ports_by_host get
handed observations h =
    let mine = select observations (at_address h) in
    get-map sorted (ports_found [] (to_findings observations)) h
    ∙ ap (mapped sorted) (
        ports_found-get h (to_findings observations) [] [] refl
        ∙ ap boxed (ap ports_in (to_findings-host h observations) ∙ ports_in-report h mine))
    ∙ mapped-boxed sorted (open_ports_of mine)
        (sorted_again (open_ports_of mine) (open_ports_lem mine).0)

count-at_address :
    (h : String) (p : ℕ) (observations : List PortObservation)
    → count_if (select observations (at_address h)) (λ o. observed_open o && (o.port == p))
      ≡ count_if observations (λ o. (o.address == h) && (observed_open o && (o.port == p)))
count-at_address h p [] = refl
count-at_address h p (o ∷ observations) = ground (arith, count-at_address h p observations)

-- The module that runs after a port scan is told, of each host, the ports that the scan observed open at
-- its address, each as often as it was observed so and no other, in ascending order; and nothing of a
-- host without one.
pub open_ports_by_host-to_findings :
    (observations : List PortObservation) (h : String)
    → (ports : List ℕ) × (get (open_ports_by_host (to_findings observations)) h ≡ boxed ports)
      × Sorted ports
      × ((p : ℕ)
          → count_if ports (λ q. q == p)
            ≡ count_if observations (λ o. (o.address == h) && (observed_open o && (o.port == p))))
open_ports_by_host-to_findings observations h =
    let mine = select observations (at_address h) in
    let (ascending, as_observed, total) = open_ports_lem mine in
    (
      open_ports_of mine,
      handed observations h,
      ascending,
      λ p. as_observed p ∙ count-at_address h p observations,
    )
