-- ===== src/Modules/PortScan/Report.antt =====
-- backend/app/modules/port_scan.py: the numbers of a host's summary.
use scan_ledger.Prelude.{
  ℕ, ◌+◌, ◌≤◌, ◌≡◌, ◌∙◌, refl, arith, Bool, true, false, ◌&&◌, List, [], ◌∷◌, nat_eq, ◌==◌, select,
  map, count_if, length, All,
}
use scan_ledger.Modules.Sweep.{insert_sorted, sorted}
use scan_ledger.Modules.PortScan.{
  port_open, port_closed, port_filtered, in_state, PortObservation, open_ports_of, count_in,
}

abbrev pub Sorted : List ℕ → Type 0
Sorted [] = Unit
Sorted (p ∷ ports) = All (λ q. p ≤ q) ports × Sorted ports

insert_sorted-All :
    (bound p : ℕ) (ports : List ℕ)
    → bound ≤ p
    → All (λ q. bound ≤ q) ports
    → All (λ q. bound ≤ q) (insert_sorted p ports)
unfolding insert_sorted
insert_sorted-All bound p [] h a = (h, tt)
insert_sorted-All bound p (q ∷ ports) h a = ground (arith, insert_sorted-All bound p ports h a.1)

above : (p q : ℕ) (ports : List ℕ) → p ≤ q → All (λ r. q ≤ r) ports → All (λ r. p ≤ r) ports
above p q [] h a = tt
above p q (r ∷ ports) h a = (omega (arith, a.0), above p q ports h a.1)

insert_sorted-Sorted : (p : ℕ) (ports : List ℕ) → Sorted ports → Sorted (insert_sorted p ports)
unfolding insert_sorted
insert_sorted-Sorted p [] s = (tt, tt)
insert_sorted-Sorted p (q ∷ ports) s =
    ground (arith, above p q ports, insert_sorted-Sorted p ports s.1, insert_sorted-All q p ports)

count-insert_sorted :
    (p : ℕ) (ports : List ℕ) (test : ℕ → Bool)
    → count_if (insert_sorted p ports) test ≡ count_if (p ∷ ports) test
unfolding insert_sorted
count-insert_sorted p [] test = refl
count-insert_sorted p (q ∷ ports) test = ground (arith, count-insert_sorted p ports test)

length-insert_sorted : (p : ℕ) (ports : List ℕ) → length (insert_sorted p ports) ≡ length ports + 1
unfolding insert_sorted
length-insert_sorted p [] = omega arith
length-insert_sorted p (q ∷ ports) = ground (arith, length-insert_sorted p ports)

sorted-Sorted : (ports : List ℕ) → Sorted (sorted ports)
unfolding sorted
sorted-Sorted [] = tt
sorted-Sorted (p ∷ ports) = insert_sorted-Sorted p (sorted ports) (sorted-Sorted ports)

count-sorted :
    (ports : List ℕ) (test : ℕ → Bool) → count_if (sorted ports) test ≡ count_if ports test
unfolding sorted
count-sorted [] test = refl
count-sorted (p ∷ ports) test =
    omega (arith, count-insert_sorted p (sorted ports) test, count-sorted ports test)

length-sorted : (ports : List ℕ) → length (sorted ports) ≡ length ports
unfolding sorted
length-sorted [] = refl
length-sorted (p ∷ ports) =
    omega (arith, length-insert_sorted p (sorted ports), length-sorted ports)

-- Whether a port was observed open, closed or filtered.
abbrev pub observed_open : PortObservation → Bool
observed_open o = elim o.state [ port_open ↦ true | port_closed ↦ false | port_filtered ↦ false ]

abbrev pub observed_closed : PortObservation → Bool
observed_closed o = elim o.state [ port_open ↦ false | port_closed ↦ true | port_filtered ↦ false ]

abbrev pub observed_filtered : PortObservation → Bool
observed_filtered o = elim o.state [
  | port_open ↦ false
  | port_closed ↦ false
  | port_filtered ↦ true
]

abbrev open_of : List PortObservation → List ℕ
open_of observations =
    map (λ (o : PortObservation). o.port) (select observations (in_state port_open))

count-open_of :
    (p : ℕ) (observations : List PortObservation)
    → count_if (open_of observations) (λ q. q == p)
      ≡ count_if observations (λ o. observed_open o && (o.port == p))
count-open_of p [] = refl
count-open_of p (o ∷ observations) = ground (arith, count-open_of p observations)

pub count_in-closed :
    (observations : List PortObservation)
    → count_in port_closed observations ≡ count_if observations observed_closed
unfolding count_in
count_in-closed [] = refl
count_in-closed (o ∷ observations) = ground (arith, count_in-closed observations)

pub count_in-filtered :
    (observations : List PortObservation)
    → count_in port_filtered observations ≡ count_if observations observed_filtered
unfolding count_in
count_in-filtered [] = refl
count_in-filtered (o ∷ observations) = ground (arith, count_in-filtered observations)

length-open_of :
    (observations : List PortObservation)
    → length (open_of observations)
        + count_in port_closed observations
        + count_in port_filtered observations
      ≡ length observations
unfolding count_in
length-open_of [] = omega arith
length-open_of (o ∷ observations) = ground (arith, length-open_of observations)

-- The open ports of a host come in ascending order, each as often as it was observed open, and with the
-- closed and the filtered observations they make up all observations.
pub open_ports_lem :
    (observations : List PortObservation)
    → Sorted (open_ports_of observations)
      × ((p : ℕ)
          → count_if (open_ports_of observations) (λ q. q == p)
            ≡ count_if observations (λ o. observed_open o && (o.port == p)))
      × (length (open_ports_of observations)
            + count_in port_closed observations
            + count_in port_filtered observations
          ≡ length observations)
unfolding open_ports_of
open_ports_lem observations = (
  sorted-Sorted (open_of observations),
  λ p. count-sorted (open_of observations) _ ∙ count-open_of p observations,
  omega (arith, length-sorted (open_of observations), length-open_of observations),
)
