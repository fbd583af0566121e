-- ===== src/Modules/OpenPorts/Told.antt =====
-- `open_ports_by_host` of backend/app/modules/base.py: each port in it was told by a finding.
use mathlib.Core.List.{append_assoc}
use scan_ledger.Prelude.{
  ℕ, ◌≡◌, refl, sym, ◌∙◌, subst, arith, Bool, true, false, ◌&&◌, any, any-append, Option, none,
  some, List, [], ◌∷◌, ◌++◌, String, string_eq, ◌==◌, nat_eq, beq_refl, beq_sound, Dict, get, put,
  map, All, All-append, inl, inr, Bool-cases, leb,
}
use scan_ledger.Models.Findings.{Finding}
use scan_ledger.Modules.Ports.{or_else}
use scan_ledger.Modules.Sweep.{insert_sorted, sorted}
use scan_ledger.Modules.OpenPorts.{open_port_of, take_port, ports_found, open_ports_by_host}

All-insert_sorted :
    (P : ℕ → Type 0) (p : ℕ) (ports : List ℕ) → P p → All P ports → All P (insert_sorted p ports)
unfolding insert_sorted
All-insert_sorted P p [] h a = (h, tt)
All-insert_sorted P p (q ∷ ports) h a = elim (Bool-cases (leb p q)) [
  | inl e ↦ rw e (h, a)
  | inr e ↦ rw e (a.0, All-insert_sorted P p ports h a.1)
]

All-sorted : (P : ℕ → Type 0) (ports : List ℕ) → All P ports → All P (sorted ports)
unfolding sorted
All-sorted P [] a = tt
All-sorted P (p ∷ ports) a = All-insert_sorted P p (sorted ports) a.0 (All-sorted P ports a.1)

module _ (P : String → ℕ → Type 0) where
  abbrev Entries : Dict String (List ℕ) → Type 0
  Entries d = All (λ ((host, ports) : String × List ℕ). All (P host) ports) d

  get-All : (d : Dict String (List ℕ)) (k : String) → Entries d → All (P k) (or_else (get d k) [])
  unfolding get
  get-All [] k a = tt
  get-All ((j, ports) ∷ d) k a = elim (Bool-cases (j == k)) [
    | inl e ↦ rw e (subst (λ i. All (P i) ports) (beq_sound j k e) a.0)
    | inr e ↦ rw e (get-All d k a.1)
  ]

  put-All :
      (d : Dict String (List ℕ)) (k : String) (ports : List ℕ)
      → All (P k) ports
      → Entries d
      → Entries (put d k ports)
  unfolding put
  put-All [] k ports h a = (h, tt)
  put-All ((j, others) ∷ d) k ports h a = elim (Bool-cases (j == k)) [
    | inl e ↦ rw e (subst (λ i. All (P i) ports) (sym (beq_sound j k e)) h, a.1)
    | inr e ↦ rw e (a.0, put-All d k ports h a.1)
  ]

  take_port-All :
      (found : Dict String (List ℕ)) (host : String) (port : Option ℕ)
      → ((p : ℕ) → port ≡ some p → P host p)
      → Entries found
      → Entries (take_port found host port)
  take_port-All found host none told a = a
  take_port-All found host (some p) told a =
      put-All found host _
        (All-append (P host) (or_else (get found host) []) (p ∷ []) (get-All found host a)
          (told p refl, tt))
        a

  module _ {V : Type 0} where
    ports_found-All :
        (findings : List (Finding V)) (found : Dict String (List ℕ))
        → All (λ f. (p : ℕ) → open_port_of f ≡ some p → P f.host p) findings
        → Entries found
        → Entries (ports_found found findings)
    unfolding ports_found
    ports_found-All [] found told a = a
    ports_found-All (f ∷ findings) found told a =
        ports_found-All findings _ told.1 (take_port-All found f.host (open_port_of f) told.0 a)

    pub open_ports_by_host-All :
        (findings : List (Finding V))
        → All (λ f. (p : ℕ) → open_port_of f ≡ some p → P f.host p) findings
        → All
            (λ ((host, ports) : String × List ℕ). All (P host) ports)
            (open_ports_by_host findings)
    unfolding open_ports_by_host
    open_ports_by_host-All findings told =
        each_sorted (ports_found [] findings) (ports_found-All findings [] told tt)
      where
        each_sorted :
            (d : Dict String (List ℕ))
            → Entries d
            → Entries (map (λ ((host, ports) : String × List ℕ). (host, sorted ports)) d)
        each_sorted [] a = tt
        each_sorted ((host, ports) ∷ d) a = (All-sorted (P host) ports a.0, each_sorted d a.1)

abbrev is_port : Option ℕ → ℕ → Bool
is_port none p = false
is_port (some q) p = q == p

module _ {V : Type 0} where
  -- One of the findings tells that this port of this host is open.
  abbrev pub told_by : String → ℕ → Finding V → Bool
  told_by host p f = f.host == host && is_port (open_port_of f) p

  told_self :
      (seen others : List (Finding V))
      → All
          (λ f. (p : ℕ) → open_port_of f ≡ some p → any (seen ++ others) (told_by f.host p) ≡ true)
          others
  told_self seen [] = tt
  told_self seen (f ∷ others) = (
    (λ p e.
        any-append seen (f ∷ others) (told_by f.host p)
        ∙ ground (arith, beq_refl f.host, beq_refl p, e)),
    subst
        (λ all_of.
          All (λ g. (p : ℕ) → open_port_of g ≡ some p → any all_of (told_by g.host p) ≡ true)
            others)
        (append_assoc seen (f ∷ []) others) (told_self (seen ++ f ∷ []) others),
  )

  pub open_ports_by_host_told :
      (findings : List (Finding V))
      → All
          (λ ((host, ports) : String × List ℕ).
            All (λ p. any findings (told_by host p) ≡ true) ports)
          (open_ports_by_host findings)
  open_ports_by_host_told findings =
      open_ports_by_host-All (λ host p. any findings (told_by host p) ≡ true) findings
        (told_self [] findings)
