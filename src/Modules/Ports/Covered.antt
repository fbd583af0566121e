-- ===== src/Modules/Ports/Covered.antt =====
-- What backend/app/modules/ports.py hands to the probe modules stays within what was validated.
use mathlib.Core.List.{append_assoc}
use scan_ledger.Prelude.{
  ℕ, zero, suc, ◌+◌, ◌-◌, ◌≤◌, ◌<◌, ◌≡◌, refl, Bool, true, false, Option, none, some, List, [], ◌∷◌,
  arith, any, any-append, ◌++◌, if◌then◌else◌, All, All-imp, ◌==◌, beq_refl, Bool-cases, inl, inr,
  Outcome, returns, raises, >>=-returns, returns-injective, subst, ltb, leb, all, all→All, ◌&&◌,
  string_eq,
}
use scan_ledger.Net.{Version, v4, v6, IpAddress, address_eq, IpNetwork, size, in_network}
use scan_ledger.Net.Laws.{IsNetwork, Within-in_network, size-pos}
use scan_ledger.Guard.ScanGuard.{ValidatedTarget, covers}
use scan_ledger.Modules.Ports.{
  top_100_ports, range_from, or_else, PortValue, PortOptions, ModuleError, left_out,
  max_expanded_addresses, needs_ports, unknown_selection, check_port, insert_port, custom_ports,
  resolve_ports, hosts_from, hosts, iter_target_addresses,
}

abbrev pub IsPort : ℕ → Type 0
IsPort p = (0 < p) × (p ≤ 65535)

range_from-IsPort : (start n : ℕ) → 0 < start → start + n ≤ 65536 → All IsPort (range_from start n)
unfolding range_from
range_from-IsPort start zero lo hi = tt
range_from-IsPort start (suc n) lo hi =
    ((lo, omega arith), range_from-IsPort (start + 1) n (omega arith) (omega arith))

insert_port-IsPort :
    (p : ℕ) (ports : List ℕ) → IsPort p → All IsPort ports → All IsPort (insert_port p ports)
unfolding insert_port
insert_port-IsPort p [] h a = (h, tt)
insert_port-IsPort p (q ∷ ports) h a = ground (arith, insert_port-IsPort p ports h a.1)

custom_ports-IsPort :
    (values : List PortValue) (ports : List ℕ)
    → custom_ports values ≡ returns ports
    → All IsPort ports
unfolding custom_ports
custom_ports-IsPort [] ports h = subst (All IsPort) (returns-injective h) tt
custom_ports-IsPort (value ∷ values) ports h =
    let (p, one, rest) = >>=-returns (check_port value) _ h in
    let (ps, more, built) = >>=-returns (custom_ports values) _ rest in
    subst (All IsPort) (returns-injective built)
      (insert_port-IsPort p ps (checked value p one) (custom_ports-IsPort values ps more))
  where
    checked : (value : PortValue) (p : ℕ) → check_port value ≡ returns p → IsPort p
    checked value p h = unfold check_port in ground arith

module _ (n : IpNetwork) (w : IsNetwork n) where
  pub hosts_from-in_network :
      (start count : ℕ)
      → n.base ≤ start
      → start + count ≤ n.base + size n
      → All (λ a. in_network a n ≡ true) (hosts_from n.version start count)
  unfolding hosts_from
  hosts_from-in_network start zero lo hi = tt
  hosts_from-in_network start (suc count) lo hi = (
    Within-in_network (record { version = n.version; ip = start }) n w
        (record { same = refl; above = lo; below = omega arith }),
    hosts_from-in_network (start + 1) count (omega arith) (omega arith),
  )

top_100-IsPort : All IsPort top_100_ports
top_100-IsPort = checked_ports top_100_ports refl
  where
    checked_ports :
        (ports : List ℕ) → all ports (λ p. ltb 0 p && leb p 65535) ≡ true → All IsPort ports
    checked_ports ports h = All-imp (λ p e. ground arith) ports (all→All ports _ h)

custom_list : Option (List PortValue) → Outcome ModuleError (List ℕ)
custom_list given = elim (or_else given []) [
  | [] ↦ raises needs_ports
  | value ∷ values ↦ custom_ports (value ∷ values)
]

custom_list-IsPort :
    (given : Option (List PortValue)) (ports : List ℕ)
    → custom_list given ≡ returns ports
    → All IsPort ports
unfolding custom_list
custom_list-IsPort none ports h = cc
custom_list-IsPort (some []) ports h = cc
custom_list-IsPort (some (value ∷ values)) ports h = custom_ports-IsPort (value ∷ values) ports h

-- The ports that the scan's options resolve to, whatever the options, are all from 1 to 65535.
pub resolve_ports-IsPort :
    (options : PortOptions) (ports : List ℕ)
    → resolve_ports options ≡ returns ports
    → All IsPort ports
unfolding resolve_ports custom_list
resolve_ports-IsPort options ports h =
    go (or_else options.port_selection "top-100" == "top-100")
      (or_else options.port_selection "top-100" == "well-known")
      (or_else options.port_selection "top-100" == "full")
      (or_else options.port_selection "top-100" == "custom") h
  where
    go :
        (a b c d : Bool)
        → (if a
            then returns top_100_ports
            else if b
            then returns (range_from 1 1024)
            else if c
            then returns (range_from 1 65535)
            else if d
            then custom_list options.ports
            else raises (unknown_selection (or_else options.port_selection "top-100")))
          ≡ returns ports
        → All IsPort ports
    go true b c d h = subst (All IsPort) (returns-injective h) top_100-IsPort
    go false true c d h =
        subst (All IsPort) (returns-injective h)
          (range_from-IsPort 1 1024 (omega arith) (omega arith))
    go false false true d h =
        subst (All IsPort) (returns-injective h)
          (range_from-IsPort 1 65535 (omega arith) (omega arith))
    go false false false true h = custom_list-IsPort options.ports ports h
    go false false false false h = cc

left_out_pos : (v : Version) → 0 < left_out v
left_out_pos v4 = omega arith
left_out_pos v6 = omega arith

hosts-in_network :
    (n : IpNetwork) → IsNetwork n → 2 < size n → All (λ a. in_network a n ≡ true) (hosts n)
unfolding hosts
hosts-in_network n w large =
    hosts_from-in_network n w (n.base + 1) (size n - left_out n.version) (omega arith)
      (omega (arith, left_out_pos n.version, left_out_small n.version))
  where
    left_out_small : (v : Version) → left_out v ≤ 2
    left_out_small v4 = omega arith
    left_out_small v6 = omega arith

pub member_of :
    (seen others : List IpAddress) → All (λ a. any (seen ++ others) (λ b. a == b) ≡ true) others
member_of seen [] = tt
member_of seen (a ∷ others) = (
  ground (arith, any-append seen (a ∷ others) (λ b. a == b), beq_refl a),
  subst (λ all_of. All (λ c. any all_of (λ b. c == b) ≡ true) others)
      (append_assoc seen (a ∷ []) others) (member_of (seen ++ a ∷ []) others),
)

-- Every address that a module is given to probe is one that the validated target covers, if the
-- target's network, if it has one, has its host bits cleared.
pub iter_target_addresses-covers :
    (target : ValidatedTarget) (others : List IpAddress)
    → ((n : IpNetwork) → target.network ≡ some n → IsNetwork n)
    → iter_target_addresses target ≡ returns others
    → All (λ a. covers target a ≡ true) others
unfolding iter_target_addresses covers
iter_target_addresses-covers target others w h = go target.network w h
  where
    go :
        (network : Option IpNetwork)
        → ((n : IpNetwork) → network ≡ some n → IsNetwork n)
        → iter_target_addresses (record target { network = network }) ≡ returns others
        → All (λ a. covers (record target { network = network }) a ≡ true) others
    go none w h =
        subst (λ all_of. All (λ a. any target.addresses (λ b. a == b) ≡ true) all_of)
          (returns-injective h) (member_of [] target.addresses)
    go (some n) w h = elim (Bool-cases (ltb max_expanded_addresses (size n))) [
      | inl large ↦ ground arith
      | inr fine ↦ elim (Bool-cases (leb (size n) 2)) [
        | inl few ↦
            let only : (record { version = n.version; ip = n.base } ∷ []) ≡ others = ground arith in
            subst (All (λ a. in_network a n ≡ true)) only (
              Within-in_network (record { version = n.version; ip = n.base }) n (w n refl)
                  (record { same = refl; above = omega arith; below = omega (arith, size-pos n) }),
              tt,
            )
        | inr many ↦
            let every : hosts n ≡ others = ground arith in
            subst (All (λ a. in_network a n ≡ true)) every
              (hosts-in_network n (w n refl) (ground arith))
      ]
    ]
