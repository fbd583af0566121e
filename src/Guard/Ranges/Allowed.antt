-- ===== src/Guard/Ranges/Allowed.antt =====
-- What the members of the ranges in backend/app/guard/ranges.py have in common.
use scan_ledger.Prelude.{
  ◌≡◌, ◌⊎◌, Bool, true, false, none, some, [], ◌∷◌, arith, any, All, All-append, any-witness, ◌==◌,
  if◌then◌else◌,
}
use scan_ledger.Net.{
  IpAddress, IpNetwork, address_eq, net4, net6, in_network, is_multicast, is_unspecified, is_global,
  subnet_of,
}
use scan_ledger.Net.Laws.{IsNetwork, in_network-subnet, same_version-and}
use scan_ledger.Guard.Ranges.{
  cloud_metadata, base_allowed_ranges, cgnat_range, link_local_ranges, allowed_ranges_for,
  limited_broadcast, is_always_denied, network_within_allowed, documentation_ranges,
}

-- What a range that a scope may draw from promises of its members.
pub record IsLab (a : IpAddress) : Type 0 where
  pub not_multicast : is_multicast a ≡ false
  pub not_broadcast : (a == limited_broadcast) ≡ false
  pub not_unspecified : is_unspecified a ≡ false
  pub not_documentation : any documentation_ranges (λ n. in_network a n) ≡ false
  pub not_global : is_global a ≡ false

abbrev LabRange : IpAddress → IpNetwork → Type 0
LabRange a n = IsNetwork n × (in_network a n ≡ true → IsLab a)

module _ (a : IpAddress) where
  ten-IsLab : in_network a (net4 10 0 0 0 8) ≡ true → IsLab a
  unfolding in_network is_multicast is_global
  ten-IsLab h = ground arith

  twelve-IsLab : in_network a (net4 172 16 0 0 12) ≡ true → IsLab a
  unfolding in_network is_multicast is_global
  twelve-IsLab h = ground arith

  sixteen-IsLab : in_network a (net4 192 168 0 0 16) ≡ true → IsLab a
  unfolding in_network is_multicast is_global
  sixteen-IsLab h = ground arith

  ula-IsLab : in_network a (net6 0xfc00 0 0 0 0 0 7) ≡ true → IsLab a
  unfolding in_network is_multicast is_global
  ula-IsLab h = ground arith

  loopback-IsLab : in_network a (net4 127 0 0 0 8) ≡ true → IsLab a
  unfolding in_network is_multicast is_global
  loopback-IsLab h = ground arith

  loopback6-IsLab : in_network a (net6 0 0 0 0 0 1 128) ≡ true → IsLab a
  unfolding in_network is_multicast is_global
  loopback6-IsLab h = ground arith

  cgnat-IsLab : in_network a cgnat_range ≡ true → IsLab a
  unfolding in_network is_multicast is_global
  cgnat-IsLab h = ground arith

  link_local-IsLab : in_network a (net4 169 254 0 0 16) ≡ true → IsLab a
  unfolding in_network is_multicast is_global
  link_local-IsLab h = ground arith

  link_local6-IsLab : in_network a (net6 0xfe80 0 0 0 0 0 10) ≡ true → IsLab a
  unfolding in_network is_multicast is_global
  link_local6-IsLab h = ground arith

  base_lab : All (LabRange a) base_allowed_ranges
  base_lab = (
    (omega arith, ten-IsLab),
    (
      (omega arith, twelve-IsLab),
      (
        (omega arith, sixteen-IsLab),
        (
          (omega arith, ula-IsLab),
          ((omega arith, loopback-IsLab), ((omega arith, loopback6-IsLab), tt)),
        ),
      ),
    ),
  )

  allowed_lab :
      (allow_cgnat allow_link_local : Bool)
      → All (LabRange a) (allowed_ranges_for allow_cgnat allow_link_local)
  unfolding allowed_ranges_for
  allowed_lab c l =
      All-append (LabRange a) base_allowed_ranges _ base_lab
        (All-append (LabRange a) _ _ (cgnat c) (link_local l))
    where
      cgnat : (c : Bool) → All (LabRange a) (if c then cgnat_range ∷ [] else [])
      cgnat true = ((omega arith, cgnat-IsLab), tt)
      cgnat false = tt

      link_local : (l : Bool) → All (LabRange a) (if l then link_local_ranges else [])
      link_local true = ((omega arith, link_local-IsLab), ((omega arith, link_local6-IsLab), tt))
      link_local false = tt

  -- A member of a network that stays within the allowed ranges is a laboratory address.
  pub within_allowed-IsLab :
      (c l : Bool) (n : IpNetwork)
      → network_within_allowed n (allowed_ranges_for c l) ≡ true
      → in_network a n ≡ true
      → IsLab a
  unfolding network_within_allowed
  within_allowed-IsLab c l n w h =
      let (range, inside, lab) = any-witness (allowed_ranges_for c l) _ w (allowed_lab c l) in
      let (same, sub) = same_version-and n range (subnet_of n range) inside in
      lab.1 (in_network-subnet a n range lab.0 same sub h)

  pub IsLab-denied :
      IsLab a → (is_always_denied a ≡ none) ⊎ (is_always_denied a ≡ some cloud_metadata)
  unfolding is_always_denied
  IsLab-denied lab = ground arith
