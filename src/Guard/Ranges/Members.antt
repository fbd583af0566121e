-- ===== src/Guard/Ranges/Members.antt =====
-- The network check of backend/app/guard/ranges.py against the members of the network.
use scan_ledger.Prelude.{
  ◌≡◌, ◌∙◌, sym, inl, inr, Bool, true, false, ◌&&◌, none, some, List, [], ◌∷◌, arith, any, All,
  Bool-cases, ◌==◌,
}
use scan_ledger.Net.{IpAddress, IpNetwork, address_eq, same_version, v4, net4, in_network, overlaps}
use scan_ledger.Net.Laws.{IsNetwork, in_network-Within, overlaps_of_member}
use scan_ledger.Guard.Ranges.{
  cloud_metadata, cloud_metadata_networks, documentation_ranges, allowed_ranges_for,
  limited_broadcast, is_always_denied, touches, network_always_denied, network_within_allowed,
}
use scan_ledger.Guard.Ranges.Allowed.{IsLab-denied, within_allowed-IsLab}

same_version_of_eq :
    (m n : IpNetwork) → m.version ≡ n.version → same_version m.version n.version ≡ true
same_version_of_eq m n h = ground arith

module _ (a : IpAddress) (n : IpNetwork) (w : IsNetwork n) (inside : in_network a n ≡ true) where
  meets :
      (m : IpNetwork)
      → IsNetwork m
      → in_network a m ≡ true
      → (same_version n.version m.version && overlaps n m) ≡ true
  meets m wm h =
      let same =
        same_version_of_eq n m
          (sym (in_network-Within a n inside).same ∙ (in_network-Within a m h).same) in
      ground (arith, same, overlaps_of_member a n m w wm inside h)

  touches_of_member :
      (ranges : List IpNetwork)
      → All IsNetwork ranges
      → any ranges (λ m. in_network a m) ≡ true
      → touches n ranges ≡ true
  touches_of_member [] ws h = h
  touches_of_member (m ∷ ranges) ws h = elim (Bool-cases (in_network a m)) [
    | inl e ↦ ground (arith, meets m ws.0 e)
    | inr e ↦ ground (arith, touches_of_member ranges ws.1)
  ]

  broadcast_member :
      (a == limited_broadcast) ≡ true
      → (same_version n.version v4 && overlaps n (net4 255 255 255 255 32)) ≡ true
  broadcast_member h =
      meets (net4 255 255 255 255 32) (omega arith) (unfold in_network in ground arith)

  -- A network that passes the network check has no member that is a cloud-metadata or a
  -- documentation address, nor the broadcast address.
  pub network_always_denied-members :
      network_always_denied n ≡ none
      → (any cloud_metadata_networks (λ m. in_network a m) ≡ false)
        × ((a == limited_broadcast) ≡ false)
        × (any documentation_ranges (λ m. in_network a m) ≡ false)
  unfolding network_always_denied
  network_always_denied-members h = (
    ground (arith, touches_of_member cloud_metadata_networks (omega arith)),
    ground (arith, broadcast_member),
    ground (arith, touches_of_member documentation_ranges (omega arith)),
  )

  -- The network check and the address check agree inside the allowed ranges: each member of a network
  -- that passes the first passes the second.
  pub member_not_denied :
      (c l : Bool)
      → network_always_denied n ≡ none
      → network_within_allowed n (allowed_ranges_for c l) ≡ true
      → is_always_denied a ≡ none
  member_not_denied c l h k = elim (IsLab-denied a (within_allowed-IsLab a c l n k inside)) [
    | inl e ↦ e
    | inr e ↦ absurd (clash e (network_always_denied-members h).0)
  ]
    where
      clash :
          is_always_denied a ≡ some cloud_metadata
          → any cloud_metadata_networks (λ m. in_network a m) ≡ false
          → ⊥
      clash e f = unfold is_always_denied in ground arith
