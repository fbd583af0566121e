-- ===== src/Guard/Ranges.antt =====
-- backend/app/guard/ranges.py: the code-defined network ranges and the two checks over them.
-- A reason is a constructor in place of its message; what the message prints is its argument.
pub mod Allowed
pub mod Members
use scan_ledger.Prelude.{
  ℕ, ◌++◌, Bool, ◌&&◌, Option, none, some, List, [], ◌∷◌, String, ltb, any, if◌then◌else◌, ◌==◌,
}
use scan_ledger.Net.{
  Version, v4, v6, same_version, IpAddress, address_eq, IpNetwork, net4, net6, in_network,
  subnet_of, overlaps, is_multicast, is_unspecified, is_global, network_multicast,
  network_unspecified, network_global,
}

pub data Reason : Type 0 where
  cloud_metadata multicast broadcast unspecified documentation public : Reason
  overlaps_metadata multicast_range includes_broadcast unspecified_range : Reason
  overlaps_documentation public_range : Reason
  too_broad : ℕ → ℕ → Reason
  outside_scope inside_scope bad_port not_covered : Reason
  target_empty invalid_cidr no_addresses : Reason
  unresolved : String → Reason
  from_target : Reason → String → Reason

abbrev pub base_allowed_ranges : List IpNetwork
base_allowed_ranges =
    net4 10 0 0 0 8
    ∷ net4 172 16 0 0 12
    ∷ net4 192 168 0 0 16
    ∷ net6 0xfc00 0 0 0 0 0 7
    ∷ net4 127 0 0 0 8
    ∷ net6 0 0 0 0 0 1 128
    ∷ []

abbrev pub cgnat_range : IpNetwork
cgnat_range = net4 100 64 0 0 10

abbrev pub link_local_ranges : List IpNetwork
link_local_ranges = net4 169 254 0 0 16 ∷ net6 0xfe80 0 0 0 0 0 10 ∷ []

abbrev pub cloud_metadata_networks : List IpNetwork
cloud_metadata_networks = net4 169 254 169 254 32 ∷ net6 0xfd00 0xec2 0 0 0 0x254 128 ∷ []

abbrev pub documentation_ranges : List IpNetwork
documentation_ranges = net4 192 0 2 0 24 ∷ net4 198 51 100 0 24 ∷ net4 203 0 113 0 24 ∷ []

abbrev pub limited_broadcast : IpAddress
limited_broadcast = record { version = v4; ip = 0xffffffff }

abbrev pub min_ipv4_prefix_length : ℕ
min_ipv4_prefix_length = 16

abbrev pub min_ipv6_prefix_length : ℕ
min_ipv6_prefix_length = 64

unfoldable pub allowed_ranges_for : Bool → Bool → List IpNetwork
allowed_ranges_for allow_cgnat allow_link_local =
    base_allowed_ranges
    ++ (if allow_cgnat then cgnat_range ∷ [] else [])
    ++ (if allow_link_local then link_local_ranges else [])

unfoldable pub is_always_denied : IpAddress → Option Reason
is_always_denied a =
    if any cloud_metadata_networks (λ n. in_network a n)
    then some cloud_metadata
    else if is_multicast a
    then some multicast
    else if a == limited_broadcast
    then some broadcast
    else if is_unspecified a
    then some unspecified
    else if any documentation_ranges (λ n. in_network a n)
    then some documentation
    else if is_global a
    then some public
    else none

-- `network.version == denied.version and network.overlaps(denied)`, for one of the ranges.
abbrev pub touches : IpNetwork → List IpNetwork → Bool
touches n ranges = any ranges (λ denied. same_version n.version denied.version && overlaps n denied)

unfoldable pub network_always_denied : IpNetwork → Option Reason
network_always_denied n =
    if touches n cloud_metadata_networks
    then some overlaps_metadata
    else if network_multicast n
    then some multicast_range
    else if same_version n.version v4 && overlaps n (net4 255 255 255 255 32)
    then some includes_broadcast
    else if network_unspecified n
    then some unspecified_range
    else if touches n documentation_ranges
    then some overlaps_documentation
    else if network_global n
    then some public_range
    else none

unfoldable pub network_within_allowed : IpNetwork → List IpNetwork → Bool
network_within_allowed n allowed =
    any allowed (λ candidate. same_version n.version candidate.version && subnet_of n candidate)

unfoldable pub check_prefix_breadth : IpNetwork → Option Reason
check_prefix_breadth n =
    if same_version n.version v4 && ltb n.prefixlen min_ipv4_prefix_length
    then some (too_broad n.prefixlen min_ipv4_prefix_length)
    else if same_version n.version v6 && ltb n.prefixlen min_ipv6_prefix_length
    then some (too_broad n.prefixlen min_ipv6_prefix_length)
    else none
