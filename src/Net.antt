-- ===== src/Net.antt =====
-- What backend/app uses of Python's `ipaddress`: addresses and networks of both versions as
-- numbers, `in`, `subnet_of`, `overlaps`, and the properties read off the IANA registries (the
-- tables of CPython 3.11 with its security updates). IPv6 zone ids are not modelled.
pub mod Laws
use scan_ledger.Prelude.{
  ℕ, ◌+◌, ◌-◌, ◌*◌, ◌/◌, ◌^◌, ◌<◌, ◌≡◌, ◌↔◌, refl, Bool, true, false, not, ◌&&◌, ◌||◌, Option, none,
  some, List, [], ◌∷◌, arith, leb, nat_beq, any, all, if◌then◌else◌, Eq,
}

pub data Version : Type 0 where
  v4 v6 : Version

abbrev pub same_version : Version → Version → Bool
same_version v4 v4 = true
same_version v6 v6 = true
same_version _ _ = false

abbrev pub width : Version → ℕ
width v4 = 32
width v6 = 128

pub record IpAddress : Type 0 where
  pub version : Version
  pub ip : ℕ

abbrev pub address_beq : IpAddress → IpAddress → Bool
address_beq a b = same_version a.version b.version && nat_beq a.ip b.ip

pub address_beq_iff : (a b : IpAddress) → (address_beq a b ≡ true) ↔ (a ≡ b)
address_beq_iff a b = ground arith

instance abbrev pub address_eq : Eq IpAddress
address_eq = record { beq = address_beq; beq_iff = address_beq_iff }

-- `network_address` as a number.
pub record IpNetwork : Type 0 where
  pub version : Version
  pub base : ℕ
  pub prefixlen : ℕ

-- The number of addresses in the network, `num_addresses`.
abbrev pub size : IpNetwork → ℕ
size n = 2 ^ (width n.version - n.prefixlen)

abbrev pub network_address : IpNetwork → IpAddress
network_address n = record { version = n.version; ip = n.base }

abbrev pub broadcast_address : IpNetwork → IpAddress
broadcast_address n = record { version = n.version; ip = n.base + size n - 1 }

-- `address in network`: the address under the netmask is the network address.
unfoldable pub in_network : IpAddress → IpNetwork → Bool
in_network a n = same_version a.version n.version && nat_beq (a.ip / size n * size n) n.base

-- `a.subnet_of(b)`, for networks of one version.
unfoldable pub subnet_of : IpNetwork → IpNetwork → Bool
subnet_of a b = leb b.base a.base && leb (a.base + size a) (b.base + size b)

unfoldable pub overlaps : IpNetwork → IpNetwork → Bool
overlaps a b =
    in_network (network_address a) b
    || in_network (broadcast_address a) b
    || in_network (network_address b) a
    || in_network (broadcast_address b) a

abbrev pub net4 : ℕ → ℕ → ℕ → ℕ → ℕ → IpNetwork
net4 a b c d p = record { version = v4; base = ((a * 256 + b) * 256 + c) * 256 + d; prefixlen = p }

-- The first four groups and the last two of an IPv6 network; the others are 0.
abbrev pub net6 : ℕ → ℕ → ℕ → ℕ → ℕ → ℕ → ℕ → IpNetwork
net6 a b c d g h p = record {
  version = v6;
  base = (((a * 65536 + b) * 65536 + c) * 65536 + d) * 2 ^ 64 + g * 65536 + h;
  prefixlen = p;
}

private_networks : Version → List IpNetwork
private_networks v4 =
    net4 0 0 0 0 8
    ∷ net4 10 0 0 0 8
    ∷ net4 127 0 0 0 8
    ∷ net4 169 254 0 0 16
    ∷ net4 172 16 0 0 12
    ∷ net4 192 0 0 0 24
    ∷ net4 192 0 0 170 31
    ∷ net4 192 0 2 0 24
    ∷ net4 192 168 0 0 16
    ∷ net4 198 18 0 0 15
    ∷ net4 198 51 100 0 24
    ∷ net4 203 0 113 0 24
    ∷ net4 240 0 0 0 4
    ∷ net4 255 255 255 255 32
    ∷ []
private_networks v6 =
    net6 0 0 0 0 0 1 128
    ∷ net6 0 0 0 0 0 0 128
    ∷ record { version = v6; base = 0xffff * 2 ^ 32; prefixlen = 96 }
    ∷ net6 0x64 0xff9b 1 0 0 0 48
    ∷ net6 0x100 0 0 0 0 0 64
    ∷ net6 0x2001 0 0 0 0 0 23
    ∷ net6 0x2001 0xdb8 0 0 0 0 32
    ∷ net6 0x2002 0 0 0 0 0 16
    ∷ net6 0xfc00 0 0 0 0 0 7
    ∷ net6 0xfe80 0 0 0 0 0 10
    ∷ []

private_exceptions : Version → List IpNetwork
private_exceptions v4 = net4 192 0 0 9 32 ∷ net4 192 0 0 10 32 ∷ []
private_exceptions v6 =
    net6 0x2001 1 0 0 0 1 128
    ∷ net6 0x2001 1 0 0 0 2 128
    ∷ net6 0x2001 3 0 0 0 0 32
    ∷ net6 0x2001 4 0x112 0 0 0 48
    ∷ net6 0x2001 0x20 0 0 0 0 28
    ∷ net6 0x2001 0x30 0 0 0 0 28
    ∷ []

-- The shared address space, which is neither private nor global.
abbrev pub shared_space : IpNetwork
shared_space = net4 100 64 0 0 10

private_by_table : IpAddress → Bool
unfolding private_networks private_exceptions in_network
private_by_table a =
    any (private_networks a.version) (λ n. in_network a n)
    && all (private_exceptions a.version) (λ n. not (in_network a n))

-- `::ffff:0:0/96` carries an IPv4 address.
ipv4_mapped : IpAddress → Option IpAddress
ipv4_mapped a =
    if same_version a.version v6 && nat_beq (a.ip / 2 ^ 32) 0xffff
    then some (record { version = v4; ip = a.ip - 0xffff * 2 ^ 32 })
    else none

unfoldable pub is_private : IpAddress → Bool
unfolding private_by_table ipv4_mapped
is_private a = elim (ipv4_mapped a) [ none ↦ private_by_table a | some b ↦ private_by_table b ]

unfoldable pub is_global : IpAddress → Bool
unfolding is_private
is_global a = not (in_network a shared_space) && not (is_private a)

unfoldable pub is_multicast : IpAddress → Bool
is_multicast a = in_network a (net4 224 0 0 0 4) || in_network a (net6 0xff00 0 0 0 0 0 8)

abbrev pub is_unspecified : IpAddress → Bool
is_unspecified a = nat_beq a.ip 0

-- The same properties of a network, from its first and last address.
network_private : IpNetwork → Bool
unfolding private_networks private_exceptions
network_private n =
    any (private_networks n.version)
      (λ p. in_network (network_address n) p && in_network (broadcast_address n) p)
    && all (private_exceptions n.version)
        (λ p. not (in_network (network_address n) p) && not (in_network (broadcast_address n) p))

unfoldable pub network_global : IpNetwork → Bool
unfolding network_private
network_global n =
    not
      (in_network (network_address n) shared_space && in_network (broadcast_address n) shared_space)
    && not (network_private n)

unfoldable pub network_multicast : IpNetwork → Bool
unfolding is_multicast
network_multicast n = is_multicast (network_address n) && is_multicast (broadcast_address n)

unfoldable pub network_unspecified : IpNetwork → Bool
network_unspecified n = is_unspecified (network_address n) && is_unspecified (broadcast_address n)
