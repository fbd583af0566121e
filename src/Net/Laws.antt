-- ===== src/Net/Laws.antt =====
-- Networks as ranges of numbers: what `in`, `subnet_of` and `overlaps` say of the members.
use native.Mathlib.Nat.{div-mul-le_self, lt-div-mul-add, lt_of_mul-lt-mul_right, two-pow-succ}
use native.Mathlib.Decide.{dec_le}
use scan_ledger.Prelude.{
  ℕ, zero, suc, ◌+◌, ◌-◌, ◌*◌, ◌/◌, ◌^◌, ◌≤◌, ◌<◌, ◌≡◌, ◌∙◌, sym, Bool, ◌&&◌, true, arith,
}
use scan_ledger.Net.{
  IpAddress, IpNetwork, width, size, same_version, in_network, subnet_of, overlaps, network_address,
}

pub pow_pos : (k : ℕ) → 0 < 2 ^ k
pow_pos zero = omega arith
pow_pos (suc k) = omega (arith, two-pow-succ k, pow_pos k)

pub size-pos : (n : IpNetwork) → 0 < size n
size-pos n = pow_pos (width n.version - n.prefixlen)

-- What `ip_network(…, strict=False)` returns: the host bits are cleared.
pub record IsNetwork (n : IpNetwork) : Type 0 where
  pub aligned : n.base / size n * size n ≡ n.base
  pub narrow : n.prefixlen ≤ width n.version

-- The members of a network, as a range.
pub record Within (a : IpAddress) (n : IpNetwork) : Type 0 where
  pub same : a.version ≡ n.version
  pub above : n.base ≤ a.ip
  pub below : a.ip < n.base + size n

module _ (b n a : ℕ) (pos : 0 < b) where
  mask_bounds : a / b * b ≡ n → (n ≤ a) × (a < n + b)
  mask_bounds e = omega (arith, div-mul-le_self a b, lt-div-mul-add {a = a} pos)

  quotient_le : (q : ℕ) → q * b < (a / b + 1) * b → q ≤ a / b
  quotient_le q h = omega (arith, lt_of_mul-lt-mul_right b {m = q} {n = a / b + 1} h)

  mask_of_bounds : n / b * b ≡ n → n ≤ a → a < n + b → a / b * b ≡ n
  mask_of_bounds e lo hi =
      let same : a / b ≡ n / b = omega (
        arith,
        quotient_le (n / b) (omega (arith, lt-div-mul-add {a = a} pos)),
        lt_of_mul-lt-mul_right b {m = a / b} {n = n / b + 1} (omega (arith, div-mul-le_self a b)),
      ) in
      rw same e

module _ (a : IpAddress) (n : IpNetwork) where
  masked : in_network a n ≡ true → (a.version ≡ n.version) × (a.ip / size n * size n ≡ n.base)
  unfolding in_network
  masked h = ground arith

  pub in_network-Within : in_network a n ≡ true → Within a n
  in_network-Within h =
      let bounds = mask_bounds (size n) n.base a.ip (size-pos n) (masked h).1 in
      record { same = (masked h).0; above = bounds.0; below = bounds.1 }

  pub Within-in_network : IsNetwork n → Within a n → in_network a n ≡ true
  unfolding in_network
  Within-in_network w h =
      ground (arith, mask_of_bounds (size n) n.base a.ip (size-pos n) w.aligned h.above h.below)

-- The test `m.version == n.version and b`, taken apart.
pub same_version-and :
    (m n : IpNetwork) (b : Bool)
    → (same_version m.version n.version && b) ≡ true
    → (m.version ≡ n.version) × (b ≡ true)
same_version-and m n b h = ground arith

pub subnet_of_bounds :
    (m n : IpNetwork)
    → subnet_of m n ≡ true
    → (n.base ≤ m.base) × (m.base + size m ≤ n.base + size n)
unfolding subnet_of
subnet_of_bounds m n h = ground arith

-- A member of a subnet is a member of the network that it is a subnet of.
pub in_network-subnet :
    (a : IpAddress) (m n : IpNetwork)
    → IsNetwork n
    → m.version ≡ n.version
    → subnet_of m n ≡ true
    → in_network a m ≡ true
    → in_network a n ≡ true
in_network-subnet a m n w v s h = Within-in_network a n w (inside (in_network-Within a m h))
  where
    inside : Within a m → Within a n
    inside x = record {
      same = x.same ∙ v;
      above = omega (arith, subnet_of_bounds m n s);
      below = omega (arith, subnet_of_bounds m n s);
    }

-- Two networks that share an address overlap.
pub overlaps_of_member :
    (a : IpAddress) (m n : IpNetwork)
    → IsNetwork m
    → IsNetwork n
    → in_network a m ≡ true
    → in_network a n ≡ true
    → overlaps m n ≡ true
unfolding overlaps
overlaps_of_member a m n wm wn hm hn = meet (in_network-Within a m hm) (in_network-Within a n hn)
  where
    meet : Within a m → Within a n → overlaps m n ≡ true
    meet x y = elim (dec_le m.base n.base) [
      | yes le ↦ ground (
        arith,
        Within-in_network (network_address n) m wm
            (record { same = sym y.same ∙ x.same; above = le; below = omega arith }),
      )
      | no gt ↦ ground (
        arith,
        Within-in_network (network_address m) n wn
            (record { same = sym x.same ∙ y.same; above = omega arith; below = omega arith }),
      )
    ]
