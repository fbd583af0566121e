-- ===== src/Guard/Scope/Lab.antt =====
-- A scope profile that `ScopeProfile.create` of backend/app/guard/scanguard.py accepts stays inside
-- the laboratory.
use scan_ledger.Prelude.{
  ◌≡◌, inl, inr, refl, Bool, true, none, List, [], ◌∷◌, String, arith, any, All, any-witness,
  returns, >>=-returns, returns-injective, ◌&&◌, Bool-cases, subst,
}
use scan_ledger.Text.{strip}
use scan_ledger.Net.{IpAddress, IpNetwork, in_network, same_version, subnet_of}
use scan_ledger.Net.Laws.{IsNetwork, in_network-subnet, same_version-and}
use scan_ledger.Guard.Ranges.{allowed_ranges_for, check_prefix_breadth, network_within_allowed}
use scan_ledger.Guard.Ranges.Allowed.{IsLab, within_allowed-IsLab}
use scan_ledger.Guard.Scope.{
  IpReader, ScopeProfile, contains_address, contains_network, parse_scope_entry, admit_entry,
  admit_entries, create,
}

-- What `create` establishes of each network.
pub record Admitted (cgnat link_local : Bool) (n : IpNetwork) : Type 0 where
  pub network : IsNetwork n
  pub narrow_enough : check_prefix_breadth n ≡ none
  pub within : network_within_allowed n (allowed_ranges_for cgnat link_local) ≡ true

-- The networks of a profile, as `create` leaves them.
abbrev pub IsValid : ScopeProfile → Type 0
IsValid s = All (Admitted s.allow_cgnat s.allow_link_local) s.networks

module _ (reader : IpReader) where
  parse_scope_entry-IsNetwork :
      (raw : String) (n : IpNetwork) → parse_scope_entry reader raw ≡ returns n → IsNetwork n
  unfolding parse_scope_entry
  parse_scope_entry-IsNetwork raw n h = reader.ip_network-IsNetwork (strip raw) n (ground arith)

  admit_entry-Admitted :
      (c l : Bool) (raw : String) (n : IpNetwork)
      → admit_entry reader (allowed_ranges_for c l) raw ≡ returns n
      → Admitted c l n
  unfolding admit_entry
  admit_entry-Admitted c l raw n h =
      let (m, parsed, rest) = >>=-returns (parse_scope_entry reader raw) _ h in
      let same : m ≡ n = ground arith in
      record {
        network = subst IsNetwork same (parse_scope_entry-IsNetwork raw m parsed);
        narrow_enough = ground arith;
        within = ground arith;
      }

  admit_entries-Admitted :
      (c l : Bool) (raws : List String) (ns : List IpNetwork)
      → admit_entries reader (allowed_ranges_for c l) raws ≡ returns ns
      → All (Admitted c l) ns
  unfolding admit_entries
  admit_entries-Admitted c l [] ns h = subst (All (Admitted c l)) (returns-injective h) tt
  admit_entries-Admitted c l (raw ∷ raws) ns h =
      let (n, one, rest) = >>=-returns (admit_entry reader (allowed_ranges_for c l) raw) _ h in
      let (ms, more, built) =
        >>=-returns (admit_entries reader (allowed_ranges_for c l) raws) _ rest in
      subst (All (Admitted c l)) (returns-injective built)
        (admit_entry-Admitted c l raw n one, admit_entries-Admitted c l raws ms more)

  -- `create` accepts only networks that are aligned, no broader than the limits and inside the ranges
  -- of the profile's opt-ins, and it keeps the entries and the flags that it was given.
  pub create-IsValid :
      (name : String) (entries : List String) (c l : Bool) (s : ScopeProfile)
      → create reader name entries c l ≡ returns s
      → IsValid s × (s.entries ≡ entries) × (s.allow_cgnat ≡ c) × (s.allow_link_local ≡ l)
  unfolding create
  create-IsValid name [] c l s h = cc
  create-IsValid name (raw ∷ raws) c l s h =
      let (ns, admitted, built) =
        >>=-returns (admit_entries reader (allowed_ranges_for c l) (raw ∷ raws)) _ h in
      subst
        (λ (t : ScopeProfile).
          IsValid t × (t.entries ≡ raw ∷ raws) × (t.allow_cgnat ≡ c) × (t.allow_link_local ≡ l))
        (returns-injective built)
        (admit_entries-Admitted c l (raw ∷ raws) ns admitted, refl, refl, refl)

-- `n` is a subnet of one of the networks, for networks of its version.
abbrev inside_one : IpNetwork → List IpNetwork → Bool
inside_one n ms = any ms (λ m. same_version n.version m.version && subnet_of n m)

inside_one-member :
    (c l : Bool) (ms : List IpNetwork) (n : IpNetwork) (a : IpAddress)
    → All (Admitted c l) ms
    → inside_one n ms ≡ true
    → in_network a n ≡ true
    → any ms (λ m. in_network a m) ≡ true
inside_one-member c l [] n a valid h inside = cc
inside_one-member c l (m ∷ ms) n a valid h inside =
    elim (Bool-cases (same_version n.version m.version && subnet_of n m)) [
      | inl e ↦
          let (same, sub) = same_version-and n m (subnet_of n m) e in
          ground (arith, in_network-subnet a n m valid.0.network same sub inside)
      | inr e ↦ ground (arith, inside_one-member c l ms n a valid.1)
    ]

inside_one_trans :
    (rs : List IpNetwork) (n m : IpNetwork)
    → n.version ≡ m.version
    → subnet_of n m ≡ true
    → inside_one m rs ≡ true
    → inside_one n rs ≡ true
unfolding subnet_of
inside_one_trans [] n m v s h = h
inside_one_trans (r ∷ rs) n m v s h = ground (arith, inside_one_trans rs n m v s)

module _ (s : ScopeProfile) (valid : IsValid s) where
  -- An address that a valid profile contains is no multicast, broadcast, unspecified, documentation or
  -- global address.
  pub contains_address-IsLab : (a : IpAddress) → contains_address s a ≡ true → IsLab a
  unfolding contains_address
  contains_address-IsLab a h =
      let (n, inside, admitted) = any-witness s.networks _ h valid in
      within_allowed-IsLab a s.allow_cgnat s.allow_link_local n admitted.within inside

  pub contains_network-member :
      (n : IpNetwork) (a : IpAddress)
      → contains_network s n ≡ true
      → in_network a n ≡ true
      → contains_address s a ≡ true
  unfolding contains_network contains_address network_within_allowed
  contains_network-member n a h inside =
      inside_one-member s.allow_cgnat s.allow_link_local s.networks n a valid h inside

  pub contains_network-within :
      (n : IpNetwork)
      → contains_network s n ≡ true
      → network_within_allowed n (allowed_ranges_for s.allow_cgnat s.allow_link_local) ≡ true
  unfolding contains_network network_within_allowed
  contains_network-within n h =
      let (m, inside, admitted) = any-witness s.networks _ h valid in
      let (same, sub) = same_version-and n m (subnet_of n m) inside in
      inside_one_trans (allowed_ranges_for s.allow_cgnat s.allow_link_local) n m same sub
        admitted.within
