-- ===== src/Guard/ScanGuard/Proven.antt =====
-- A target that `ScanGuard.validate_target` of backend/app/guard/scanguard.py returns is in scope whole.
use scan_ledger.Prelude.{
  ◌≡◌, ◌≢◌, refl, sym, subst, inl, inr, true, none, some, arith, List, [], ◌∷◌, String, any, All,
  any-witness, beq_sound, ◌==◌, Outcome, returns, Outcome-cases, string_eq, ◌∙◌, ap,
}
use scan_ledger.Text.{strip}
use scan_ledger.Net.{IpAddress, address_eq, IpNetwork, in_network}
use scan_ledger.Net.Laws.{IsNetwork}
use scan_ledger.Models.Domain.{TargetType}
use scan_ledger.Guard.Ranges.{Reason, is_always_denied, network_always_denied}
use scan_ledger.Guard.Ranges.Members.{member_not_denied}
use scan_ledger.Guard.Ledger.{Ledger}
use scan_ledger.Guard.Scope.{IpReader, ScopeProfile, contains_address, contains_network}
use scan_ledger.Guard.Scope.Lab.{IsValid, contains_network-member, contains_network-within}
use scan_ledger.Guard.ScanGuard.{
  ValidatedTarget, covers, denial_of, network_denial_of, Classified, a_network, some_addresses,
  classify, validate_network, first_denial, validate_addresses, validate_classified,
  validate_target,
}

-- What may be probed at an address: it is in no class that is always denied, and in the scope.
abbrev pub InScope : ScopeProfile → IpAddress → Type 0
InScope scope a = (is_always_denied a ≡ none) × (contains_address scope a ≡ true)

abbrev pub Proven : ScopeProfile → ValidatedTarget → Type 0
Proven scope t = (a : IpAddress) → covers t a ≡ true → InScope scope a

module _ (scope : ScopeProfile) where
  denial_of-none : (a : IpAddress) → denial_of scope a ≡ none → InScope scope a
  unfolding denial_of
  denial_of-none a h = ground arith

  first_denial-none :
      (others : List IpAddress) → first_denial scope others ≡ none → All (InScope scope) others
  unfolding first_denial
  first_denial-none [] h = tt
  first_denial-none (a ∷ others) h =
      (denial_of-none a (unfold denial_of in ground arith), first_denial-none others (ground arith))

  addresses-Proven :
      (others : List IpAddress) (a : IpAddress)
      → All (InScope scope) others
      → any others (λ b. a == b) ≡ true
      → InScope scope a
  addresses-Proven others a h e =
      let (b, same, good) = any-witness others _ e h in
      subst (InScope scope) (sym (beq_sound a b same)) good

  network-Proven :
      (n : IpNetwork) (a : IpAddress)
      → IsValid scope
      → IsNetwork n
      → network_denial_of scope n ≡ none
      → in_network a n ≡ true
      → InScope scope a
  network-Proven n a valid w h inside = (
    member_not_denied a n w inside scope.allow_cgnat scope.allow_link_local
        (network_denial_none h).0 (contains_network-within scope valid n (network_denial_none h).1),
    contains_network-member scope valid n a (network_denial_none h).1 inside,
  )
    where
      network_denial_none :
          network_denial_of scope n ≡ none
          → (network_always_denied n ≡ none) × (contains_network scope n ≡ true)
      network_denial_none h = unfold network_denial_of in ground arith

  validate_network-returns :
      (raw : String) (n : IpNetwork) (t : ValidatedTarget) (l l' : Ledger)
      → validate_classified scope raw (a_network n) l ≡ (returns t, l')
      → (network_denial_of scope n ≡ none) × (t.network ≡ some n)
  unfolding validate_classified validate_network
  validate_network-returns raw n t l l' h = ground arith

  validate_network-bare :
      (raw : String) (n : IpNetwork) (t : ValidatedTarget) (l l' : Ledger)
      → validate_classified scope raw (a_network n) l ≡ (returns t, l')
      → t.addresses ≡ []
  unfolding validate_classified validate_network
  validate_network-bare raw n t l l' h = ground arith

  validate_addresses-returns :
      (raw : String) (kind : TargetType) (others : List IpAddress) (t : ValidatedTarget)
      (l l' : Ledger)
      → validate_classified scope raw (some_addresses kind others) l ≡ (returns t, l')
      → (first_denial scope others ≡ none) × (t.network ≡ none) × (t.addresses ≡ others)
  unfolding validate_classified validate_addresses
  validate_addresses-returns raw kind [] t l l' h = ground arith
  validate_addresses-returns raw kind (b ∷ others) t l l' h = ground arith

  classified_has_address :
      (raw : String) (c : Classified) (t : ValidatedTarget) (l l' : Ledger)
      → validate_classified scope raw c l ≡ (returns t, l')
      → t.network ≡ none
      → t.addresses ≢ []
  unfolding validate_classified validate_network validate_addresses
  classified_has_address raw (a_network n) t l l' h bare empty = ground arith
  classified_has_address raw (some_addresses kind []) t l l' h bare empty = ground arith
  classified_has_address raw (some_addresses kind (b ∷ others)) t l l' h bare empty = ground arith

  classified-Proven :
      (raw : String) (c : Classified) (t : ValidatedTarget) (l l' : Ledger)
      → IsValid scope
      → ((n : IpNetwork) → c ≡ a_network n → IsNetwork n)
      → validate_classified scope raw c l ≡ (returns t, l')
      → Proven scope t
  classified-Proven raw (a_network n) t l l' valid w h a e =
      let (clear, held) = validate_network-returns raw n t l l' h in
      network-Proven n a valid (w n refl) clear (unfold covers in ground arith)
  classified-Proven raw (some_addresses kind others) t l l' valid w h a e =
      let (clear, bare, held) = validate_addresses-returns raw kind others t l l' h in
      addresses-Proven others a (first_denial-none others clear) (unfold covers in ground arith)

module _ (reader : IpReader) (resolver : String → Outcome Reason (List IpAddress)) where
  classify-IsNetwork :
      (raw : String) (n : IpNetwork)
      → classify reader resolver raw ≡ returns (a_network n)
      → IsNetwork n
  unfolding classify
  classify-IsNetwork raw n h = reader.ip_network-IsNetwork (strip raw) n (ground arith)

  module _ (scope : ScopeProfile) where
    classified :
        (raw : String) (t : ValidatedTarget) (l l' : Ledger)
        → validate_target scope reader resolver raw l ≡ (returns t, l')
        → (c : Classified) × (classify reader resolver raw ≡ returns c)
          × (validate_classified scope raw c l ≡ (returns t, l'))
    unfolding validate_target
    classified raw t l l' h = elim (Outcome-cases (classify reader resolver raw)) [
      | inl (c, e) ↦ (c, e, ground arith)
      | inr (x, e) ↦ absurd (ground arith)
    ]

    -- When `validate_target` returns, each address that its target covers is in no class that is always
    -- denied and is contained in the scope profile: every member of a CIDR, and every address that a
    -- host name resolved to. The profile is one that `create` accepts.
    pub validate_target-Proven :
        (raw : String) (t : ValidatedTarget) (l l' : Ledger)
        → IsValid scope
        → validate_target scope reader resolver raw l ≡ (returns t, l')
        → Proven scope t
    validate_target-Proven raw t l l' valid h =
        let (c, e, run) = classified raw t l l' h in
        classified-Proven scope raw c t l l' valid
          (λ n same. classify-IsNetwork raw n (e ∙ ap returns same)) run

    pub validated_has_address :
        (raw : String) (t : ValidatedTarget) (l l' : Ledger)
        → validate_target scope reader resolver raw l ≡ (returns t, l')
        → t.network ≡ none
        → t.addresses ≢ []
    validated_has_address raw t l l' h bare empty =
        let (c, e, run) = classified raw t l l' h in
        classified_has_address scope raw c t l l' run bare empty

    pub validated-IsNetwork :
        (raw : String) (t : ValidatedTarget) (l l' : Ledger)
        → validate_target scope reader resolver raw l ≡ (returns t, l')
        → (n : IpNetwork) → t.network ≡ some n
        → IsNetwork n
    validated-IsNetwork raw t l l' h n e =
        let (c, text, run) = classified raw t l l' h in of_class c text run
      where
        of_class :
            (c : Classified)
            → classify reader resolver raw ≡ returns c
            → validate_classified scope raw c l ≡ (returns t, l')
            → IsNetwork n
        of_class (a_network m) text run =
            let (clear, held) = validate_network-returns scope raw m t l l' run in
            let same : m ≡ n = ground arith in subst IsNetwork same (classify-IsNetwork raw m text)
        of_class (some_addresses kind others) text run =
            let (clear, bare, held) = validate_addresses-returns scope raw kind others t l l' run in
            absurd (ground arith)

    pub validated_bare :
        (raw : String) (t : ValidatedTarget) (l l' : Ledger)
        → validate_target scope reader resolver raw l ≡ (returns t, l')
        → (n : IpNetwork) → t.network ≡ some n
        → t.addresses ≡ []
    validated_bare raw t l l' h n e =
        let (c, text, run) = classified raw t l l' h in of_class c text run
      where
        of_class :
            (c : Classified)
            → classify reader resolver raw ≡ returns c
            → validate_classified scope raw c l ≡ (returns t, l')
            → t.addresses ≡ []
        of_class (a_network m) text run = validate_network-bare scope raw m t l l' run
        of_class (some_addresses kind others) text run =
            let (clear, bare, held) = validate_addresses-returns scope raw kind others t l l' run in
            absurd (ground arith)
