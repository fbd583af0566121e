-- ===== src/Guard/Connect/Slots.antt =====
-- `ScanGuard.connect` of backend/app/guard/scanguard.py gives its governor slot back on every path.
use scan_ledger.Prelude.{
  ℕ, ◌+◌, ◌≡◌, ◌∙◌, refl, some, inl, inr, arith, List, [], Dict, length, Outcome, returns, raises,
  if◌then◌else◌, ◌==◌, Option-cases, Outcome-cases, subst, sym, ◌⊎◌,
}
use scan_ledger.Net.{IpAddress, address_eq}
use scan_ledger.Scan.Governor.{
  IntensityGovernor, host_permits, take_global, take_host, release, probes_made_against,
  report_error, report_success,
}
use scan_ledger.Scan.Governor.Segments.{one_if, take_global_lem, take_host_lem, release_lem}
use scan_ledger.Guard.Scope.{ScopeProfile}
use scan_ledger.Guard.ScanGuard.{ValidatedTarget}
use scan_ledger.Guard.Connect.{
  Answer, accepted, refused, ConnectError, GuardState, acquire, attempt, attempt_in_slot,
  deny_connect, connect,
}
use scan_ledger.Guard.Connect.Safety.{attempts_for}

-- A governor that holds the permits of another and has counted `n` more probes of `a`.
pub record Settled (a : IpAddress) (n : ℕ) (g g' : IntensityGovernor IpAddress) : Type 0 where
  pub limits_kept : g'.limits ≡ g.limits
  pub global_kept : g'.global_free ≡ g.global_free
  pub permits_kept : (j : IpAddress) → host_permits g' j ≡ host_permits g j
  pub scan_counted : g'.scan_count ≡ g.scan_count + n
  pub host_counted :
      (j : IpAddress)
      → probes_made_against g' j ≡ probes_made_against g j + (if a == j then n else 0)

Settled-refl : (a : IpAddress) (g : IntensityGovernor IpAddress) → Settled a 0 g g
Settled-refl a g = record {
  limits_kept = refl;
  global_kept = refl;
  permits_kept = λ j. refl;
  scan_counted = omega arith;
  host_counted = λ j. ground arith;
}

-- What is held inside the slot.
record Held (a : IpAddress) (g g' : IntensityGovernor IpAddress) : Type 0 where
  limits_kept : g'.limits ≡ g.limits
  global_taken : g'.global_free + 1 ≡ g.global_free
  permit_taken : (j : IpAddress) → host_permits g' j + one_if (a == j) ≡ host_permits g j
  scan_counted : g'.scan_count ≡ g.scan_count + 1
  host_counted :
      (j : IpAddress) → probes_made_against g' j ≡ probes_made_against g j + one_if (a == j)

module _ (a : IpAddress) (g : IntensityGovernor IpAddress) where
  taken-Held :
      (g1 g2 : IntensityGovernor IpAddress)
      → take_global g ≡ some g1
      → take_host g1 a ≡ some g2
      → Held a g g2
  taken-Held g1 g2 p q =
      let t1 = take_global_lem g g1 p in
      let t2 = take_host_lem g1 a g2 q in
      record {
        limits_kept = t2.limits_kept ∙ t1.limits_kept;
        global_taken = omega (arith, t1.free, t2.free_kept);
        permit_taken = λ j. omega (arith, t1.permits_kept j, t2.permits j);
        scan_counted = omega (arith, t1.scan_kept, t2.scan);
        host_counted = λ j. omega (arith, t1.probes_kept j, t2.probes j);
      }

  acquire-Held : (g2 : IntensityGovernor IpAddress) → acquire g a ≡ returns g2 → Held a g g2
  acquire-Held g2 h = elim (Option-cases (take_global g)) [
    | inl e ↦ absurd (unfold acquire in ground arith)
    | inr (g1, e) ↦ taken-Held g1 g2 e (unfold acquire in ground arith)
  ]

  abbrev backed : IntensityGovernor IpAddress → Dict IpAddress ℕ → IntensityGovernor IpAddress
  backed g b = record g { backoff = b }

  -- Reports of success and of errors touch the backoff only.
  release-Settled :
      (g2 : IntensityGovernor IpAddress) (b c : Dict IpAddress ℕ)
      → Held a g g2
      → Settled a 1 g (backed (release (backed g2 b) a) c)
  unfolding host_permits probes_made_against
  release-Settled g2 b c h =
      let t = release_lem (backed g2 b) a in
      record {
        limits_kept = t.limits_kept ∙ h.limits_kept;
        global_kept = omega (arith, t.free, h.global_taken);
        permits_kept = λ j. omega (arith, t.permits j, h.permit_taken j);
        scan_counted = omega (arith, t.scan_kept, h.scan_counted);
        host_counted = λ j. omega (arith, t.probes_kept j, h.host_counted j);
      }

acquire-raises :
    (g : IntensityGovernor IpAddress) (a : IpAddress) (port : ℕ) (x : ConnectError)
    → acquire g a ≡ raises x
    → attempts_for (raises x) a port ≡ []
unfolding acquire
acquire-raises g a port x h = ground arith

-- The change that a call makes to the governor, by its result.
abbrev SettledBy :
    IpAddress → ℕ → GuardState → Outcome ConnectError (Unit {0}) × GuardState → Type 0
SettledBy a port s (result, t) =
    Settled a (length (attempts_for result a port)) s.governor t.governor

module _ (a : IpAddress) (port : ℕ) (s : GuardState) where
  attempt-Settled :
      (answer : Answer) (g2 : IntensityGovernor IpAddress)
      → Held a s.governor g2
      → SettledBy a port s (attempt answer a port (record s { governor = g2 }))
  unfolding attempt report_error report_success
  attempt-Settled accepted g2 h = release-Settled a s.governor g2 g2.backoff _ h
  attempt-Settled refused g2 h = release-Settled a s.governor g2 (report_error g2 a).backoff _ h
  attempt-Settled _ g2 h = release-Settled a s.governor g2 (report_error g2 a).backoff _ h

  module _ (answer : Answer) where
    slot_taken :
        (g2 : IntensityGovernor IpAddress)
        → acquire s.governor a ≡ returns g2
        → attempt_in_slot answer a port s ≡ attempt answer a port (record s { governor = g2 })
    unfolding attempt_in_slot
    slot_taken g2 e = ground arith

    slot_refused :
        (x : ConnectError)
        → acquire s.governor a ≡ raises x
        → attempt_in_slot answer a port s ≡ (raises x, s)
    unfolding attempt_in_slot
    slot_refused x e = ground arith

    attempt_in_slot-Settled : SettledBy a port s (attempt_in_slot answer a port s)
    attempt_in_slot-Settled = elim (Outcome-cases (acquire s.governor a)) [
      | inl (g2, e) ↦
          subst (SettledBy a port s) (sym (slot_taken g2 e))
            (attempt-Settled answer g2 (acquire-Held a s.governor g2 e))
      | inr (x, e) ↦
          subst (SettledBy a port s) (sym (slot_refused x e))
            (rw (acquire-raises s.governor a port x e) (Settled-refl a s.governor))
    ]

    connect-cases :
        (scope : ScopeProfile) (target : ValidatedTarget)
        → let (result, t) = connect scope answer target a port s in
          (connect scope answer target a port s ≡ attempt_in_slot answer a port s)
          ⊎ ((attempts_for result a port ≡ []) × (t.governor ≡ s.governor))
    unfolding connect deny_connect
    connect-cases scope target = ground arith

    unsettled :
        (started : List (IpAddress × ℕ)) (g : IntensityGovernor IpAddress)
        → started ≡ []
        → g ≡ s.governor
        → Settled a (length started) s.governor g
    unsettled started g p q =
        subst (λ xs. Settled a (length xs) s.governor g) (sym p)
          (subst (λ h. Settled a 0 s.governor h) (sym q) (Settled-refl a s.governor))

    -- Whatever the result of `connect`, all permits that it took are free again afterwards, globally
    -- and for every host, and exactly the connections that it started are counted, against the host
    -- that they went to.
    pub connect-Settled :
        (scope : ScopeProfile) (target : ValidatedTarget)
        → let (result, t) = connect scope answer target a port s in
          Settled a (length (attempts_for result a port)) s.governor t.governor
    connect-Settled scope target = elim (connect-cases scope target) [
      | inl e ↦ subst (SettledBy a port s) (sym e) attempt_in_slot-Settled
      | inr (p, q) ↦ unsettled _ _ p q
    ]
