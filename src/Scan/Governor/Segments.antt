-- ===== src/Scan/Governor/Segments.antt =====
-- What each segment of `_acquire` and `_release` in backend/app/scan/governor.py does to the state.
use scan_ledger.Prelude.{
  ℕ, ◌+◌, ◌-◌, ◌<◌, ◌≡◌, refl, Bool, some, arith, if◌then◌else◌, Eq, ◌==◌, get-put, returns,
}
use scan_ledger.Scan.Governor.{
  IntensityGovernor, probes_made_against, host_permits, check_budget, take_global, take_host,
  release,
}

abbrev pub one_if : Bool → ℕ
one_if b = if b then 1 else 0

module _ {K : Type 0} ⦃e : Eq K⦄ (g : IntensityGovernor K) where
  pub record TakesGlobal (g' : IntensityGovernor K) : Type 0 where
    pub limits_kept : g'.limits ≡ g.limits
    pub free : g'.global_free + 1 ≡ g.global_free
    pub permits_kept : (j : K) → host_permits g' j ≡ host_permits g j
    pub scan_kept : g'.scan_count ≡ g.scan_count
    pub probes_kept : (j : K) → probes_made_against g' j ≡ probes_made_against g j

  pub take_global_lem : (g' : IntensityGovernor K) → take_global g ≡ some g' → TakesGlobal g'
  unfolding take_global host_permits probes_made_against
  take_global_lem g' h = record {
    limits_kept = ground arith;
    free = ground arith;
    permits_kept = λ j. ground arith;
    scan_kept = ground arith;
    probes_kept = λ j. ground arith;
  }

  module _ (h : K) where
    pub record TakesHost (g' : IntensityGovernor K) : Type 0 where
      pub limits_kept : g'.limits ≡ g.limits
      pub free_kept : g'.global_free ≡ g.global_free
      pub permits : (j : K) → host_permits g' j + one_if (h == j) ≡ host_permits g j
      pub scan : g'.scan_count ≡ g.scan_count + 1
      pub probes : (j : K) → probes_made_against g' j ≡ probes_made_against g j + one_if (h == j)

    pub take_host_lem : (g' : IntensityGovernor K) → take_host g h ≡ some g' → TakesHost g'
    unfolding take_host host_permits probes_made_against
    take_host_lem g' t = record {
      limits_kept = ground arith;
      free_kept = ground arith;
      permits = λ j. ground (arith, get-put g.host_free h j (host_permits g h - 1), e.beq_iff h j);
      scan = ground arith;
      probes = λ j.
          ground (arith, get-put g.host_counts h j (probes_made_against g h + 1), e.beq_iff h j);
    }

    pub record Releases (g' : IntensityGovernor K) : Type 0 where
      pub limits_kept : g'.limits ≡ g.limits
      pub free : g'.global_free ≡ g.global_free + 1
      pub permits : (j : K) → host_permits g' j ≡ host_permits g j + one_if (h == j)
      pub scan_kept : g'.scan_count ≡ g.scan_count
      pub probes_kept : (j : K) → probes_made_against g' j ≡ probes_made_against g j

    pub release_lem : Releases (release g h)
    unfolding release host_permits probes_made_against
    release_lem = record {
      limits_kept = refl;
      free = refl;
      permits = λ j. ground (arith, get-put g.host_free h j (host_permits g h + 1), e.beq_iff h j);
      scan_kept = refl;
      probes_kept = λ j. refl;
    }

    -- A passed budget test means that both budgets had room at that moment.
    pub check_budget_room :
        check_budget g h ≡ returns tt
        → (g.scan_count < g.limits.per_scan_budget)
          × (probes_made_against g h < g.limits.per_host_budget)
    unfolding check_budget
    check_budget_room t = ground arith
