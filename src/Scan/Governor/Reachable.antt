-- ===== src/Scan/Governor/Reachable.antt =====
-- The bounds of backend/app/scan/governor.py in every state that the tasks can reach.
use scan_ledger.Prelude.{
  ℕ, ◌+◌, ◌≤◌, ◌<◌, ◌≡◌, refl, Bool, true, false, arith, List, [], ◌∷◌, length, count_if,
  count_if-le, all, Eq, String, Dict, returns, get, subst,
}
use scan_ledger.Scan.Governor.{
  IntensityGovernor, GovernorLimits, probes_made_against, host_permits, report_error,
  report_success, hard_ceiling, create, start, global_field, host_field, scan_budget_field,
  host_budget_field,
}
use scan_ledger.Scan.Governor.Tasks.{
  Task, World, holds_global, is_pending, is_connecting, is_open, connects_to, pends_at, is_over,
  is_fresh, Step, Reach, pass_budget, refuse, get_global, abandon, get_host, abandon_host, leave,
  keep_open, close, again, failed, succeeded, next_wave, here, next,
}
use scan_ledger.Scan.Governor.Ceiling.{Fits, create-Fits}
use scan_ledger.Scan.Governor.Bounds.{
  Inv, Move-Inv, pass_budget-Move, refuse-Move, get_global-Move, abandon-Move, get_host-Move,
  abandon_host-Move, leave-Move, keep_open-Move, close-Move, again-Move,
}

-- A count of tasks that none of the tasks meets.
count_none :
    {K : Type 0} (ts : List (Task K)) (p q : Task K → Bool)
    → all ts p ≡ true
    → ((t : Task K) → p t ≡ true → q t ≡ false)
    → count_if ts q ≡ 0
count_none [] p q h f = refl
count_none (t ∷ ts) p q h f = ground (arith, f t, count_none ts p q)

count_le :
    {K : Type 0} (ts : List (Task K)) (p q : Task K → Bool)
    → ((t : Task K) → p t ≡ true → q t ≡ true)
    → count_if ts p ≤ count_if ts q
count_le [] p q f = omega arith
count_le (t ∷ ts) p q f = ground (arith, f t, count_le ts p q f)

module _ {K : Type 0} ⦃e : Eq K⦄ (limits : GovernorLimits) (wave_size : ℕ) where
  next_wave-Inv :
      (w : World K) (tasks : List (Task K))
      → all w.tasks is_over ≡ true
      → all tasks is_fresh ≡ true
      → length tasks ≤ wave_size
      → Inv limits wave_size w
      → Inv limits wave_size (record w { tasks = tasks })
  next_wave-Inv w tasks over new few i =
      let none_now = λ (q : Task K → Bool). count_none tasks is_fresh q new in
      let none_before = λ (q : Task K → Bool). count_none w.tasks is_over q over in
      record {
        limits_kept = i.limits_kept;
        few = few;
        global_permits = omega (
          arith,
          i.global_permits,
          none_now holds_global (λ t p. ground arith),
          none_before holds_global (λ t p. ground arith),
        );
        host_permits_kept = λ j. omega (
          arith,
          i.host_permits_kept j,
          none_now (connects_to j) (λ t p. ground arith),
          none_before (connects_to j) (λ t p. ground arith),
        );
        scan_budget = omega (arith, i.scan_budget, none_now is_pending (λ t p. ground arith));
        host_budget =
            λ j. omega (arith, i.host_budget j, none_now (pends_at j) (λ t p. ground arith));
      }

  Step-Inv : {u v : World K} → Step wave_size u v → Inv limits wave_size u → Inv limits wave_size v
  unfolding report_error report_success host_permits probes_made_against
  Step-Inv (pass_budget g xs ys h room) i =
      Move-Inv limits wave_size xs ys h g g _ _ (pass_budget-Move limits wave_size g g h room) i
  Step-Inv (refuse g xs ys h x r) i =
      Move-Inv limits wave_size xs ys h g g _ _ (refuse-Move limits wave_size g h) i
  Step-Inv (get_global g g' xs ys h took) i =
      Move-Inv limits wave_size xs ys h g g' _ _ (get_global-Move limits wave_size g g' h took) i
  Step-Inv (abandon g xs ys h) i =
      Move-Inv limits wave_size xs ys h g g _ _ (abandon-Move limits wave_size g h) i
  Step-Inv (get_host g g' xs ys h took) i =
      Move-Inv limits wave_size xs ys h g g' _ _ (get_host-Move limits wave_size g g' h took) i
  Step-Inv (abandon_host g xs ys h) i =
      Move-Inv limits wave_size xs ys h g _ _ _ (abandon_host-Move limits wave_size g h) i
  Step-Inv (leave g xs ys h) i =
      Move-Inv limits wave_size xs ys h g _ _ _ (leave-Move limits wave_size g h) i
  Step-Inv (keep_open g xs ys h) i =
      Move-Inv limits wave_size xs ys h g _ _ _ (keep_open-Move limits wave_size g h) i
  Step-Inv (close g xs ys h) i =
      Move-Inv limits wave_size xs ys h g _ _ _ (close-Move limits wave_size g h) i
  Step-Inv (again g xs ys h) i =
      Move-Inv limits wave_size xs ys h g _ _ _ (again-Move limits wave_size g h) i
  Step-Inv (failed w h) i = record {
    limits_kept = i.limits_kept;
    few = i.few;
    global_permits = i.global_permits;
    host_permits_kept = i.host_permits_kept;
    scan_budget = i.scan_budget;
    host_budget = i.host_budget;
  }
  Step-Inv (succeeded w h) i = record {
    limits_kept = i.limits_kept;
    few = i.few;
    global_permits = i.global_permits;
    host_permits_kept = i.host_permits_kept;
    scan_budget = i.scan_budget;
    host_budget = i.host_budget;
  }
  Step-Inv (next_wave w tasks over new few) i = next_wave-Inv w tasks over new few i

  Reach-Inv :
      {u v : World K} → Inv limits wave_size u → Reach wave_size u v → Inv limits wave_size v
  Reach-Inv i here = i
  Reach-Inv i (next r s) = Step-Inv s (Reach-Inv i r)

-- A governor as `__init__` leaves it, before any task.
abbrev pub idle : {K : Type 0} → IntensityGovernor K → World K
idle g = record { governor = g; tasks = [] }

module _ {K : Type 0} ⦃e : Eq K⦄ where
  start-Inv :
      (name : String) (l : GovernorLimits) (wave_size : ℕ)
      → Fits l hard_ceiling
      → 0 < wave_size
      → Inv l wave_size (idle (start {K = K} name l))
  unfolding host_permits probes_made_against get
  start-Inv name l wave_size fits pos = record {
    limits_kept = refl;
    few = omega arith;
    global_permits = omega arith;
    host_permits_kept = λ h. omega arith;
    scan_budget = omega (arith, fits scan_budget_field);
    host_budget = λ h. omega (arith, fits host_budget_field);
  }

  module _ (catalog : Dict String GovernorLimits) (name : String) (wave_size : ℕ)
      {g : IntensityGovernor K} {w : World K} (made : create catalog name ≡ returns g)
      (pos : 0 < wave_size) (run : Reach wave_size (idle g) w) where
    reached : Inv g.limits wave_size w
    reached =
        let (fits, listed, started) = create-Fits catalog name g made in
        Reach-Inv g.limits wave_size
          (subst (λ h. Inv g.limits wave_size (idle h)) started
            (start-Inv name g.limits wave_size fits pos))
          run

    -- Whatever the interleaving of the waves of tasks, each of which may connect several times and may
    -- be abandoned at any await, at no time are more connection attempts under way than the global
    -- concurrency, which is at most 200, nor more to one host than the concurrency per host, which is
    -- at most 20. The sockets that stay open after their slot is given back are at most, with the
    -- attempts, as many as the size of a wave.
    pub concurrency_bounded :
        (count_if w.tasks is_connecting ≤ g.limits.global_concurrency)
        × (g.limits.global_concurrency ≤ 200)
        × ((h : K)
            → (count_if w.tasks (connects_to h) ≤ g.limits.per_host_concurrency)
              × (g.limits.per_host_concurrency ≤ 20))
        × (count_if w.tasks is_open ≤ wave_size)
    concurrency_bounded =
        let fits = (create-Fits catalog name g made).0 in
        (
          omega (
            arith,
            reached.global_permits,
            count_le w.tasks is_connecting holds_global (λ t p. ground arith),
          ),
          (fits global_field).1,
          λ h. (omega (arith, reached.host_permits_kept h), (fits host_field).1),
          omega (arith, reached.few, count_if-le w.tasks is_open),
        )

    -- However often its tasks connect, the probes of a scan stay below its budget and the size of a wave together, and so do those
    -- against one host.
    pub budgets_bounded :
        (w.governor.scan_count < g.limits.per_scan_budget + wave_size)
        × ((h : K) → probes_made_against w.governor h < g.limits.per_host_budget + wave_size)
    budgets_bounded =
        (omega (arith, reached.scan_budget), λ h. omega (arith, reached.host_budget h))
