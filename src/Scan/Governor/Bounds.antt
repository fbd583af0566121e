-- ===== src/Scan/Governor/Bounds.antt =====
-- Whatever the interleaving, the governor of backend/app/scan/governor.py keeps its bounds.
use scan_ledger.Prelude.{
  ℕ, ◌+◌, ◌≤◌, ◌<◌, ◌≡◌, refl, Bool, some, arith, List, ◌∷◌, ◌++◌, length, count_if,
  count_if-append, length-append, count_if-le, Bool-cases, subst, beq_sound, ◌⊎◌, inl, inr, ◌∙◌, Eq,
  ◌==◌, returns,
}
use scan_ledger.Scan.Governor.{
  IntensityGovernor, GovernorLimits, probes_made_against, host_permits, check_budget, take_global,
  take_host, give_back_global, release,
}
use scan_ledger.Scan.Governor.Segments.{
  one_if, take_global_lem, take_host_lem, release_lem, check_budget_room,
}
use scan_ledger.Scan.Governor.Tasks.{
  Phase, fresh, checked, holding, connecting, opened, finished, refused, Task, task, World, at,
  holds_global, is_pending, connects_to, pends_at,
}

module _ {K : Type 0} ⦃e : Eq K⦄ (limits : GovernorLimits) (wave_size : ℕ) where
  pub record Inv (w : World K) : Type 0 where
    pub limits_kept : w.governor.limits ≡ limits
    pub few : length w.tasks ≤ wave_size
    pub global_permits :
        w.governor.global_free + count_if w.tasks holds_global ≡ limits.global_concurrency
    pub host_permits_kept :
        (h : K)
        → host_permits w.governor h + count_if w.tasks (connects_to h) ≡ limits.per_host_concurrency
    pub scan_budget :
        w.governor.scan_count + count_if w.tasks is_pending + 1 ≤ limits.per_scan_budget + wave_size
    pub host_budget :
        (h : K)
        → probes_made_against w.governor h + count_if w.tasks (pends_at h) + 1
          ≤ limits.per_host_budget + wave_size

  -- What a move of one task, from phase `p` to phase `q`, has to keep.
  pub record Move (h : K) (g g' : IntensityGovernor K) (p q : Phase) : Type 0 where
    pub limits_same : g'.limits ≡ g.limits
    pub global_moved :
        g'.global_free + one_if (holds_global (task h q))
        ≡ g.global_free + one_if (holds_global (task h p))
    pub host_moved :
        (j : K)
        → host_permits g' j + one_if (connects_to j (task h q))
          ≡ host_permits g j + one_if (connects_to j (task h p))
    pub scan_moved :
        (g'.scan_count + one_if (is_pending (task h q))
          ≤ g.scan_count + one_if (is_pending (task h p)))
        ⊎ (g'.scan_count < g.limits.per_scan_budget)
    pub probes_moved :
        (j : K)
        → (probes_made_against g' j + one_if (pends_at j (task h q))
            ≤ probes_made_against g j + one_if (pends_at j (task h p)))
          ⊎ (probes_made_against g' j < g.limits.per_host_budget)

  -- A count over the tasks, with one of them apart.
  count_at :
      (before after : List (Task K)) (t : Task K) (p : Task K → Bool)
      → count_if (before ++ t ∷ after) p ≡ count_if before p + (one_if (p t) + count_if after p)
  count_at before after t p = count_if-append before (t ∷ after) p

  budget_moved :
      (before after : List (Task K)) (t u : Task K) (p : Task K → Bool) (n m budget bound : ℕ)
      → n + count_if (before ++ t ∷ after) p + 1 ≤ budget + bound
      → length (before ++ u ∷ after) ≤ bound
      → (m + one_if (p u) ≤ n + one_if (p t)) ⊎ (m < budget)
      → m + count_if (before ++ u ∷ after) p + 1 ≤ budget + bound
  budget_moved before after t u p n m budget bound old few move = omega (
    arith,
    old,
    few,
    move,
    count_at before after t p,
    count_at before after u p,
    count_if-le (before ++ u ∷ after) p,
  )

  module _ (before after : List (Task K)) (h : K) where
    length_at : (t u : Task K) → length (before ++ t ∷ after) ≡ length (before ++ u ∷ after)
    length_at t u =
        omega (arith, length-append before (t ∷ after), length-append before (u ∷ after))

    pub Move-Inv :
        (g g' : IntensityGovernor K) (p q : Phase)
        → Move h g g' p q
        → Inv (at g before (task h p) after)
        → Inv (at g' before (task h q) after)
    Move-Inv g g' p q m i =
        let few' : length (before ++ task h q ∷ after) ≤ wave_size =
          omega (arith, length_at (task h p) (task h q), i.few) in
        record {
          limits_kept = m.limits_same ∙ i.limits_kept;
          few = few';
          global_permits = omega (
            arith,
            i.global_permits,
            m.global_moved,
            count_at before after (task h p) holds_global,
            count_at before after (task h q) holds_global,
          );
          host_permits_kept = λ j. omega (
            arith,
            i.host_permits_kept j,
            m.host_moved j,
            count_at before after (task h p) (connects_to j),
            count_at before after (task h q) (connects_to j),
          );
          scan_budget =
              budget_moved before after (task h p) (task h q) is_pending g.scan_count g'.scan_count
                limits.per_scan_budget wave_size i.scan_budget few'
                (rw (← i.limits_kept) m.scan_moved);
          host_budget = λ j.
              budget_moved before after (task h p) (task h q) (pends_at j) (probes_made_against g j)
                (probes_made_against g' j) limits.per_host_budget wave_size (i.host_budget j) few'
                (rw (← i.limits_kept) (m.probes_moved j));
        }

  module _ (g g' : IntensityGovernor K) (h : K) where
    pub pass_budget-Move : check_budget g h ≡ returns tt → Move h g g fresh checked
    pass_budget-Move room = record {
      limits_same = refl;
      global_moved = refl;
      host_moved = λ j. refl;
      scan_moved = inr (check_budget_room g h room).0;
      probes_moved = λ j. elim (Bool-cases (h == j)) [
        | inl same ↦ inr (
            subst (λ k. probes_made_against g k < g.limits.per_host_budget) (beq_sound h j same)
              (check_budget_room g h room).1)
        | inr other ↦ inl (rw other (omega arith))
      ];
    }

    pub get_global-Move : take_global g ≡ some g' → Move h g g' checked holding
    get_global-Move took =
        let t = take_global_lem g g' took in
        record {
          limits_same = t.limits_kept;
          global_moved = omega (arith, t.free);
          host_moved = λ j. omega (arith, t.permits_kept j);
          scan_moved = inl (omega (arith, t.scan_kept));
          probes_moved = λ j. inl (omega (arith, t.probes_kept j));
        }

    pub get_host-Move : take_host g h ≡ some g' → Move h g g' holding connecting
    get_host-Move took =
        let t = take_host_lem g h g' took in
        record {
          limits_same = t.limits_kept;
          global_moved = omega (arith, t.free_kept);
          host_moved = λ j. omega (arith, t.permits j);
          scan_moved = inl (omega (arith, t.scan));
          probes_moved = λ j. inl (omega (arith, t.probes j));
        }

  module _ (g : IntensityGovernor K) (h : K) where
    pub refuse-Move : Move h g g fresh refused
    refuse-Move = record {
      limits_same = refl;
      global_moved = refl;
      host_moved = λ j. refl;
      scan_moved = inl (omega arith);
      probes_moved = λ j. inl (omega arith);
    }

    pub abandon-Move : Move h g g checked finished
    abandon-Move = record {
      limits_same = refl;
      global_moved = refl;
      host_moved = λ j. refl;
      scan_moved = inl (omega arith);
      probes_moved = λ j. inl (omega arith);
    }

    pub abandon_host-Move : Move h g (give_back_global g) holding finished
    unfolding give_back_global host_permits probes_made_against
    abandon_host-Move = record {
      limits_same = refl;
      global_moved = omega arith;
      host_moved = λ j. refl;
      scan_moved = inl (omega arith);
      probes_moved = λ j. inl (omega arith);
    }

    pub close-Move : Move h g g opened finished
    close-Move = record {
      limits_same = refl;
      global_moved = refl;
      host_moved = λ j. refl;
      scan_moved = inl (omega arith);
      probes_moved = λ j. inl (omega arith);
    }

    pub again-Move : Move h g g finished fresh
    again-Move = record {
      limits_same = refl;
      global_moved = refl;
      host_moved = λ j. refl;
      scan_moved = inl (omega arith);
      probes_moved = λ j. inl (omega arith);
    }

    pub leave-Move : Move h g (release g h) connecting finished
    leave-Move =
        let t = release_lem g h in
        record {
          limits_same = t.limits_kept;
          global_moved = omega (arith, t.free);
          host_moved = λ j. omega (arith, t.permits j);
          scan_moved = inl (omega (arith, t.scan_kept));
          probes_moved = λ j. inl (omega (arith, t.probes_kept j));
        }

    pub keep_open-Move : Move h g (release g h) connecting opened
    keep_open-Move =
        let m = leave-Move in
        record {
          limits_same = m.limits_same;
          global_moved = m.global_moved;
          host_moved = m.host_moved;
          scan_moved = m.scan_moved;
          probes_moved = m.probes_moved;
        }
