-- ===== src/Scan/Governor/Tasks.antt =====
-- The tasks of one wave of probes, interleaved at the awaits of `_acquire` in
-- backend/app/scan/governor.py. A task is between two awaits; a step runs one of them to its next
-- await, and a wait may end by an exception. A task may connect several times, as `probe` of
-- backend/app/modules/host_discovery.py does, and what it has connected stays open after its slot is
-- given back until it closes it, as the streams of backend/app/guard/scanguard.py do. The waits for
-- the backoff and for the token bucket end at any time, so the relation has every interleaving of the
-- code and more: it is for bounds in every state, not for what a state can be reached.
use scan_ledger.Prelude.{
  ℕ, ◌≤◌, ◌≡◌, Bool, true, false, ◌&&◌, some, List, ◌∷◌, ◌++◌, length, all, Eq, ◌==◌, returns,
  raises,
}
use scan_ledger.Scan.Governor.{
  IntensityGovernor, BudgetExceeded, check_budget, take_global, take_host, give_back_global,
  release, report_error, report_success,
}

pub data Phase : Type 0 where
  fresh checked holding connecting opened finished refused : Phase

pub record Task (K : Type 0) : Type 0 where
  pub host : K
  pub phase : Phase

pub record World (K : Type 0) : Type 0 where
  pub governor : IntensityGovernor K
  pub tasks : List (Task K)

abbrev pub task : {K : Type 0} → K → Phase → Task K
task h p = record { host = h; phase = p }

abbrev pub holds_global : {K : Type 0} → Task K → Bool
holds_global t = elim t.phase [ holding ↦ true | connecting ↦ true | _ ↦ false ]

-- A task that the budget test let through and that is not counted yet.
abbrev pub is_pending : {K : Type 0} → Task K → Bool
is_pending t = elim t.phase [ checked ↦ true | holding ↦ true | _ ↦ false ]

abbrev pub is_connecting : {K : Type 0} → Task K → Bool
is_connecting t = elim t.phase [ connecting ↦ true | _ ↦ false ]

-- A connection attempt under way, or a socket that is open.
abbrev pub is_open : {K : Type 0} → Task K → Bool
is_open t = elim t.phase [ connecting ↦ true | opened ↦ true | _ ↦ false ]

abbrev pub is_over : {K : Type 0} → Task K → Bool
is_over t = elim t.phase [ finished ↦ true | refused ↦ true | _ ↦ false ]

abbrev pub is_fresh : {K : Type 0} → Task K → Bool
is_fresh t = elim t.phase [ fresh ↦ true | _ ↦ false ]

module _ {K : Type 0} ⦃e : Eq K⦄ where
  abbrev pub connects_to : K → Task K → Bool
  connects_to h t = is_connecting t && t.host == h

  abbrev pub pends_at : K → Task K → Bool
  pends_at h t = is_pending t && t.host == h

  abbrev pub at : IntensityGovernor K → List (Task K) → Task K → List (Task K) → World K
  at g before t after = record { governor = g; tasks = before ++ t ∷ after }

  pub data Step (wave_size : ℕ) : World K → World K → Type 0 where
    pass_budget :
        (g : IntensityGovernor K) (before after : List (Task K)) (h : K)
        → check_budget g h ≡ returns tt
        → Step wave_size (at g before (task h fresh) after) (at g before (task h checked) after)
    refuse :
        (g : IntensityGovernor K) (before after : List (Task K)) (h : K) (x : BudgetExceeded K)
        → check_budget g h ≡ raises x
        → Step wave_size (at g before (task h fresh) after) (at g before (task h refused) after)
    get_global :
        (g g' : IntensityGovernor K) (before after : List (Task K)) (h : K)
        → take_global g ≡ some g'
        → Step wave_size (at g before (task h checked) after) (at g' before (task h holding) after)
    abandon :
        (g : IntensityGovernor K) (before after : List (Task K)) (h : K)
        → Step wave_size (at g before (task h checked) after) (at g before (task h finished) after)
    get_host :
        (g g' : IntensityGovernor K) (before after : List (Task K)) (h : K)
        → take_host g h ≡ some g'
        → Step wave_size
            (at g before (task h holding) after)
            (at g' before (task h connecting) after)
    abandon_host :
        (g : IntensityGovernor K) (before after : List (Task K)) (h : K)
        → Step wave_size
            (at g before (task h holding) after)
            (at (give_back_global g) before (task h finished) after)
    leave :
        (g : IntensityGovernor K) (before after : List (Task K)) (h : K)
        → Step wave_size
            (at g before (task h connecting) after)
            (at (release g h) before (task h finished) after)
    keep_open :
        (g : IntensityGovernor K) (before after : List (Task K)) (h : K)
        → Step wave_size
            (at g before (task h connecting) after)
            (at (release g h) before (task h opened) after)
    close :
        (g : IntensityGovernor K) (before after : List (Task K)) (h : K)
        → Step wave_size (at g before (task h opened) after) (at g before (task h finished) after)
    again :
        (g : IntensityGovernor K) (before after : List (Task K)) (h : K)
        → Step wave_size (at g before (task h finished) after) (at g before (task h fresh) after)
    failed :
        (w : World K) (h : K) → Step wave_size w (record w { governor = report_error w.governor h })
    succeeded :
        (w : World K) (h : K)
        → Step wave_size w (record w { governor = report_success w.governor h })
    next_wave :
        (w : World K) (tasks : List (Task K))
        → all w.tasks is_over ≡ true
        → all tasks is_fresh ≡ true
        → length tasks ≤ wave_size
        → Step wave_size w (record w { tasks = tasks })

  pub data Reach (wave_size : ℕ) (w : World K) : World K → Type 0 where
    here : Reach wave_size w w
    next : {u v : World K} → Reach wave_size w u → Step wave_size u v → Reach wave_size w v
