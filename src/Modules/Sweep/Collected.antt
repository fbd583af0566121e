-- ===== src/Modules/Sweep/Collected.antt =====
-- What the loop over the outcomes of the waves has gathered when it ends.
use scan_ledger.Prelude.{
  ◌≡◌, refl, ap, arith, Bool, true, false, any, Option, none, some, List, [], ◌∷◌, map, Outcome,
  returns, raises, >>=-returns, returns-injective, subst, All,
}
use scan_ledger.Guard.Connect.{ConnectError, over_budget}
use scan_ledger.Scan.Concurrency.{concat}
use scan_ledger.Modules.Sweep.{Swept, collect, keep, lift_module, lift_connect}
use scan_ledger.Modules.Ports.{ModuleError}

module _ {A : Type 0} where
  abbrev pub kept_of : Outcome ConnectError (Option A) → List A
  kept_of (returns (some a)) = a ∷ []
  kept_of (returns none) = []
  kept_of (raises x) = []

  abbrev pub over_budget_of : Outcome ConnectError (Option A) → Bool
  over_budget_of (raises (over_budget x)) = true
  over_budget_of _ = false

  abbrev Gathered : List (Outcome ConnectError (Option A)) → Swept A → Type 0
  Gathered outcomes s =
      (s.kept ≡ concat (map kept_of outcomes)) × (s.budget_reached ≡ any outcomes over_budget_of)

  pub collect-returns :
      (outcomes : List (Outcome ConnectError (Option A))) (s : Swept A)
      → collect outcomes ≡ returns s
      → (s.kept ≡ concat (map kept_of outcomes)) × (s.budget_reached ≡ any outcomes over_budget_of)
  unfolding collect
  collect-returns [] s h = subst (Gathered []) (returns-injective h) (refl, refl)
  collect-returns (returns none ∷ outcomes) s h = collect-returns outcomes s h
  collect-returns (returns (some a) ∷ outcomes) s h =
      let (t, e, built) = >>=-returns (collect outcomes) _ h in
      let (k, b) = collect-returns outcomes t e in
      subst (Gathered (returns (some a) ∷ outcomes)) (returns-injective built)
        (ap (λ r. a ∷ r) k, b)
  collect-returns (raises (over_budget x) ∷ outcomes) s h =
      let (t, e, built) = >>=-returns (collect outcomes) _ h in
      let (k, b) = collect-returns outcomes t e in
      subst (Gathered (raises (over_budget x) ∷ outcomes)) (returns-injective built) (k, refl)
  collect-returns (raises x ∷ outcomes) s h = ground arith

  -- An outcome that the loop takes in: no exception but a used up budget.
  abbrev pub Taken : Outcome ConnectError (Option A) → Type 0
  Taken o = (x : ConnectError) → o ≡ raises x → over_budget_of (raises x) ≡ true

  pub collect-total :
      (outcomes : List (Outcome ConnectError (Option A)))
      → All Taken outcomes
      → (s : Swept A) × (collect outcomes ≡ returns s)
  unfolding collect
  collect-total [] taken = (_, refl)
  collect-total (returns none ∷ outcomes) taken = collect-total outcomes taken.1
  collect-total (returns (some a) ∷ outcomes) taken =
      let (s, e) = collect-total outcomes taken.1 in (keep a s, rw e refl)
  collect-total (raises (over_budget x) ∷ outcomes) taken =
      let (s, e) = collect-total outcomes taken.1 in (record s { budget_reached = true }, rw e refl)
  collect-total (raises x ∷ outcomes) taken = absurd (ground (arith, taken.0 x refl))

pub lift_module-returns :
    {A : Type 0} (m : Outcome ModuleError A) (a : A) → lift_module m ≡ returns a → m ≡ returns a
lift_module-returns (returns b) a h = ground arith
lift_module-returns (raises x) a h = ground arith

pub lift_connect-returns :
    {A : Type 0} (m : Outcome ConnectError A) (a : A) → lift_connect m ≡ returns a → m ≡ returns a
lift_connect-returns (returns b) a h = ground arith
lift_connect-returns (raises x) a h = ground arith
