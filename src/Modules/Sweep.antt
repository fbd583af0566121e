-- ===== src/Modules/Sweep.antt =====
-- What the probe modules of backend/app/modules share: how `run` takes in the outcomes of its waves, and
-- `ModuleContext` of base.py, as far as they read it. What each call of the guard's `connect` gives when it
-- ends is an argument, since the event loop settles the order of the calls within a wave.
pub mod Grouping
pub mod Collected
use scan_ledger.Prelude.{
  ℕ, ltb, leb, Bool, true, false, ◌||◌, Option, none, some, List, [], ◌∷◌, ◌++◌, String, map,
  if◌then◌else◌, Outcome, returns, raises, ◌>>=◌, Dict, get, put, Eq,
}
use scan_ledger.Net.{IpAddress}
use scan_ledger.Guard.ScanGuard.{ValidatedTarget}
use scan_ledger.Guard.Connect.{ConnectError, over_budget}
use scan_ledger.Modules.Ports.{PortOptions, ModuleError, or_else}
use scan_ledger.Models.Findings.{Finding}

pub record ModuleContext : Type 0 where
  pub target : ValidatedTarget
  pub options : PortOptions
  -- `guard.connect(target, address, port, governor)`, when it has ended
  pub connect_of : IpAddress → ℕ → Outcome ConnectError (Unit {0})
  -- `is_cancel_requested()`, when the probe of this address and port begins
  pub cancel_at : IpAddress → ℕ → Bool

pub data ProbeError : Type 0 where
  of_module : ModuleError → ProbeError
  of_connect : ConnectError → ProbeError

abbrev pub lift_module : {A : Type 0} → Outcome ModuleError A → Outcome ProbeError A
lift_module (returns a) = returns a
lift_module (raises x) = raises (of_module x)

abbrev pub lift_connect : {A : Type 0} → Outcome ConnectError A → Outcome ProbeError A
lift_connect (returns a) = returns a
lift_connect (raises x) = raises (of_connect x)

pub record ProbeResult (V : Type 0) : Type 0 where
  pub findings : List (Finding V)
  pub warnings : List String

-- What the loop over the outcomes has gathered.
pub record Swept (A : Type 0) : Type 0 where
  pub kept : List A
  pub budget_reached : Bool

module _ {A : Type 0} where
  abbrev pub keep : A → Swept A → Swept A
  keep a s = record s { kept = a ∷ s.kept }

  -- A used up budget is noted, any other exception ends the module.
  unfoldable pub collect : List (Outcome ConnectError (Option A)) → Outcome ConnectError (Swept A)
  collect [] = returns (record { kept = []; budget_reached = false })
  collect (returns none ∷ outcomes) = collect outcomes
  collect (returns (some a) ∷ outcomes) = collect outcomes >>= λ s. returns (keep a s)
  collect (raises (over_budget x) ∷ outcomes) =
      collect outcomes >>= λ s. returns (record s { budget_reached = true })
  collect (raises x ∷ outcomes) = raises x

-- `[… for a in xs for b in ys]`
unfoldable pub pairs : {A B : Type 0} → List A → List B → List (A × B)
pairs [] ys = []
pairs (x ∷ xs) ys = map (λ y. (x, y)) ys ++ pairs xs ys

-- `sorted(ports)`
unfoldable pub insert_sorted : ℕ → List ℕ → List ℕ
insert_sorted p [] = p ∷ []
insert_sorted p (q ∷ ports) =
    let rest = insert_sorted p ports in if leb p q then p ∷ q ∷ ports else q ∷ rest

unfoldable pub sorted : List ℕ → List ℕ
unfolding insert_sorted
sorted [] = []
sorted (p ∷ ports) = insert_sorted p (sorted ports)

-- `d.setdefault(k, []).append(v)`
abbrev pub append_at : {K V : Type 0} ⦃e : Eq K⦄ → Dict K (List V) → K → V → Dict K (List V)
append_at d k v = put d k (or_else (get d k) [] ++ v ∷ [])
