-- ===== src/Scan/Governor.antt =====
-- backend/app/scan/governor.py: limits and their ceiling, the profiles, and the governor's state.
-- Connections per second are counted in thousandths, times in milliseconds. A semaphore is its
-- number of free permits; `none` means that the caller has to wait.
pub mod Ceiling
pub mod Segments
pub mod Tasks
pub mod Bounds
pub mod Reachable
use scan_ledger.Prelude.{
  ℕ, zero, suc, ◌+◌, ◌-◌, ◌*◌, ◌≡◌, Bool, true, false, Option, none, some, List, [], ◌∷◌, String,
  leb, ltb, if◌then◌else◌, Eq, string_eq, nat_eq, ◌==◌, min, length, Dict, get, put, pop, Outcome,
  returns, raises, ◌>>=◌, ◌>>◌,
}

pub record GovernorLimits : Type 0 where
  pub global_concurrency : ℕ
  pub per_host_concurrency : ℕ
  pub connections_per_second : ℕ
  pub connect_timeout : ℕ
  pub per_host_budget : ℕ
  pub per_scan_budget : ℕ

-- `fields(self)`, in the order of the class.
pub data Field : Type 0 where
  global_field host_field rate_field timeout_field host_budget_field scan_budget_field : Field

abbrev pub fields : List Field
fields =
    global_field ∷ host_field ∷ rate_field ∷ timeout_field ∷ host_budget_field ∷ scan_budget_field
    ∷ []

abbrev pub getattr : GovernorLimits → Field → ℕ
getattr l global_field = l.global_concurrency
getattr l host_field = l.per_host_concurrency
getattr l rate_field = l.connections_per_second
getattr l timeout_field = l.connect_timeout
getattr l host_budget_field = l.per_host_budget
getattr l scan_budget_field = l.per_scan_budget

pub data GovernorConfigError : Type 0 where
  not_positive : Field → GovernorConfigError
  above_ceiling : Field → ℕ → ℕ → GovernorConfigError
  unknown_profile : String → GovernorConfigError

-- One round of the loop of `validate_against`.
unfoldable pub check_field :
    GovernorLimits → GovernorLimits → Field → Outcome GovernorConfigError (Unit {0})
check_field l ceiling f =
    if leb (getattr l f) 0
    then raises (not_positive f)
    else if ltb (getattr ceiling f) (getattr l f)
    then raises (above_ceiling f (getattr l f) (getattr ceiling f))
    else returns tt

unfoldable pub validate_fields :
    GovernorLimits → GovernorLimits → List Field → Outcome GovernorConfigError (Unit {0})
validate_fields l ceiling [] = returns tt
validate_fields l ceiling (f ∷ fs) = do check_field l ceiling f; validate_fields l ceiling fs

unfoldable pub validate_against :
    GovernorLimits → GovernorLimits → Outcome GovernorConfigError (Unit {0})
unfolding validate_fields
validate_against l ceiling = validate_fields l ceiling fields

abbrev pub hard_ceiling : GovernorLimits
hard_ceiling = record {
  global_concurrency = 200;
  per_host_concurrency = 20;
  connections_per_second = 50000;
  connect_timeout = 5000;
  per_host_budget = 500;
  per_scan_budget = 5000;
}

abbrev pub polite : GovernorLimits
polite = record {
  global_concurrency = 20;
  per_host_concurrency = 4;
  connections_per_second = 5000;
  connect_timeout = 3000;
  per_host_budget = 200;
  per_scan_budget = 2000;
}

abbrev pub normal : GovernorLimits
normal = record {
  global_concurrency = 60;
  per_host_concurrency = 10;
  connections_per_second = 15000;
  connect_timeout = 3000;
  per_host_budget = 300;
  per_scan_budget = 3000;
}

abbrev pub thorough : GovernorLimits
thorough = record {
  global_concurrency = 150;
  per_host_concurrency = 16;
  connections_per_second = 30000;
  connect_timeout = 4000;
  per_host_budget = 500;
  per_scan_budget = 5000;
}

abbrev pub intensity_profiles : Dict String GovernorLimits
intensity_profiles = ("polite", polite) ∷ ("normal", normal) ∷ ("thorough", thorough) ∷ []

abbrev pub max_backoff : ℕ
max_backoff = 2000

abbrev pub initial_backoff : ℕ
initial_backoff = 50

pub record IntensityGovernor (K : Type 0) : Type 0 where
  pub profile_name : String
  pub limits : GovernorLimits
  pub global_free : ℕ
  pub host_free : Dict K ℕ
  pub host_counts : Dict K ℕ
  pub scan_count : ℕ
  pub backoff : Dict K ℕ

pub data BudgetExceeded (K : Type 0) : Type 0 where
  per_scan : ℕ → BudgetExceeded K
  per_host : K → ℕ → BudgetExceeded K

abbrev pub get_or {κ} : {V : Type κ} → Option V → V → V
get_or none d = d
get_or (some v) d = v

module _ {K : Type 0} where
  -- The state that `__init__` sets up.
  abbrev pub start : String → GovernorLimits → IntensityGovernor K
  start name l = record {
    profile_name = name;
    limits = l;
    global_free = l.global_concurrency;
    host_free = [];
    host_counts = [];
    scan_count = 0;
    backoff = [];
  }

  unfoldable pub with_limits :
      String → GovernorLimits → Outcome GovernorConfigError (IntensityGovernor K)
  unfolding validate_against
  with_limits name l = do validate_against l hard_ceiling; returns (start name l)

  -- `IntensityGovernor.__init__`
  unfoldable pub create :
      Dict String GovernorLimits → String → Outcome GovernorConfigError (IntensityGovernor K)
  unfolding with_limits get
  create catalog name = elim (get catalog name) [
    | none ↦ raises (unknown_profile name)
    | some l ↦ with_limits name l
  ]

  unfoldable pub hosts_touched : IntensityGovernor K → ℕ
  hosts_touched g = length g.host_counts

  module _ ⦃e : Eq K⦄ where
    unfoldable pub probes_made_against : IntensityGovernor K → K → ℕ
    probes_made_against g host = get_or (get g.host_counts host) 0

    unfoldable pub backoff_for : IntensityGovernor K → K → ℕ
    backoff_for g host = get_or (get g.backoff host) 0

    unfoldable pub report_error : IntensityGovernor K → K → IntensityGovernor K
    unfolding backoff_for
    report_error g host =
        let current = backoff_for g host in
        record g {
          backoff =
              put g.backoff host
                (min max_backoff (if current == 0 then initial_backoff else current * 2));
        }

    unfoldable pub report_success : IntensityGovernor K → K → IntensityGovernor K
    report_success g host = record g { backoff = pop g.backoff host }

    -- The free permits of `_host_semaphore(host)`, which is made when it is first asked for.
    unfoldable pub host_permits : IntensityGovernor K → K → ℕ
    host_permits g host = get_or (get g.host_free host) g.limits.per_host_concurrency

    -- The segments of `_acquire` between its awaits: the two budget tests,
    unfoldable pub check_budget : IntensityGovernor K → K → Outcome (BudgetExceeded K) (Unit {0})
    unfolding probes_made_against
    check_budget g host =
        if leb g.limits.per_scan_budget g.scan_count
        then raises (per_scan g.limits.per_scan_budget)
        else if leb g.limits.per_host_budget (probes_made_against g host)
        then raises (per_host host g.limits.per_host_budget)
        else returns tt

    -- the global semaphore,
    unfoldable pub take_global : IntensityGovernor K → Option (IntensityGovernor K)
    take_global g = elim g.global_free [ zero ↦ none | suc n ↦ some (record g { global_free = n }) ]

    -- the host's semaphore with the two counts, which follow it without an await,
    unfoldable pub take_host : IntensityGovernor K → K → Option (IntensityGovernor K)
    unfolding host_permits probes_made_against
    take_host g host = elim (host_permits g host) [
      | zero ↦ none
      | suc n ↦ some (record g {
        host_free = put g.host_free host n;
        scan_count = g.scan_count + 1;
        host_counts = put g.host_counts host (probes_made_against g host + 1);
      })
    ]

    -- and what an exception in the wait for the host's semaphore gives back.
    unfoldable pub give_back_global : IntensityGovernor K → IntensityGovernor K
    give_back_global g = record g { global_free = g.global_free + 1 }

    -- `_release`
    unfoldable pub release : IntensityGovernor K → K → IntensityGovernor K
    unfolding host_permits
    release g host = record g {
      host_free = put g.host_free host (host_permits g host + 1);
      global_free = g.global_free + 1;
    }
