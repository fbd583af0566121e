-- ===== src/Services/Scans/Gates.antt =====
-- What backend/app/services/scans.py lets through to the queue.
use mathlib.Core.List.{append-nil}
use scan_ledger.Prelude.{
  ℕ, string_eq, ◌≡◌, ◌≢◌, refl, sym, subst, inl, inr, true, false, ◌⊎◌, Bool-cases, none, some,
  Option-cases, arith, List, [], ◌∷◌, ◌++◌, String, map, has, get, All, Outcome, returns, raises,
  Outcome-cases,
}
use scan_ledger.Net.{IpAddress}
use scan_ledger.Modules.{ModuleRegistry, ModuleMetadata}
use scan_ledger.Db.{Database, ScanLedgerRow, ScopeProfileRow, find_scope, store_entries}
use scan_ledger.Guard.Ranges.{Reason}
use scan_ledger.Guard.Ledger.{Ledger, LedgerEntry, Destination}
use scan_ledger.Guard.Scope.{IpReader, ScopeProfile, create}
use scan_ledger.Guard.Scope.Lab.{create-IsValid}
use scan_ledger.Guard.ScanGuard.{TargetRejected, ValidatedTarget, validate_target}
use scan_ledger.Guard.ScanGuard.Proven.{Proven, validate_target-Proven, validated_has_address}
use scan_ledger.Scan.Governor.{intensity_profiles}
use scan_ledger.Services.Scans.{
  ScanCreate, ScanError, index_error, integrity_error, check_modules, has_repeat, normalized_of,
  queued_run, load_scope_profile, check_request, queued_scan, add_scan, settle, create_scan,
}
use scan_ledger.Services.Scans.Checks.{
  check_modules-get, check_modules-handled, normalized_of-returns,
}

module _ (reader : IpReader) (resolver : String → Outcome Reason (List IpAddress))
    (registry : ModuleRegistry) (new_id : String) (now : ℕ) (request : ScanCreate) where
  -- The gates that a request has passed.
  pub record Passed (db : Database) (scope : ScopeProfile) : Type 0 where
    pub attested : request.attestation_accepted ≡ true
    pub known_profile : has intensity_profiles request.intensity_profile ≡ true
    pub known_modules :
        All (λ name. (m : ModuleMetadata) × (get registry name ≡ some m)) request.modules
    pub row : ScopeProfileRow
    pub found : find_scope db.scopes request.scope_id ≡ some row
    pub loaded :
        create reader row.name row.entries row.allow_cgnat row.allow_link_local ≡ returns scope

  found-Passed :
      (db : Database) (scope : ScopeProfile)
      → request.attestation_accepted ≡ true
      → has intensity_profiles request.intensity_profile ≡ true
      → check_modules registry request.modules ≡ returns tt
      → load_scope_profile reader resolver registry new_id now db request.scope_id ≡ returns scope
      → Passed db scope
  unfolding load_scope_profile
  found-Passed db scope p q r h = elim (Option-cases (find_scope db.scopes request.scope_id)) [
    | inl e ↦ absurd (ground arith)
    | inr (row, e) ↦ record {
      attested = p;
      known_profile = q;
      known_modules = check_modules-get registry request.modules r;
      row = row;
      found = e;
      loaded = ground arith;
    }
  ]

  check_request-Passed :
      (db : Database) (scope : ScopeProfile)
      → check_request reader resolver registry new_id now request db ≡ returns scope
      → Passed db scope
  unfolding check_request
  check_request-Passed db scope h =
      found-Passed db scope (ground arith) (ground arith) (ground arith) (ground arith)

  -- What the ledger has gained: rows without a scan, under the scope of the request.
  pub record Audited (old ledger : List ScanLedgerRow) : Type 0 where
    pub rows : List ScanLedgerRow
    pub appended : ledger ≡ old ++ rows
    pub unowned :
        All (λ (r : ScanLedgerRow). (r.scan_id ≡ none) × (r.scope_id ≡ some request.scope_id)) rows

  -- What a request to scan never touches.
  pub record Untouched (db db' : Database) : Type 0 where
    pub scopes_kept : db'.scopes ≡ db.scopes
    pub findings_kept : db'.findings ≡ db.findings
    pub events_kept : db'.events ≡ db.events

  pub record Queued (db db' : Database) : Type 0 where
    pub scope : ScopeProfile
    pub passed : Passed db scope
    pub target : ValidatedTarget
    pub proven : Proven scope target
    pub normalized : Destination
    pub normal : normalized_of target ≡ returns normalized
    pub distinct : has_repeat request.modules ≡ false
    pub scans :
        db'.scans
        ≡ db.scans ++ queued_scan reader resolver registry new_id now request target normalized ∷ []
    pub runs : db'.runs ≡ db.runs ++ map (queued_run new_id) request.modules
    pub audited : Audited db.ledger db'.ledger
    pub untouched : Untouched db db'

  pub record Refused (db db' : Database) (x : ScanError) : Type 0 where
    pub named :
        ((x ≢ index_error) × (x ≢ integrity_error))
        ⊎ ((x ≡ integrity_error) × (has_repeat request.modules ≡ true))
    pub scans_kept : db'.scans ≡ db.scans
    pub runs_kept : db'.runs ≡ db.runs
    pub audited : Audited db.ledger db'.ledger
    pub untouched : Untouched db db'

  abbrev pub Described : Database → Outcome ScanError String × Database → Type 0
  Described db (returns id, db') = (id ≡ new_id) × Queued db db'
  Described db (raises x, db') = Refused db db' x

  unowned_entries :
      (entries : Ledger)
      → All
          (λ (r : ScanLedgerRow). (r.scan_id ≡ none) × (r.scope_id ≡ some request.scope_id))
          (map
            (λ (e : LedgerEntry). record {
              scan_id = none;
              scope_id = some request.scope_id;
              entry = e;
            })
            entries)
  unowned_entries [] = tt
  unowned_entries (e ∷ entries) = ((refl, refl), unowned_entries entries)

  module _ (db : Database) where
    abbrev checked : Outcome ScanError ScopeProfile
    checked = check_request reader resolver registry new_id now request db

    abbrev recorded : Ledger → Database
    recorded entries = store_entries none (some request.scope_id) entries db

    abbrev created : Outcome ScanError String × Database
    created = create_scan reader resolver registry new_id now request db

    recorded-Audited : (entries : Ledger) → Audited db.ledger (recorded entries).ledger
    unfolding store_entries
    recorded-Audited entries = record {
      rows = _;
      appended = refl;
      unowned = unowned_entries entries;
    }

    abbrev verdict : ScopeProfile → Outcome TargetRejected ValidatedTarget × Ledger
    verdict scope = validate_target scope reader resolver request.target []

    abbrev settled :
        Outcome TargetRejected ValidatedTarget × Ledger → Outcome ScanError String × Database
    settled v = settle reader resolver registry new_id now request v db

    create_scan-unchecked : (x : ScanError) → checked ≡ raises x → created ≡ (raises x, db)
    unfolding create_scan
    create_scan-unchecked x e = ground arith

    create_scan-settled :
        (scope : ScopeProfile) → checked ≡ returns scope → created ≡ settled (verdict scope)
    unfolding create_scan
    create_scan-settled scope e = ground arith

    load_scope_profile-handled :
        (load_scope_profile reader resolver registry new_id now db request.scope_id
          ≢ raises index_error)
        × (load_scope_profile reader resolver registry new_id now db request.scope_id
            ≢ raises integrity_error)
    unfolding load_scope_profile
    load_scope_profile-handled = (λ h. ground arith, λ h. ground arith)

    add_scan_lem :
        (t : ValidatedTarget) (normalized : Destination) (entries : Ledger)
        → normalized_of t ≡ returns normalized
        → has_repeat request.modules ≡ false
        → add_scan reader resolver registry new_id now request t (recorded entries) ≡ (
          returns new_id,
          record (recorded entries) {
            scans =
                db.scans
                ++ queued_scan reader resolver registry new_id now request t normalized ∷ [];
            runs = db.runs ++ map (queued_run new_id) request.modules;
          },
        )
    unfolding add_scan store_entries
    add_scan_lem t normalized entries e d = ground arith

    add_scan-repeated :
        (t : ValidatedTarget) (normalized : Destination) (entries : Ledger)
        → normalized_of t ≡ returns normalized
        → has_repeat request.modules ≡ true
        → add_scan reader resolver registry new_id now request t (recorded entries)
          ≡ (raises integrity_error, recorded entries)
    unfolding add_scan
    add_scan-repeated t normalized entries e d = ground arith

    -- A request that passed the gates, with the guard's verdict.
    settle-Described :
        (scope : ScopeProfile) (v : Outcome TargetRejected ValidatedTarget × Ledger)
        → Passed db scope
        → verdict scope ≡ v
        → Described db (settled v)
    unfolding settle
    settle-Described scope (raises x, entries) passed e = record {
      named = inl (λ h. cc, λ h. cc);
      scans_kept = refl;
      runs_kept = refl;
      audited = recorded-Audited entries;
      untouched = record { scopes_kept = refl; findings_kept = refl; events_kept = refl };
    }
    settle-Described scope (returns t, entries) passed e =
        let (normalized, normal) =
          normalized_of-returns t t.network t.addresses refl refl
            (validated_has_address reader resolver scope request.target t [] entries e) in
        elim (Bool-cases (has_repeat request.modules)) [
          | inl twice ↦
              subst (Described db) (sym (add_scan-repeated t normalized entries normal twice))
                (record {
                  named = inr (refl, twice);
                  scans_kept = refl;
                  runs_kept = refl;
                  audited = recorded-Audited entries;
                  untouched = record {
                    scopes_kept = refl;
                    findings_kept = refl;
                    events_kept = refl;
                  };
                })
          | inr once ↦ subst (Described db) (sym (add_scan_lem t normalized entries normal once)) (
            refl,
            record {
              distinct = once;
              scope = scope;
              passed = passed;
              target = t;
              proven =
                  validate_target-Proven reader resolver scope request.target t [] entries
                    (create-IsValid reader _ _ _ _ scope passed.loaded).0 e;
              normalized = normalized;
              normal = normal;
              scans = refl;
              runs = refl;
              audited = recorded-Audited entries;
              untouched = record { scopes_kept = refl; findings_kept = refl; events_kept = refl };
            },
          )
        ]

    check_request-handled :
        (x : ScanError) → checked ≡ raises x → (x ≢ index_error) × (x ≢ integrity_error)
    unfolding check_request
    check_request-handled x e =
        let modules = check_modules-handled registry request.modules in
        (
          λ h. ground (arith, modules.0, load_scope_profile-handled.0),
          λ h. ground (arith, modules.1, load_scope_profile-handled.1),
        )

    pub create_scan-Described : Described db created
    create_scan-Described = elim (Outcome-cases checked) [
      | inr (x, e) ↦ subst (Described db) (sym (create_scan-unchecked x e)) (record {
        named = inl (check_request-handled x e);
        scans_kept = refl;
        runs_kept = refl;
        audited = record { rows = []; appended = sym (append-nil db.ledger); unowned = tt };
        untouched = record { scopes_kept = refl; findings_kept = refl; events_kept = refl };
      })
      | inl (scope, e) ↦
          subst (Described db) (sym (create_scan-settled scope e))
            (settle-Described scope _ (check_request-Passed db scope e) refl)
    ]

  -- When `create_scan` raises, no scan and no run was added. The refusal is one of the errors that the code
  -- names (never an IndexError for a target without addresses), or the request names a module twice and
  -- the refusal is the IntegrityError of the database. The ledger has gained at most entries
  -- without a scan under the scope of the request; scopes, findings and events are as before.
  pub create_scan-raises :
      (db db' : Database) (x : ScanError)
      → create_scan reader resolver registry new_id now request db ≡ (raises x, db')
      → Refused db db' x
  create_scan-raises db db' x h = subst (Described db) h (create_scan-Described db)
