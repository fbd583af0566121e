-- ===== src/Api/Integrity/Queued.antt =====
-- Queueing a scan keeps the references.
use scan_ledger.Prelude.{
  ℕ, ◌≡◌, refl, subst, inl, inr, arith, true, Option, none, some, Option-cases, List, [], ◌∷◌, ◌++◌,
  String, string_eq, ◌==◌, beq_refl, map, All, All-append, All-imp, Outcome, returns, raises,
}
use scan_ledger.Net.{IpAddress}
use scan_ledger.Guard.Ranges.{Reason}
use scan_ledger.Guard.Scope.{IpReader}
use scan_ledger.Modules.{ModuleRegistry}
use scan_ledger.Db.{
  ScanRow, ModuleRunRow, FindingRow, ScanEventRow, ScopeProfileRow, ScanLedgerRow, Database,
  find_scope,
}
use scan_ledger.Services.Scans.{ScanCreate, ScanError, queued_scan, queued_run}
use scan_ledger.Services.Scans.Gates.{Audited, Described, Queued, Refused}
use scan_ledger.Api.Integrity.{has_scan, has_scope, ledger_stands, Sound, Integrity}
use scan_ledger.Api.Integrity.Rows.{any-grow}

ledger_stands-grow :
    (scans more : List ScanRow) (r : ScanLedgerRow)
    → ledger_stands scans r ≡ true
    → ledger_stands (scans ++ more) r ≡ true
ledger_stands-grow scans more r h = elim (Option-cases r.scan_id) [
  | inl bare ↦ ground arith
  | inr (id, owned) ↦ ground (arith, any-grow scans more (λ s. s.id == id))
]

has_scope-find :
    (scopes : List ScopeProfileRow) (id : String) (row : ScopeProfileRow)
    → find_scope scopes id ≡ some row
    → has_scope scopes id ≡ true
unfolding find_scope
has_scope-find [] id row h = cc
has_scope-find (s ∷ scopes) id row h = ground (arith, has_scope-find scopes id row)

has_scan-last : (scans : List ScanRow) (s : ScanRow) → has_scan (scans ++ s ∷ []) s.id ≡ true
has_scan-last [] s = ground (arith, beq_refl s.id)
has_scan-last (q ∷ scans) s = ground (arith, has_scan-last scans s)

unowned_stands :
    (scans : List ScanRow) (scope : Option String) (rows : List ScanLedgerRow)
    → All (λ (r : ScanLedgerRow). (r.scan_id ≡ none) × (r.scope_id ≡ scope)) rows
    → All (λ (r : ScanLedgerRow). ledger_stands scans r ≡ true) rows
unowned_stands scans scope rows h = All-imp (λ r p. ground arith) rows h

moved :
    {scopes : List ScopeProfileRow} {scans : List ScanRow} {runs : List ModuleRunRow}
    {findings : List FindingRow} {events : List ScanEventRow} {ledger : List ScanLedgerRow}
    (db : Database)
    → db.scopes ≡ scopes
    → db.scans ≡ scans
    → db.runs ≡ runs
    → db.findings ≡ findings
    → db.events ≡ events
    → db.ledger ≡ ledger
    → Sound scopes scans runs findings events ledger
    → Integrity db
moved db a b c d e f s = rw (a, b, c, d, e, f) s

module _ (reader : IpReader) (resolver : String → Outcome Reason (List IpAddress))
    (registry : ModuleRegistry) (new_id : String) (now : ℕ) (request : ScanCreate) (db : Database)
    (h : Integrity db) where
  Audited-stands :
      {old ledger : List ScanLedgerRow} (scans : List ScanRow)
      (a : Audited reader resolver registry new_id now request old ledger)
      → All (λ (r : ScanLedgerRow). ledger_stands scans r ≡ true) old
      → All (λ (r : ScanLedgerRow). ledger_stands scans r ≡ true) (old ++ a.rows)
  Audited-stands {old} scans a stands =
      All-append _ old a.rows stands (unowned_stands scans (some request.scope_id) a.rows a.unowned)

  Refused-Integrity :
      (db' : Database) (x : ScanError)
      → Refused reader resolver registry new_id now request db db' x
      → Integrity db'
  Refused-Integrity db' x r =
      moved db' r.untouched.scopes_kept r.scans_kept r.runs_kept r.untouched.findings_kept
        r.untouched.events_kept r.audited.appended
        (record {
          of_scans = h.of_scans;
          of_runs = h.of_runs;
          of_findings = h.of_findings;
          of_events = h.of_events;
          of_ledger = Audited-stands db.scans r.audited h.of_ledger;
        })

  Queued-Integrity :
      (db' : Database) → Queued reader resolver registry new_id now request db db' → Integrity db'
  Queued-Integrity db' q =
      let scan = queued_scan reader resolver registry new_id now request q.target q.normalized in
      moved db' q.untouched.scopes_kept q.scans q.runs q.untouched.findings_kept
        q.untouched.events_kept q.audited.appended
        (record {
          of_scans =
              All-append _ db.scans (scan ∷ []) h.of_scans
                (has_scope-find db.scopes request.scope_id q.passed.row q.passed.found, tt);
          of_runs =
              All-append _ db.runs (map (queued_run new_id) request.modules)
                (All-imp (λ r p. any-grow db.scans (scan ∷ []) _ p) db.runs h.of_runs)
                (new_runs scan refl request.modules);
          of_findings =
              All-imp (λ r p. any-grow db.scans (scan ∷ []) _ p) db.findings h.of_findings;
          of_events = All-imp (λ r p. any-grow db.scans (scan ∷ []) _ p) db.events h.of_events;
          of_ledger =
              Audited-stands (db.scans ++ scan ∷ []) q.audited (
                All-imp (λ r p. ledger_stands-grow db.scans (scan ∷ []) r p) db.ledger h.of_ledger);
        })
    where
      new_runs :
          (scan : ScanRow)
          → scan.id ≡ new_id
          → (names : List String)
          → All
              (λ (r : ModuleRunRow). has_scan (db.scans ++ scan ∷ []) r.scan_id ≡ true)
              (map (queued_run new_id) names)
      new_runs scan e [] = tt
      new_runs scan e (name ∷ names) = (
        subst (λ i. has_scan (db.scans ++ scan ∷ []) i ≡ true) e (has_scan-last db.scans scan),
        new_runs scan e names,
      )

  pub Described-Integrity :
      (v : Outcome ScanError String × Database)
      → Described reader resolver registry new_id now request db v
      → Integrity v.1
  Described-Integrity (returns id, db') d = Queued-Integrity db' d.1
  Described-Integrity (raises x, db') d = Refused-Integrity db' x d
