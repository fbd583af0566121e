-- ===== src/Api/Integrity/Kept.antt =====
-- Every write of backend/app/api keeps the references.
use scan_ledger.Prelude.{
  ℕ, ◌≡◌, ◌⊎◌, refl, sym, subst, ◌∙◌, inl, inr, arith, true, false, Option-cases, List, [], ◌∷◌,
  ◌++◌, String, string_eq, ◌==◌, beq_sound, any, All, All-imp,
}
use scan_ledger.Guard.Scope.{IpReader}
use scan_ledger.Db.{
  ScanRow, ScopeProfileRow, ScanLedgerRow, Database, update_where, delete_where, delete_scans,
}
use scan_ledger.Services.Retention.{run_retention, sweep_old_scans, sweep_expired_cache}
use scan_ledger.Api.Scans.{cancel, with_cancel, cancel_scan, delete_scan}
use scan_ledger.Api.Scopes.{ScopeCreate, row_of, create_scope, update_scope, delete_scope}
use scan_ledger.Api.Integrity.{has_scan, has_scope, ledger_stands, Integrity}
use scan_ledger.Api.Integrity.Rows.{
  any-grow, All-both, All-unused, has_scope-update, has_scope-delete, All-update, has_scan-update,
  delete_scans-Integrity,
}

either : (P : Database → Type 0) (d a b : Database) → (d ≡ a) ⊎ (d ≡ b) → P a → P b → P d
either P d a b (inl e) p q = subst P (sym e) p
either P d a b (inr e) p q = subst P (sym e) q

module _ (db : Database) (h : Integrity db) where
  with_cancel-Integrity : (scan_id : String) → Integrity (with_cancel scan_id db)
  with_cancel-Integrity scan_id = record {
    of_scans =
        All-update _ _ (λ s. s.id == scan_id) cancel (λ s p. p) (λ s p e. p) db.scans h.of_scans;
    of_runs = All-imp (λ r p. same r.scan_id ∙ p) db.runs h.of_runs;
    of_findings = All-imp (λ r p. same r.scan_id ∙ p) db.findings h.of_findings;
    of_events = All-imp (λ r p. same r.scan_id ∙ p) db.events h.of_events;
    of_ledger = All-imp (λ r p. stands r p) db.ledger h.of_ledger;
  }
    where
      same : (id : String) → has_scan (with_cancel scan_id db).scans id ≡ has_scan db.scans id
      same id = has_scan-update (λ s. s.id == scan_id) cancel (λ s. refl) db.scans id

      stands :
          (r : ScanLedgerRow)
          → ledger_stands db.scans r ≡ true
          → ledger_stands (with_cancel scan_id db).scans r ≡ true
      stands r p = elim (Option-cases r.scan_id) [
        | inl bare ↦ ground arith
        | inr (id, owned) ↦ ground (arith, same id)
      ]

  cancel_scan_state :
      (scan_id : String)
      → ((cancel_scan scan_id db).1 ≡ db) ⊎ ((cancel_scan scan_id db).1 ≡ with_cancel scan_id db)
  unfolding cancel_scan
  cancel_scan_state scan_id = ground arith

  delete_scan_state :
      (scan_id : String)
      → ((delete_scan scan_id db).1 ≡ db)
        ⊎ ((delete_scan scan_id db).1 ≡ delete_scans (λ id. id == scan_id) db)
  unfolding delete_scan
  delete_scan_state scan_id = ground arith

  with_scopes : List ScopeProfileRow → Database
  with_scopes scopes = record db { scopes = scopes }

  rescoped :
      (scopes : List ScopeProfileRow)
      → All (λ (r : ScanRow). has_scope scopes r.scope_id ≡ true) db.scans
      → Integrity (with_scopes scopes)
  unfolding with_scopes
  rescoped scopes kept = record {
    of_scans = kept;
    of_runs = h.of_runs;
    of_findings = h.of_findings;
    of_events = h.of_events;
    of_ledger = h.of_ledger;
  }

  create_scope_state :
      (reader : IpReader) (new_id : String) (payload : ScopeCreate)
      → ((create_scope reader new_id payload db).1 ≡ db)
        ⊎ ((create_scope reader new_id payload db).1
            ≡ with_scopes (db.scopes ++ row_of new_id payload ∷ []))
  unfolding create_scope with_scopes
  create_scope_state reader new_id payload = ground arith

  update_scope_state :
      (reader : IpReader) (scope_id : String) (payload : ScopeCreate)
      → ((update_scope reader scope_id payload db).1 ≡ db)
        ⊎ ((update_scope reader scope_id payload db).1
            ≡ with_scopes
                (update_where (λ s. s.id == scope_id) (λ _. row_of scope_id payload) db.scopes))
  unfolding update_scope with_scopes
  update_scope_state reader scope_id payload = ground arith

  delete_scope_state :
      (scope_id : String)
      → ((delete_scope scope_id db).1 ≡ db)
        ⊎ (((delete_scope scope_id db).1
              ≡ with_scopes (delete_where (λ s. s.id == scope_id) db.scopes))
            × (any db.scans (λ r. r.scope_id == scope_id) ≡ false))
  unfolding delete_scope with_scopes
  delete_scope_state scope_id = ground arith

  pub cancel_scan-Integrity : (scan_id : String) → Integrity (cancel_scan scan_id db).1
  cancel_scan-Integrity scan_id =
      either Integrity _ _ _ (cancel_scan_state scan_id) h (with_cancel-Integrity scan_id)

  pub delete_scan-Integrity : (scan_id : String) → Integrity (delete_scan scan_id db).1
  delete_scan-Integrity scan_id =
      either Integrity _ _ _ (delete_scan_state scan_id) h
        (delete_scans-Integrity (λ id. id == scan_id) db h)

  pub create_scope-Integrity :
      (reader : IpReader) (new_id : String) (payload : ScopeCreate)
      → Integrity (create_scope reader new_id payload db).1
  create_scope-Integrity reader new_id payload =
      either Integrity _ _ _ (create_scope_state reader new_id payload) h
        (rescoped _ (All-imp (λ r p. any-grow db.scopes _ _ p) db.scans h.of_scans))

  pub update_scope-Integrity :
      (reader : IpReader) (scope_id : String) (payload : ScopeCreate)
      → Integrity (update_scope reader scope_id payload db).1
  update_scope-Integrity reader scope_id payload =
      either Integrity _ _ _ (update_scope_state reader scope_id payload) h (
        rescoped _ (
          All-imp
            (λ r p.
              has_scope-update _ _ (λ s e. sym (beq_sound s.id scope_id e)) db.scopes r.scope_id
              ∙ p)
            db.scans h.of_scans))

  pub delete_scope-Integrity : (scope_id : String) → Integrity (delete_scope scope_id db).1
  delete_scope-Integrity scope_id = elim (delete_scope_state scope_id) [
    | inl e ↦ subst Integrity (sym e) h
    | inr (e, free) ↦ subst Integrity (sym e) (
        rescoped _ (
          All-both _ _ _ (λ r p q. has_scope-delete scope_id db.scopes r.scope_id p q) db.scans
            h.of_scans (All-unused scope_id db.scans free)))
  ]

  pub run_retention-Integrity :
      (retention_days now : ℕ) → Integrity (run_retention retention_days now db).1
  unfolding run_retention sweep_old_scans sweep_expired_cache
  run_retention-Integrity retention_days now = delete_scans-Integrity _ db h
