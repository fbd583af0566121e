-- ===== src/Scan/Runner/Claim.antt =====
-- Taking a scan in backend/app/scan/runner.py: the choice of the oldest and the conditional update.
use scan_ledger.Prelude.{
  ℕ, ◌+◌, ◌≤◌, ◌≡◌, refl, true, false, none, some, List, [], ◌∷◌, arith, count_if, All, String,
  string_eq, nat_eq, All-imp, leb, Option-cases, inl, inr, Bool-cases, subst, sym, ap, ◌∙◌,
}
use scan_ledger.Models.Domain.{ScanStatus, completed, completed_with_warnings, failed, canceled}
use scan_ledger.Db.{ScanRow, Database, update_where}
use scan_ledger.Scan.Runner.{
  ScanRunner, scan_is_running, scan_is_queued, oldest_queued, claimable, claimed_row, claim,
  claim_next_scan,
}

-- After the update nothing under that id is queued.
queued_only : (s : ScanStatus) → scan_is_queued s ≡ true → scan_is_running s ≡ false
queued_only ScanStatus.queued h = refl
queued_only ScanStatus.running h = cc
queued_only completed h = cc
queued_only completed_with_warnings h = cc
queued_only failed h = cc
queued_only canceled h = cc

nothing_left :
    (self : ScanRunner) (now : ℕ) (id : String) (scans : List ScanRow)
    → count_if (update_where (claimable id) (claimed_row self now) scans) (claimable id) ≡ 0
nothing_left self now id [] = refl
nothing_left self now id (s ∷ scans) = ground (arith, nothing_left self now id scans)

-- Two runners that both chose the same scan: the one whose update comes second is told that the scan
-- is not its own, whatever the first was told.
pub claim_twice :
    (a b : ScanRunner) (t u : ℕ) (id : String) (db : Database)
    → (claim b u id (claim a t id db).1).0 ≡ none
unfolding claim
claim_twice a b t u id db = rw (nothing_left a t id db.scans)

abbrev pub Older : ScanRow → ScanRow → Type 0
Older s q = scan_is_queued q.status ≡ true → s.created_at ≤ q.created_at

none_queued :
    (scans : List ScanRow)
    → oldest_queued scans ≡ none
    → All (λ q. scan_is_queued q.status ≡ false) scans
unfolding oldest_queued
none_queued [] h = tt
none_queued (q ∷ scans) h = (ground arith, none_queued scans (ground arith))

oldest_queued_lem :
    (scans : List ScanRow) (s : ScanRow)
    → oldest_queued scans ≡ some s
    → (scan_is_queued s.status ≡ true) × All (Older s) scans
unfolding oldest_queued
oldest_queued_lem [] s h = cc
oldest_queued_lem (q ∷ scans) s h = elim (Bool-cases (scan_is_queued q.status)) [
  | inr idle ↦
      let (e, a) = oldest_queued_lem scans s (ground arith) in (e, ((λ w. ground arith), a))
  | inl waiting ↦ elim (Option-cases (oldest_queued scans)) [
    | inl nothing ↦ first q scans s (ground arith) waiting (none_queued scans nothing)
    | inr (t, e) ↦ elim (Bool-cases (leb q.created_at t.created_at)) [
      | inl before ↦
          let (u, a) = oldest_queued_lem scans t e in
          before_all q s t scans (ground arith) waiting before a
      | inr after ↦
          let (u, a) = oldest_queued_lem scans t e in after_one q s t scans (ground arith) u after a
    ]
  ]
]
  where
    first :
        (q : ScanRow) (scans : List ScanRow) (s : ScanRow)
        → q ≡ s
        → scan_is_queued q.status ≡ true
        → All (λ r. scan_is_queued r.status ≡ false) scans
        → (scan_is_queued s.status ≡ true) × All (Older s) (q ∷ scans)
    first q scans s e waiting a =
        subst (λ r. (scan_is_queued r.status ≡ true) × All (Older r) (q ∷ scans)) e
          (waiting, ((λ h. omega arith), All-imp (λ r idle h. cc) scans a))

    before_all :
        (q s t : ScanRow) (scans : List ScanRow)
        → q ≡ s
        → scan_is_queued q.status ≡ true
        → leb q.created_at t.created_at ≡ true
        → All (Older t) scans
        → (scan_is_queued s.status ≡ true) × All (Older s) (q ∷ scans)
    before_all q s t scans e waiting before a =
        subst (λ r. (scan_is_queued r.status ≡ true) × All (Older r) (q ∷ scans)) e
          (waiting, ((λ h. omega arith), All-imp (λ r old h. ground (arith, old h)) scans a))

    after_one :
        (q s t : ScanRow) (scans : List ScanRow)
        → t ≡ s
        → scan_is_queued t.status ≡ true
        → leb q.created_at t.created_at ≡ false
        → All (Older t) scans
        → (scan_is_queued s.status ≡ true) × All (Older s) (q ∷ scans)
    after_one q s t scans e waiting after a =
        subst (λ r. (scan_is_queued r.status ≡ true) × All (Older r) (q ∷ scans)) e
          (waiting, ((λ h. ground arith), a))

module _ (self : ScanRunner) (now : ℕ) (id : String) where
  moved_to_running :
      (scans : List ScanRow)
      → count_if
          (update_where (claimable id) (claimed_row self now) scans)
          (λ s. scan_is_running s.status)
        ≡ count_if scans (λ s. scan_is_running s.status) + count_if scans (claimable id)
  moved_to_running [] = refl
  moved_to_running (s ∷ scans) = ground (arith, moved_to_running scans, queued_only s.status)

  nothing_claimed :
      (db : Database) → oldest_queued db.scans ≡ none → (claim_next_scan self now db).0 ≡ none
  unfolding claim_next_scan
  nothing_claimed db e = ground arith

  claims_oldest :
      (db : Database) (s : ScanRow)
      → oldest_queued db.scans ≡ some s
      → claim_next_scan self now db ≡ claim self now s.id db
  unfolding claim_next_scan
  claims_oldest db s e = ground arith

  claim_success :
      (c : String) (db : Database)
      → (claim self now c db).0 ≡ some id
      → (c ≡ id)
        × (count_if (claim self now id db).1.scans (λ s. scan_is_running s.status)
            ≡ count_if db.scans (λ s. scan_is_running s.status) + 1)
  unfolding claim
  claim_success c db h = (
    matching c db h,
    rw (moved_to_running db.scans)
        (ap (λ n. count_if db.scans (λ s. scan_is_running s.status) + n) (one c db h)),
  )
    where
      matching : (c : String) (db : Database) → (claim self now c db).0 ≡ some id → c ≡ id
      matching c db h = ground arith

      one :
          (c : String) (db : Database)
          → (claim self now c db).0 ≡ some id
          → count_if db.scans (claimable id) ≡ 1
      one c db h = subst (λ x. count_if db.scans (claimable x) ≡ 1) (matching c db h) (ground arith)

  -- A claim that succeeds names a queued scan that no queued scan is older than, and makes exactly
  -- one more scan running.
  pub claim_next_scan_oldest :
      (db : Database)
      → (claim_next_scan self now db).0 ≡ some id
      → ((s : ScanRow) × (s.id ≡ id) × (scan_is_queued s.status ≡ true) × All (Older s) db.scans)
        × (count_if (claim_next_scan self now db).1.scans (λ s. scan_is_running s.status)
            ≡ count_if db.scans (λ s. scan_is_running s.status) + 1)
  claim_next_scan_oldest db h = elim (Option-cases (oldest_queued db.scans)) [
    | inl e ↦ ground (arith, nothing_claimed db e)
    | inr (s, e) ↦
        let (same, one) = claim_success s.id db (ap (λ r. r.0) (sym (claims_oldest db s e)) ∙ h) in
        let (waiting, old) = oldest_queued_lem db.scans s e in
        (
          (s, same, waiting, old),
          ap (λ r. count_if r.1.scans (λ q. scan_is_running q.status)) (claims_oldest db s e)
              ∙ ap (λ c. count_if (claim self now c db).1.scans (λ q. scan_is_running q.status))
                  same
              ∙ one,
        )
  ]
