-- ===== src/Services/Retention/Sweep.antt =====
-- What the sweeps of backend/app/services/retention.py delete and keep.
use scan_ledger.Prelude.{
  ℕ, ◌+◌, ◌*◌, ◌≡◌, refl, Bool, false, not, List, [], ◌∷◌, arith, String, string_eq, ◌==◌, any, map,
  select, All, count_if, length, length-select, if◌then◌else◌, ltb, leb, beq_refl, beq_sound, subst,
  sym, ap, suc, ◌∙◌, ◌&&◌, All-imp,
}
use scan_ledger.Models.Domain.{ScanStatus, queued, scan_is_terminal}
use scan_ledger.Db.{ScanRow, Database, delete_where}
use scan_ledger.Services.Retention.{day, listed_status, is_old, run_retention}

-- The statuses that the query lists are the terminal ones of the state model.
listed_status_eq : (s : ScanStatus) → listed_status s ≡ scan_is_terminal s
listed_status_eq queued = refl
listed_status_eq _ = refl

-- A list of ids without repetition, as the primary key makes it.
abbrev pub UniqueIds : List ScanRow → Type 0
UniqueIds [] = Unit
UniqueIds (r ∷ rs) = (any rs (λ q. r.id == q.id) ≡ false) × UniqueIds rs

module _ (old : ScanRow → Bool) where
  abbrev expired : List ScanRow → List String
  expired rs = map (λ (r : ScanRow). r.id) (select rs old)

  -- An id that no row has is not among the expired ones.
  expired-absent :
      (rs : List ScanRow) (x : String)
      → any rs (λ q. x == q.id) ≡ false
      → any (expired rs) (λ j. x == j) ≡ false
  expired-absent [] x h = refl
  expired-absent (r ∷ rs) x h = ground (arith, expired-absent rs x)

  abbrev Decides : List String → ScanRow → Type 0
  Decides ids r = any ids (λ j. r.id == j) ≡ old r

  later_rows :
      (q : ScanRow) (rs : List ScanRow) (ids : List String)
      → any rs (λ r. q.id == r.id) ≡ false
      → All (Decides ids) rs
      → All (Decides (if old q then q.id ∷ ids else ids)) rs
  later_rows q [] ids h a = tt
  later_rows q (r ∷ rs) ids h a =
      (ground (arith, beq_sound r.id q.id, beq_refl q.id), later_rows q rs ids (ground arith) a.1)

  expired-cons :
      (q : ScanRow) (rs : List ScanRow)
      → expired (q ∷ rs) ≡ (if old q then q.id ∷ expired rs else expired rs)
  expired-cons q rs = ground arith

  expired-Decides : (rs : List ScanRow) → UniqueIds rs → All (Decides (expired rs)) rs
  expired-Decides [] u = tt
  expired-Decides (q ∷ rs) u =
      subst (λ ids. All (Decides ids) (q ∷ rs)) (sym (expired-cons q rs))
        (
          ground (arith, beq_refl q.id, expired-absent rs q.id u.0),
          later_rows q rs (expired rs) u.0 (expired-Decides rs u.1),
        )

select-congr :
    {R : Type 0} (rs : List R) (p q : R → Bool)
    → All (λ r. p r ≡ q r) rs
    → select rs p ≡ select rs q
select-congr [] p q h = refl
select-congr (r ∷ rs) p q h = ground (arith, select-congr rs p q h.1)

count_split :
    {R : Type 0} (rs : List R) (p : R → Bool)
    → count_if rs p + length (delete_where p rs) ≡ length rs
count_split [] p = omega arith
count_split (r ∷ rs) p = ground (arith, count_split rs p)

length-map : {A B : Type 0} (f : A → B) (xs : List A) → length (map f xs) ≡ length xs
length-map f [] = refl
length-map f (x ∷ xs) = ap suc (length-map f xs)

module _ (days now : ℕ) (db : Database) where
  -- The scans that retention deletes are those that are terminal and were created before the window.
  abbrev pub outdated : ScanRow → Bool
  outdated r = ltb (r.created_at + days * day) now && scan_is_terminal r.status

  is_old_eq : (r : ScanRow) → is_old days now r ≡ outdated r
  unfolding is_old
  is_old_eq r = rw (listed_status_eq r.status)

  survivors :
      (rs : List ScanRow) (ids : List String)
      → All (Decides (is_old days now) ids) rs
      → delete_where (λ r. any ids (λ j. r.id == j)) rs ≡ select rs (λ r. not (outdated r))
  survivors rs ids a = select-congr rs _ _ (All-imp (λ r e. ap not (e ∙ is_old_eq r)) rs a)

  -- Scan ids being unique, retention keeps exactly the scans that are not terminal or not old enough,
  -- so it never deletes a queued or a running scan, and exactly the cache entries that have not
  -- expired; its summary counts the rows that it deleted.
  pub run_retention_exact :
      UniqueIds db.scans
      → let (summary, db') = run_retention days now db in
        (db'.scans ≡ select db.scans (λ r. not (outdated r)))
        × (db'.cache ≡ select db.cache (λ r. not (leb r.expires_at now)))
        × (summary.scans_deleted + length db'.scans ≡ length db.scans)
        × (summary.cache_entries_deleted + length db'.cache ≡ length db.cache)
  unfolding run_retention
  run_retention_exact u = (
    survivors db.scans _ (expired-Decides (is_old days now) db.scans u),
    refl,
    rw
        (select-congr db.scans _ (λ r. not (is_old days now r))
          (All-imp (λ r e. ap not e) db.scans (expired-Decides (is_old days now) db.scans u)))
        (omega (
          arith,
          length-map (λ (r : ScanRow). r.id) (select db.scans (is_old days now)),
          length-select db.scans (is_old days now),
          count_split db.scans (is_old days now),
        )),
    count_split db.cache (λ r. leb r.expires_at now),
  )
