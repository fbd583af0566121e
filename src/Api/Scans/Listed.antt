-- ===== src/Api/Scans/Listed.antt =====
-- The list of scans of backend/app/api/scans.py, page after page. Every page is a query of its own.
use scan_ledger.Prelude.{
  ℕ, zero, suc, ◌+◌, ◌*◌, ◌≤◌, ◌≡◌, ◌≢◌, refl, sym, ap, subst, ◌∙◌, arith, Bool, true, false,
  Bool-cases, inl, inr, nat_eq, ◌==◌, beq_sound, Option, List, [], ◌∷◌, ◌++◌, All, String, select,
  count_if, length,
}
use scan_ledger.Db.{ScanRow, Database}
use scan_ledger.Api.Paging.{
  pages, order_by, insert_by, drop, page, pages-all, length-page, length-order_by, count-order_by,
}
use scan_ledger.Api.Scans.{list_scans, newest_first, has_status}

-- No two scans were created at one time.
abbrev pub Distinct : List ScanRow → Type 0
Distinct [] = Unit
Distinct (r ∷ rows) = All (λ (q : ScanRow). r.created_at ≢ q.created_at) rows × Distinct rows

-- No scan stands before a newer one.
abbrev pub Descending : List ScanRow → Type 0
Descending [] = Unit
Descending (r ∷ rows) = All (λ (q : ScanRow). q.created_at ≤ r.created_at) rows × Descending rows

insert_by-All :
    (P : ScanRow → Type 0) (before : ScanRow → ScanRow → Bool) (r : ScanRow) (rows : List ScanRow)
    → P r
    → All P rows
    → All P (insert_by before r rows)
unfolding insert_by
insert_by-All P before r [] p h = (p, tt)
insert_by-All P before r (q ∷ rows) p h = elim (Bool-cases (before r q)) [
  | inl e ↦ rw e (p, h)
  | inr e ↦ rw e (h.0, insert_by-All P before r rows p h.1)
]

order_by-All :
    (P : ScanRow → Type 0) (before : ScanRow → ScanRow → Bool) (rows : List ScanRow)
    → All P rows
    → All P (order_by before rows)
unfolding order_by
order_by-All P before [] h = tt
order_by-All P before (r ∷ rows) h =
    insert_by-All P before r (order_by before rows) h.0 (order_by-All P before rows h.1)

below :
    (r q : ScanRow) (rows : List ScanRow)
    → q.created_at ≤ r.created_at
    → All (λ (s : ScanRow). s.created_at ≤ q.created_at) rows
    → All (λ (s : ScanRow). s.created_at ≤ r.created_at) rows
below r q [] h a = tt
below r q (s ∷ rows) h a = (omega (arith, h, a.0), below r q rows h a.1)

module _ (tie : ScanRow → ScanRow → Bool) where
  stands_before : (r q : ScanRow) → newest_first tie r q ≡ true → q.created_at ≤ r.created_at
  stands_before r q h = ground (arith, h)

  stands_after : (r q : ScanRow) → newest_first tie r q ≡ false → r.created_at ≤ q.created_at
  stands_after r q h = ground (arith, h)

  insert_by-Descending :
      (r : ScanRow) (rows : List ScanRow)
      → Descending rows
      → Descending (insert_by (newest_first tie) r rows)
  unfolding insert_by
  insert_by-Descending r [] d = (tt, tt)
  insert_by-Descending r (q ∷ rows) d = elim (Bool-cases (newest_first tie r q)) [
    | inl e ↦
        let h : q.created_at ≤ r.created_at = stands_before r q e in
        rw e ((h, below r q rows h d.0), d)
    | inr e ↦ rw e (
      insert_by-All (λ (s : ScanRow). s.created_at ≤ q.created_at) (newest_first tie) r rows
          (stands_after r q e) d.0,
      insert_by-Descending r rows d.1,
    )
  ]

  order_by-Descending : (rows : List ScanRow) → Descending (order_by (newest_first tie) rows)
  unfolding order_by
  order_by-Descending [] = tt
  order_by-Descending (r ∷ rows) =
      insert_by-Descending r (order_by (newest_first tie) rows) (order_by-Descending rows)

-- Without ties there is one order.
module _ (tie other : ScanRow → ScanRow → Bool) where
  insert_by-same :
      (r : ScanRow) (rows : List ScanRow)
      → All (λ (q : ScanRow). r.created_at ≢ q.created_at) rows
      → insert_by (newest_first tie) r rows ≡ insert_by (newest_first other) r rows
  unfolding insert_by
  insert_by-same r [] h = refl
  insert_by-same r (q ∷ rows) h = elim (Bool-cases (r.created_at == q.created_at)) [
    | inl e ↦ absurd (h.0 (beq_sound r.created_at q.created_at e))
    | inr e ↦ rw (e, insert_by-same r rows h.1) refl
  ]

  order_by-same :
      (rows : List ScanRow)
      → Distinct rows
      → order_by (newest_first tie) rows ≡ order_by (newest_first other) rows
  unfolding order_by
  order_by-same [] d = refl
  order_by-same (r ∷ rows) d =
      insert_by-same r (order_by (newest_first tie) rows)
        (order_by-All (λ (q : ScanRow). r.created_at ≢ q.created_at) (newest_first tie) rows d.0)
      ∙ ap (insert_by (newest_first other) r) (order_by-same rows d.1)

module _ (ties : ℕ → ScanRow → ScanRow → Bool) where
  -- The items of `n` pages, from an offset on; the query at an offset has its own ties.
  abbrev pub listed : ℕ → ℕ → ℕ → Option String → Database → List ScanRow
  listed zero limit offset wanted db = []
  listed (suc n) limit offset wanted db =
      (list_scans (ties offset) limit offset wanted db).items
      ++ listed n limit (offset + limit) wanted db

  module _ (limit : ℕ) (wanted : Option String) (db : Database) where
    listed-pages :
        (n offset : ℕ)
        → Distinct (select db.scans (has_status wanted))
        → listed n limit offset wanted db
          ≡ pages n limit offset
              (order_by (newest_first (ties 0)) (select db.scans (has_status wanted)))
    unfolding list_scans pages
    listed-pages zero offset d = refl
    listed-pages (suc n) offset d =
        let rows = select db.scans (has_status wanted) in
        ap (λ r. page limit offset r ++ listed n limit (offset + limit) wanted db)
          (order_by-same (ties offset) (ties 0) rows d)
        ∙ ap (λ r. page limit offset (order_by (newest_first (ties 0)) rows) ++ r)
            (listed-pages n (offset + limit) d)

    -- If no two scans with the status were created at one time, a reader who asks for page after page,
    -- until the pages cover the total that the first answer states, sees each of them as often as the
    -- table holds it, none twice and none skipped, and the newest first. No page is longer than the
    -- limit, and every answer states the number of scans with the status as its total.
    pub list_scans_complete :
        (n : ℕ)
        → Distinct (select db.scans (has_status wanted))
        → (list_scans (ties 0) limit 0 wanted db).total ≤ n * limit
        → Descending (listed n limit 0 wanted db)
          × ((p : ScanRow → Bool)
              → count_if (listed n limit 0 wanted db) p
                ≡ count_if (select db.scans (has_status wanted)) p)
          × ((offset : ℕ)
              → (length (list_scans (ties offset) limit offset wanted db).items ≤ limit)
                × ((list_scans (ties offset) limit offset wanted db).total
                    ≡ length (select db.scans (has_status wanted))))
    unfolding list_scans drop
    list_scans_complete n d h =
        let rows = select db.scans (has_status wanted) in
        let newest = newest_first (ties 0) in
        let every : listed n limit 0 wanted db ≡ order_by newest rows =
          listed-pages n 0 d
          ∙ pages-all n limit 0 (order_by newest rows)
              (omega (arith, h, length-order_by newest rows)) in
        (
          subst Descending (sym every) (order_by-Descending (ties 0) rows),
          λ p. ap (λ r. count_if r p) every ∙ count-order_by newest rows p,
          λ offset. (length-page limit offset (order_by (newest_first (ties offset)) rows), refl),
        )
