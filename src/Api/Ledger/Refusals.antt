-- ===== src/Api/Ledger/Refusals.antt =====
-- backend/app/api/ledger.py: what a reader of all the pages of refusals has seen.
use scan_ledger.Prelude.{
  ℕ, zero, suc, ◌+◌, ◌*◌, ◌≤◌, ◌≡◌, refl, ap, ◌∙◌, arith, Bool, Option, none, some, List, [], ◌∷◌,
  ◌++◌, String, string_eq, map, select, select-append, count_if, count_if-append, Bool-cases, inl,
  inr,
}
use scan_ledger.Guard.Ledger.{Ledger, LedgerEntry, Decision, allowed, denied, is_denied}
use scan_ledger.Db.{ScanLedgerRow, Database, store_entries}
use scan_ledger.Api.Paging.{pages, order_by, drop, pages-all, length-order_by, count-order_by}
use scan_ledger.Api.Ledger.{has_decision, list_ledger, list_refusals}

-- The rows that a call with these entries adds.
abbrev pub stored_entry : Option String → Option String → LedgerEntry → ScanLedgerRow
stored_entry scan_id scope_id e = record { scan_id = scan_id; scope_id = scope_id; entry = e }

abbrev pub refused_row : ScanLedgerRow → Bool
refused_row row = is_denied row.entry

select_denied :
    (rows : List ScanLedgerRow)
    → select rows (has_decision (some "denied") none) ≡ select rows refused_row
select_denied [] = refl
select_denied (r ∷ rows) = one r.entry.decision (select_denied rows)
  where
    one :
        (d : Decision)
        → select rows (has_decision (some "denied") none) ≡ select rows refused_row
        → select
            (record r { entry = record r.entry { decision = d } } ∷ rows)
            (has_decision (some "denied") none)
          ≡ select (record r { entry = record r.entry { decision = d } } ∷ rows) refused_row
    one allowed h = h
    one denied h = ap (λ rest. record r { entry = record r.entry { decision = denied } } ∷ rest) h

select-map :
    (scan_id scope_id : Option String) (entries : Ledger)
    → select (map (stored_entry scan_id scope_id) entries) refused_row
      ≡ map (stored_entry scan_id scope_id) (select entries is_denied)
select-map scan_id scope_id [] = refl
select-map scan_id scope_id (e ∷ entries) = elim (Bool-cases (is_denied e)) [
  | inl kept ↦
      rw kept
        (ap (λ rest. stored_entry scan_id scope_id e ∷ rest) (select-map scan_id scope_id entries))
  | inr passed ↦ rw passed (select-map scan_id scope_id entries)
]

module _ (newest : ScanLedgerRow → ScanLedgerRow → Bool) (limit : ℕ) where
  -- The items of `n` pages of refusals, from an offset on.
  abbrev pub refusals : ℕ → ℕ → Database → List ScanLedgerRow
  refusals zero offset db = []
  refusals (suc n) offset db =
      (list_refusals newest limit offset db).items ++ refusals n (offset + limit) db

  refusals-pages :
      (n offset : ℕ) (db : Database)
      → refusals n offset db
        ≡ pages n limit offset
            (order_by newest (select db.ledger (has_decision (some "denied") none)))
  unfolding list_refusals list_ledger pages
  refusals-pages zero offset db = refl
  refusals-pages (suc n) offset db =
      ap (λ r. (list_refusals newest limit offset db).items ++ r)
        (refusals-pages n (offset + limit) db)

  -- After the guard's entries were stored, with a scan or without one, a reader who asks for page after page of
  -- the refusals, until the pages cover the total that each answer states, sees the refusals that the ledger
  -- held and the denied ones of these entries: each as often as it was stored, and no allowed one.
  pub refusals_complete :
      (n : ℕ) (scan_id scope_id : Option String) (entries : Ledger) (db : Database)
      → let stored = store_entries scan_id scope_id entries db in
        (list_refusals newest limit 0 stored).total ≤ n * limit
        → (p : ScanLedgerRow → Bool)
        → count_if (refusals n 0 stored) p
          ≡ count_if (select db.ledger refused_row) p
            + count_if (map (stored_entry scan_id scope_id) (select entries is_denied)) p
  unfolding list_refusals list_ledger store_entries drop
  refusals_complete n scan_id scope_id entries db h p =
      let added = map (stored_entry scan_id scope_id) entries in
      let rows = select (db.ledger ++ added) (has_decision (some "denied") none) in
      ap (λ r. count_if r p)
        (refusals-pages n 0 (store_entries scan_id scope_id entries db)
          ∙ pages-all n limit 0 (order_by newest rows)
              (omega (arith, h, length-order_by newest rows)))
      ∙ count-order_by newest rows p
      ∙ ap (λ r. count_if r p)
          (select_denied (db.ledger ++ added)
            ∙ select-append db.ledger added refused_row
            ∙ ap (λ r. select db.ledger refused_row ++ r) (select-map scan_id scope_id entries))
      ∙ count_if-append (select db.ledger refused_row)
          (map (stored_entry scan_id scope_id) (select entries is_denied)) p
