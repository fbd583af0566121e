-- ===== src/Scan/Events/Replay.antt =====
-- A client of backend/app/scan/events.py that lost its stream is given what it missed.
use mathlib.Core.List.{append_assoc, append-nil}
use scan_ledger.Prelude.{
  ℕ, ◌+◌, ◌≤◌, ◌<◌, ◌≡◌, refl, Bool, ◌&&◌, List, [], ◌∷◌, ◌++◌, arith, String, string_eq, ltb,
  select, beq_refl, max, sym, ◌∙◌, ap,
}
use scan_ledger.Db.{ScanEventRow}
use scan_ledger.Scan.Events.{
  of_scan_id, highest, next_sequence, Draft, numbered, publish, insert_by_sequence,
  order_by_sequence, events_since,
}

-- Publishing several events of one scan.
unfoldable pub publish_all : List ScanEventRow → String → List Draft → List ScanEventRow
publish_all rows scan_id [] = rows
publish_all rows scan_id (d ∷ ds) = publish_all (publish rows scan_id d) scan_id ds

-- The events that these drafts become, the first with number `n`.
unfoldable pub numbered_from : String → ℕ → List Draft → List ScanEventRow
numbered_from scan_id n [] = []
numbered_from scan_id n (d ∷ ds) = numbered scan_id n d ∷ numbered_from scan_id (n + 1) ds

highest-append :
    (rows more : List ScanEventRow) (x : String)
    → highest (rows ++ more) x ≡ max (highest rows x) (highest more x)
unfolding highest
highest-append [] more x = omega arith
highest-append (r ∷ rows) more x = ground (arith, highest-append rows more x)

highest-publish :
    (rows : List ScanEventRow) (x : String) (d : Draft)
    → highest (publish rows x d) x ≡ highest rows x + 1
unfolding publish highest
highest-publish rows x d =
    ground (arith, highest-append rows (numbered x (next_sequence rows x) d ∷ []) x, beq_refl x)

published :
    (rows : List ScanEventRow) (x : String) (d : Draft) (more : List ScanEventRow)
    → publish rows x d ++ more ≡ rows ++ numbered x (highest rows x + 1) d ∷ more
unfolding publish next_sequence
published rows x d more = append_assoc rows (numbered x (highest rows x + 1) d ∷ []) more

publish_all_lem :
    (rows : List ScanEventRow) (x : String) (ds : List Draft)
    → publish_all rows x ds ≡ rows ++ numbered_from x (highest rows x + 1) ds
unfolding publish_all numbered_from
publish_all_lem rows x [] = sym (append-nil rows)
publish_all_lem rows x (d ∷ ds) =
    publish_all_lem (publish rows x d) x ds
    ∙ ap (λ n. publish rows x d ++ numbered_from x (n + 1) ds) (highest-publish rows x d)
    ∙ published rows x d (numbered_from x (highest rows x + 1 + 1) ds)

-- A row of the scan is numbered at most `highest`, so nothing old is selected.
none_newer :
    (rows : List ScanEventRow) (x : String) (n : ℕ)
    → highest rows x ≤ n
    → select rows (λ r. of_scan_id x r && ltb n r.sequence) ≡ []
unfolding highest
none_newer [] x n h = refl
none_newer (r ∷ rows) x n h = ground (arith, none_newer rows x n)

select-append :
    (xs ys : List ScanEventRow) (p : ScanEventRow → Bool)
    → select (xs ++ ys) p ≡ select xs p ++ select ys p
select-append [] ys p = refl
select-append (x ∷ xs) ys p = ground (arith, select-append xs ys p)

all_newer :
    (x : String) (m n : ℕ) (ds : List Draft)
    → m < n
    → select (numbered_from x n ds) (λ r. of_scan_id x r && ltb m r.sequence) ≡ numbered_from x n ds
unfolding numbered_from
all_newer x m n [] h = refl
all_newer x m n (d ∷ ds) h = ground (arith, all_newer x m (n + 1) ds (omega arith), beq_refl x)

insert-first :
    (x : String) (n : ℕ) (d : Draft) (ds : List Draft)
    → insert_by_sequence (numbered x n d) (numbered_from x (n + 1) ds)
      ≡ numbered x n d ∷ numbered_from x (n + 1) ds
unfolding insert_by_sequence numbered_from
insert-first x n d [] = refl
insert-first x n d (e ∷ ds) = ground arith

order-numbered :
    (x : String) (n : ℕ) (ds : List Draft)
    → order_by_sequence (numbered_from x n ds) ≡ numbered_from x n ds
unfolding order_by_sequence numbered_from
order-numbered x n [] = refl
order-numbered x n (d ∷ ds) =
    ap (insert_by_sequence (numbered x n d)) (order-numbered x (n + 1) ds) ∙ insert-first x n d ds

-- A client that has seen every event of a scan and asks again after more were published gets exactly
-- the new events of that scan: each one once, in the order of publication, numbered without a gap
-- from the number after the last one it saw.
pub events_since_published :
    (rows : List ScanEventRow) (scan_id : String) (ds : List Draft)
    → events_since (publish_all rows scan_id ds) scan_id (highest rows scan_id)
      ≡ numbered_from scan_id (highest rows scan_id + 1) ds
unfolding events_since
events_since_published rows x ds = rw (
  publish_all_lem rows x ds,
  select-append rows (numbered_from x (highest rows x + 1) ds)
      (λ r. of_scan_id x r && ltb (highest rows x) r.sequence),
  none_newer rows x (highest rows x) (omega arith),
  all_newer x (highest rows x) (highest rows x + 1) ds (omega arith),
  order-numbered x (highest rows x + 1) ds,
)
