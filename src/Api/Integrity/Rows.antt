-- ===== src/Api/Integrity/Rows.antt =====
-- What adding, changing and deleting rows does to the rows that refer to them.
use scan_ledger.Prelude.{
  ◌≡◌, refl, inl, inr, Bool-cases, Option-cases, arith, Bool, true, false, none, some, List, [],
  ◌∷◌, ◌++◌, String, string_eq, ◌==◌, beq_sound, any, any-append, All,
}
use scan_ledger.Db.{
  ScanRow, ModuleRunRow, FindingRow, ScanEventRow, ScopeProfileRow, ScanLedgerRow, Database,
  update_where, delete_where, delete_scans,
}
use scan_ledger.Api.Integrity.{has_scan, has_scope, ledger_stands, Integrity}

pub any-grow :
    {A : Type 0} (xs ys : List A) (p : A → Bool) → any xs p ≡ true → any (xs ++ ys) p ≡ true
any-grow xs ys p h = ground (arith, any-append xs ys p)

pub All-delete :
    {A : Type 0} (P Q : A → Type 0) (gone : A → Bool)
    → ((a : A) → P a → gone a ≡ false → Q a)
    → (xs : List A) → All P xs
    → All Q (delete_where gone xs)
All-delete P Q gone f [] h = tt
All-delete P Q gone f (x ∷ xs) h = elim (Bool-cases (gone x)) [
  | inl e ↦ rw e (All-delete P Q gone f xs h.1)
  | inr e ↦ rw e (f x h.0 e, All-delete P Q gone f xs h.1)
]

pub All-update :
    {A : Type 0} (P Q : A → Type 0) (changed : A → Bool) (change : A → A)
    → ((a : A) → P a → Q a)
    → ((a : A) → P a → changed a ≡ true → Q (change a))
    → (xs : List A) → All P xs
    → All Q (update_where changed change xs)
All-update P Q changed change f g [] h = tt
All-update P Q changed change f g (x ∷ xs) h = elim (Bool-cases (changed x)) [
  | inl e ↦ rw e (g x h.0 e, All-update P Q changed change f g xs h.1)
  | inr e ↦ rw e (f x h.0, All-update P Q changed change f g xs h.1)
]

-- A scan that is not deleted is still there.
pub has_scan-delete :
    (gone : String → Bool) (scans : List ScanRow) (id : String)
    → has_scan scans id ≡ true
    → gone id ≡ false
    → has_scan (delete_where (λ r. gone r.id) scans) id ≡ true
has_scan-delete gone [] id h k = h
has_scan-delete gone (s ∷ scans) id h k =
    ground (arith, beq_sound s.id id, has_scan-delete gone scans id)

pub has_scan-update :
    (changed : ScanRow → Bool) (change : ScanRow → ScanRow)
    → ((s : ScanRow) → (change s).id ≡ s.id)
    → (scans : List ScanRow) (id : String)
    → has_scan (update_where changed change scans) id ≡ has_scan scans id
has_scan-update changed change same [] id = refl
has_scan-update changed change same (s ∷ scans) id =
    ground (arith, same s, has_scan-update changed change same scans id)

pub has_scope-update :
    (changed : ScopeProfileRow → Bool) (change : ScopeProfileRow → ScopeProfileRow)
    → ((s : ScopeProfileRow) → changed s ≡ true → (change s).id ≡ s.id)
    → (scopes : List ScopeProfileRow) (id : String)
    → has_scope (update_where changed change scopes) id ≡ has_scope scopes id
has_scope-update changed change same [] id = refl
has_scope-update changed change same (s ∷ scopes) id =
    ground (arith, same s, has_scope-update changed change same scopes id)

-- A scope profile under another id than the deleted one is still there.
pub has_scope-delete :
    (gone : String) (scopes : List ScopeProfileRow) (id : String)
    → has_scope scopes id ≡ true
    → (id == gone) ≡ false
    → has_scope (delete_where (λ s. s.id == gone) scopes) id ≡ true
has_scope-delete gone [] id h k = h
has_scope-delete gone (s ∷ scopes) id h k =
    ground (arith, beq_sound s.id id, has_scope-delete gone scopes id)

pub All-unused :
    (scope_id : String) (scans : List ScanRow)
    → any scans (λ r. r.scope_id == scope_id) ≡ false
    → All (λ (r : ScanRow). (r.scope_id == scope_id) ≡ false) scans
All-unused scope_id [] h = tt
All-unused scope_id (r ∷ scans) h = (ground arith, All-unused scope_id scans (ground arith))

pub All-both :
    {A : Type 0} (P Q R : A → Type 0)
    → ((a : A) → P a → Q a → R a)
    → (xs : List A) → All P xs
    → All Q xs
    → All R xs
All-both P Q R f [] p q = tt
All-both P Q R f (x ∷ xs) p q = (f x p.0 q.0, All-both P Q R f xs p.1 q.1)

-- Deleting scans, whichever they are, leaves no row that refers to a deleted one.
pub delete_scans-Integrity :
    (gone : String → Bool) (db : Database) → Integrity db → Integrity (delete_scans gone db)
delete_scans-Integrity gone db h = record {
  of_scans = All-delete _ _ (λ (r : ScanRow). gone r.id) (λ r p e. p) db.scans h.of_scans;
  of_runs =
      All-delete _ _ (λ (r : ModuleRunRow). gone r.scan_id)
        (λ r p e. has_scan-delete gone db.scans r.scan_id p e) db.runs h.of_runs;
  of_findings =
      All-delete _ _ (λ (r : FindingRow). gone r.scan_id)
        (λ r p e. has_scan-delete gone db.scans r.scan_id p e) db.findings h.of_findings;
  of_events =
      All-delete _ _ (λ (r : ScanEventRow). gone r.scan_id)
        (λ r p e. has_scan-delete gone db.scans r.scan_id p e) db.events h.of_events;
  of_ledger =
      All-delete _ _ (λ (r : ScanLedgerRow). elim r.scan_id [ none ↦ false | some id ↦ gone id ])
        stands db.ledger h.of_ledger;
}
  where
    stands :
        (r : ScanLedgerRow)
        → ledger_stands db.scans r ≡ true
        → (elim r.scan_id [ none ↦ false | some id ↦ gone id ]) ≡ false
        → ledger_stands (delete_where (λ s. gone s.id) db.scans) r ≡ true
    stands r p e = elim (Option-cases r.scan_id) [
      | inl bare ↦ ground arith
      | inr (id, owned) ↦ ground (arith, has_scan-delete gone db.scans id)
    ]
