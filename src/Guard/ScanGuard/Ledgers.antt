-- ===== src/Guard/ScanGuard/Ledgers.antt =====
-- What `ScanGuard.validate_target` of backend/app/guard/scanguard.py writes to the audit ledger.
use mathlib.Core.List.{append-nil, append_assoc}
use scan_ledger.Prelude.{
  ◌≡◌, sym, subst, Outcome-cases, ◌∙◌, inl, inr, none, some, arith, List, [], ◌∷◌, ◌++◌, map,
  String, Outcome, returns, raises,
}
use scan_ledger.Net.{IpAddress}
use scan_ledger.Guard.Ranges.{Reason, inside_scope}
use scan_ledger.Guard.Ledger.{
  Ledger, LedgerEntry, allowed, denied, validated, rejected, raw_text, of_address, of_network,
}
use scan_ledger.Guard.Scope.{IpReader, ScopeProfile}
use scan_ledger.Guard.ScanGuard.{
  TargetRejected, ValidatedTarget, entry, Classified, a_network, some_addresses, classify,
  validate_network, record_validated, validate_addresses, validate_classified, validate_target,
}

abbrev pub allowed_address : IpAddress → LedgerEntry
allowed_address a = entry (of_address a) none allowed inside_scope validated

-- The entries of a validation, by its result: one allowed entry for the network or for each address, or
-- one denied entry for the destination that was refused. A refusal of the text itself has none.
abbrev pub validation_entries : Outcome TargetRejected ValidatedTarget → List LedgerEntry
validation_entries (returns t) = elim t.network [
  | some n ↦ entry (of_network n) none allowed inside_scope validated ∷ []
  | none ↦ map allowed_address t.addresses
]
validation_entries (raises x) = elim x.target [
  | raw_text _ ↦ []
  | d ↦ entry d none denied x.reason rejected ∷ []
]

module _ (scope : ScopeProfile) where
  record_validated_lem :
      (others : List IpAddress) (l : Ledger)
      → record_validated scope others l ≡ l ++ map allowed_address others
  unfolding record_validated
  record_validated_lem [] l = sym (append-nil l)
  record_validated_lem (a ∷ others) l =
      record_validated_lem others (l ++ allowed_address a ∷ [])
      ∙ append_assoc l (allowed_address a ∷ []) (map allowed_address others)

  classified_ledger :
      (raw : String) (c : Classified) (l : Ledger)
      → let (result, l') = validate_classified scope raw c l in l' ≡ l ++ validation_entries result
  unfolding validate_classified validate_network validate_addresses
  classified_ledger raw (a_network n) l = ground arith
  classified_ledger raw (some_addresses kind []) l = sym (append-nil l)
  classified_ledger raw (some_addresses kind (a ∷ others)) l =
      ground (arith, record_validated_lem (a ∷ others) l)

  module _ (reader : IpReader) (resolver : String → Outcome Reason (List IpAddress)) (raw : String)
      (l : Ledger) where
    text_refused :
        (x : TargetRejected)
        → classify reader resolver raw ≡ raises x
        → validation_entries (raises x) ≡ []
    unfolding classify
    text_refused x h = ground arith

    abbrev Appends : Outcome TargetRejected ValidatedTarget × Ledger → Type 0
    Appends (result, l') = l' ≡ l ++ validation_entries result

    validate_target-raises :
        (x : TargetRejected)
        → classify reader resolver raw ≡ raises x
        → validate_target scope reader resolver raw l ≡ (raises x, l)
    unfolding validate_target
    validate_target-raises x e = ground arith

    validate_target-returns :
        (c : Classified)
        → classify reader resolver raw ≡ returns c
        → validate_target scope reader resolver raw l ≡ validate_classified scope raw c l
    unfolding validate_target
    validate_target-returns c e = ground arith

    -- Whatever the target, `validate_target` only appends to the ledger, and what it appends is settled
    -- by its result. So a refused host name has one denied entry and no allowed one, and a target
    -- refused for its text (empty, no valid CIDR, not resolved) leaves no entry.
    pub validate_target_ledger :
        let (result, l') = validate_target scope reader resolver raw l in
        l' ≡ l ++ validation_entries result
    validate_target_ledger = elim (Outcome-cases (classify reader resolver raw)) [
      | inl (c, e) ↦ subst Appends (sym (validate_target-returns c e)) (classified_ledger raw c l)
      | inr (x, e) ↦
          subst Appends (sym (validate_target-raises x e))
            (rw (text_refused x e) (sym (append-nil l)))
    ]
