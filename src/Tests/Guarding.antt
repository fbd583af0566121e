-- ===== src/Tests/Guarding.antt =====
-- The theorems about the guard at concrete inputs.
use scan_ledger.Prelude.{◌≡◌, ◌⊎◌, refl, false, none, [], ◌∷◌, length, returns}
use scan_ledger.Text.{strip, contains}
use scan_ledger.Net.{in_network, subnet_of, is_multicast, is_global, address_eq}
use scan_ledger.Guard.Ranges.{
  allowed_ranges_for, network_within_allowed, check_prefix_breadth, is_always_denied, inside_scope,
}
use scan_ledger.Guard.Ledger.{allowed, validated, of_address, record_entry}
use scan_ledger.Guard.Scope.{
  contains_address, parse_scope_entry, admit_entry, admit_entries, create,
}
use scan_ledger.Guard.Scope.Lab.{IsValid, create-IsValid}
use scan_ledger.Guard.ScanGuard.{
  validate_target, entry, classify, first_denial, record_validated, validate_addresses, denial_of,
}
use scan_ledger.Guard.ScanGuard.Proven.{Proven, validate_target-Proven}
use scan_ledger.Guard.ScanGuard.Ledgers.{validation_entries, validate_target_ledger}
use scan_ledger.Guard.Connect.{accepted, refused, connect}
use scan_ledger.Guard.Connect.Safety.{
  Cleared, connect_safe, entries_for, attempts_for, connect_ledger,
}
use scan_ledger.Guard.Connect.Slots.{Settled, connect-Settled}
use scan_ledger.Tests.Lab.{bench, reader, resolver, entries, scope, scope-IsValid, target, state}

connect_safe_example :
    ((connect scope accepted target bench 22 state).1.attempts ≡ [])
    ⊎ (((connect scope accepted target bench 22 state).1.attempts ≡ (bench, 22) ∷ [])
        × Cleared scope target bench 22)
connect_safe_example = connect_safe scope accepted target bench 22 state

connect_ledger_example :
    let (result, t) = connect scope refused target bench 22 state in
    (t.ledger ≡ entries_for result bench 22) × (t.attempts ≡ attempts_for result bench 22)
connect_ledger_example = connect_ledger scope refused target bench 22 state

connect-Settled_example :
    let (result, t) = connect scope refused target bench 22 state in
    Settled bench (length (attempts_for result bench 22)) state.governor t.governor
connect-Settled_example = connect-Settled bench 22 state refused scope target

bench_validated :
    validate_target scope reader resolver "10.1.2.3" []
    ≡ (returns target, entry (of_address bench) none allowed inside_scope validated ∷ [])
unfolding validate_target classify strip contains validate_addresses first_denial record_validated
    denial_of record_entry contains_address in_network is_multicast is_global is_always_denied
bench_validated = refl

validate_target-Proven_example : Proven scope target
validate_target-Proven_example =
    validate_target-Proven reader resolver scope "10.1.2.3" target []
      (entry (of_address bench) none allowed inside_scope validated ∷ []) scope-IsValid
      bench_validated

validate_target_ledger_example :
    let (result, l') = validate_target scope reader resolver "10.1.2.3" [] in
    l' ≡ validation_entries result
validate_target_ledger_example = validate_target_ledger scope reader resolver "10.1.2.3" []

lab_created : create reader "lab" entries false false ≡ returns scope
unfolding create admit_entries admit_entry parse_scope_entry strip check_prefix_breadth
    network_within_allowed subnet_of allowed_ranges_for
lab_created = refl

create-IsValid_example :
    IsValid scope
    × (scope.entries ≡ entries)
    × (scope.allow_cgnat ≡ false)
    × (scope.allow_link_local ≡ false)
create-IsValid_example = create-IsValid reader "lab" entries false false scope lab_created
