-- ===== src/Guard/Ledger.antt =====
-- backend/app/guard/ledger.py: the entries and the in-process sink. A destination is what `str` prints
-- of it; `endpoint` is `f"{address}:{port}"`. The time of an entry is not modelled.
use scan_ledger.Prelude.{ℕ, Bool, true, false, Option, List, [], ◌∷◌, ◌++◌, String, select}
use scan_ledger.Net.{IpAddress, IpNetwork}
use scan_ledger.Guard.Ranges.{Reason}

pub data Decision : Type 0 where
  allowed denied : Decision

pub data ResultOf : Type 0 where
  connected connect_failed validated rejected : ResultOf

pub data Destination : Type 0 where
  raw_text : String → Destination
  of_address : IpAddress → Destination
  of_network : IpNetwork → Destination
  endpoint : IpAddress → ℕ → Destination

-- Every entry here is the guard's, so the constant field `module` is left out.
pub record LedgerEntry : Type 0 where
  pub destination : Destination
  pub port : Option ℕ
  pub decision : Decision
  pub reason : Reason
  pub outcome : ResultOf

abbrev pub Ledger : Type 0
Ledger = List LedgerEntry

-- `InMemoryLedger.record`
unfoldable pub record_entry : Ledger → LedgerEntry → Ledger
record_entry l entry = l ++ entry ∷ []

abbrev pub is_denied : LedgerEntry → Bool
is_denied entry = elim entry.decision [ denied ↦ true | allowed ↦ false ]

abbrev pub is_allowed : LedgerEntry → Bool
is_allowed entry = elim entry.decision [ allowed ↦ true | denied ↦ false ]

unfoldable pub denied_entries : Ledger → Ledger
denied_entries l = select l is_denied

unfoldable pub allowed_entries : Ledger → Ledger
allowed_entries l = select l is_allowed
