-- ===== src/Scan/Events.antt =====
-- backend/app/scan/events.py: the persisted events of a scan, numbered from 1. A live queue is the list
-- of the events put into it; a subscription is named by a number.
pub mod Replay
use scan_ledger.Prelude.{
  ℕ, suc, ◌+◌, ◌≡◌, Bool, true, false, not, ◌&&◌, Option, none, some, List, [], ◌∷◌, ◌++◌, String,
  string_eq, nat_eq, ◌==◌, ltb, leb, any, map, select, if◌then◌else◌, max,
}
use scan_ledger.Models.Domain.{ScanEventType}
use scan_ledger.Db.{ScanEventRow, Payload}

abbrev pub of_scan_id : String → ScanEventRow → Bool
of_scan_id scan_id r = r.scan_id == scan_id

-- The first row of `order_by(sequence.desc()).limit(1)`, as a number; 0 stands for no row.
unfoldable pub highest : List ScanEventRow → String → ℕ
highest [] scan_id = 0
highest (r ∷ rows) scan_id =
    let below = highest rows scan_id in if of_scan_id scan_id r then max r.sequence below else below

-- `_next_sequence`, for sequences that start at 1
unfoldable pub next_sequence : List ScanEventRow → String → ℕ
unfolding highest
next_sequence rows scan_id = highest rows scan_id + 1

-- What one `publish` is asked to write.
pub record Draft : Type 0 where
  pub event_type : ScanEventType
  pub module_name : Option String
  pub payload : Payload

abbrev pub numbered : String → ℕ → Draft → ScanEventRow
numbered scan_id n d = record {
  scan_id = scan_id;
  sequence = n;
  event_type = d.event_type;
  module_name = d.module_name;
  payload = d.payload;
}

-- `publish`, as far as the table goes
unfoldable pub publish : List ScanEventRow → String → Draft → List ScanEventRow
unfolding next_sequence
publish rows scan_id d = rows ++ numbered scan_id (next_sequence rows scan_id) d ∷ []

-- `order_by(ScanEventRow.sequence)`
unfoldable pub insert_by_sequence : ScanEventRow → List ScanEventRow → List ScanEventRow
insert_by_sequence r [] = r ∷ []
insert_by_sequence r (q ∷ rows) =
    let rest = insert_by_sequence r rows in
    if leb r.sequence q.sequence then r ∷ q ∷ rows else q ∷ rest

unfoldable pub order_by_sequence : List ScanEventRow → List ScanEventRow
unfolding insert_by_sequence
order_by_sequence [] = []
order_by_sequence (r ∷ rows) = insert_by_sequence r (order_by_sequence rows)

unfoldable pub events_since : List ScanEventRow → String → ℕ → List ScanEventRow
unfolding order_by_sequence
events_since rows scan_id n =
    order_by_sequence (select rows (λ r. of_scan_id scan_id r && ltb n r.sequence))

-- `_broadcast` puts the event into the queues of its scan's subscribers.
pub record Subscriber : Type 0 where
  pub key : ℕ
  pub scan_id : String
  pub queue : List ScanEventRow

unfoldable pub broadcast : ScanEventRow → List Subscriber → List Subscriber
broadcast event [] = []
broadcast event (s ∷ others) =
    (if s.scan_id == event.scan_id then record s { queue = s.queue ++ event ∷ [] } else s)
    ∷ broadcast event others

unfoldable pub subscribe : ℕ → String → List Subscriber → List Subscriber
subscribe key scan_id subscribers =
    record { key = key; scan_id = scan_id; queue = [] } ∷ subscribers

unfoldable pub unsubscribe : ℕ → String → List Subscriber → List Subscriber
unsubscribe key scan_id subscribers =
    select subscribers (λ s. not (s.key == key && s.scan_id == scan_id))
