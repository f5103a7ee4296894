-- ===== src/Bus/Upkeep.antt =====
-- Reading, acknowledging and pruning events, of src/nbs-bus/bus.c. System calls succeed; `qsort` is a parameter.
use nbs_framework.Common.{
  ℕ, zero, suc, ◌+◌, ◌-◌, Bool, true, false, ◌&&◌, Option, none, some, List, [], ◌∷◌, ltb, leb,
  if◌then◌else◌, length,
}
use nbs_framework.Common.Outcome.{Outcome, ok, fail, abort, ◌>>=◌, ◌>>◌, assert}
use nbs_framework.Common.Text.{Bytes}
use nbs_framework.Common.Decimal.{long_max}
use nbs_framework.Bus.{
  Directory, Bus, EventFile, Event, find_file, remove_file, put_file, bus_max_events,
}
use nbs_framework.Bus.Name.{
  has_event_suffix, parse_event_filename_timestamp, validate_event_filename,
}
use nbs_framework.Bus.Listing.{is_selected}
use nbs_framework.Bus.Scan.{or_skip, scan_events}

unfoldable pub content_of : Option EventFile → Outcome Bytes
content_of none = fail 2
content_of (some f) = ok f.content

unfoldable pub bus_read : Bus → Bytes → Outcome Bytes
unfolding content_of
bus_read bus event_file = do
  validate_event_filename event_file
  content_of (find_file event_file bus.pending)

-- `rename` into processed/.
unfoldable pub move_file : Directory → Bus → Option EventFile → Outcome Bus
move_file dir bus none = fail 2
move_file dir bus (some f) =
    ok (record {
      pending = remove_file f.name bus.pending;
      processed = put_file dir f bus.processed;
    })

unfoldable pub bus_ack : Directory → Bus → Bytes → Outcome Bus
unfolding move_file
bus_ack dir bus event_file = do
  validate_event_filename event_file
  move_file dir bus (find_file event_file bus.pending)

-- An acknowledgement that fails is not counted.
unfoldable pub count_ack : Bus → ℕ → Outcome Bus → Outcome (Bus × ℕ)
count_ack bus acked (ok bus') = ok (bus', acked + 1)
count_ack bus acked (fail k) = ok (bus, acked)
count_ack bus acked abort = abort

-- One event of the loop, which is passed over where the handle is not its source.
unfoldable pub ack_selected : Directory → Bool → Bus → ℕ → Bytes → Outcome (Bus × ℕ)
unfolding count_ack
ack_selected dir true bus acked event_file = count_ack bus acked (bus_ack dir bus event_file)
ack_selected dir false bus acked event_file = ok (bus, acked)

unfoldable pub ack_events : Directory → Bytes → List Event → Bus → ℕ → Outcome (Bus × ℕ)
unfolding ack_selected
ack_events dir handle [] bus acked = ok (bus, acked)
ack_events dir handle (e ∷ events) bus acked = do
  (bus', acked') ← ack_selected dir (is_selected handle e) bus acked e.filename
  ack_events dir handle events bus' acked'

-- The queue and how many events were acknowledged.
unfoldable pub bus_ack_all : Directory → Bus → Bytes → Outcome (Bus × ℕ)
unfolding ack_events
bus_ack_all dir bus handle = do
  events ← scan_events bus_max_events bus.pending
  ack_events dir handle events bus 0

-- `prune_entry_t`
pub record PruneEntry : Type 0 where
  pub filename : Bytes
  pub timestamp_us : ℕ
  pub size : ℕ

-- Whether `prune_compare` puts the first entry before the second, or calls them equal.
unfoldable pub prune_le : PruneEntry → PruneEntry → Bool
prune_le a b = leb a.timestamp_us b.timestamp_us

-- The entry of a file, none where it is no event.
unfoldable pub prune_entry : EventFile → Outcome (Option PruneEntry)
prune_entry file =
    let entry = do
      ts ← parse_event_filename_timestamp file.name
      assert (ltb (length file.name) 256)
      ok (record { filename = file.name; timestamp_us = ts; size = length file.content })
    in if has_event_suffix file.name then or_skip entry else ok none

-- The sizes are added up in the order of the directory, each time with room left in a long long.
unfoldable pub prune_scan : ℕ → ℕ → List EventFile → Outcome (List PruneEntry × ℕ)
unfolding prune_entry
prune_scan room total [] = ok ([], total)
prune_scan zero total (file ∷ files) = ok ([], total)
prune_scan (suc room) total (file ∷ files) = prune_entry file >>= λ e. elim e [
  | none ↦ prune_scan (suc room) total files
  | some pe ↦ do
    assert (leb pe.size long_max && leb total (long_max - pe.size))
    (entries, total') ← prune_scan room (total + pe.size) files
    ok (pe ∷ entries, total')
]

-- The loop that deletes, while the total is above the limit: what is left of the folder, its total
-- and the number deleted.
unfoldable pub prune_loop : ℕ → List PruneEntry → List EventFile → ℕ → ℕ → List EventFile × ℕ × ℕ
prune_loop max_bytes [] files total pruned = (files, total, pruned)
prune_loop max_bytes (e ∷ entries) files total pruned =
    let rest =
      prune_loop max_bytes entries (remove_file e.filename files) (total - e.size) (pruned + 1) in
    if ltb max_bytes total then rest else (files, total, pruned)

-- The queue and the number of events deleted. Without processed/ the list is empty and nothing is done.
unfoldable pub bus_prune : (List PruneEntry → List PruneEntry) → Bus → ℕ → Outcome (Bus × ℕ)
unfolding prune_scan prune_loop
bus_prune qsort bus max_bytes = do
  assert (ltb 0 max_bytes)
  (entries, total) ← prune_scan bus_max_events 0 bus.processed
  let left = prune_loop max_bytes (qsort entries) bus.processed total 0
  (if leb total max_bytes then ok (bus, 0) else ok (record bus { processed = left.0 }, left.2))
