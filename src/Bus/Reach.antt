-- ===== src/Bus/Reach.antt =====
-- The queues that the commands of src/nbs-bus/bus.c lead to, and what a listing of them shows.
use nbs_framework.Common.{
  ℕ, ◌≤◌, ◌<◌, ◌≡◌, refl, ap, ◌⊎◌, inl, inr, true, List, [], ◌∷◌, map, ◌==◌, ltb→lt, leb→le, ==_iff,
  Bool-cases, All,
}
use nbs_framework.Common.Outcome.{ok}
use nbs_framework.Common.Text.{Bytes}
use nbs_framework.Common.Sorting.{
  IsPermuted, IsOrdered, IsSorted-IsOrdered, IsQsort, keep, IsPermuted-sym, All-permuted,
  keep-IsPermuted, keep-IsSorted,
}
use nbs_framework.Common.Decimal.{long_max}
use nbs_framework.Bus.Files.{IsFolder-permuted}
use nbs_framework.Bus.{Directory, Bus, EventFile, Event}
use nbs_framework.Bus.Listing.{event_le, is_selected, bus_check}
use nbs_framework.Bus.Listing.Shown.{IsListable, shown_line, print_events-shown_line}
use nbs_framework.Bus.Publish.{Clock, bus_publish, bus_publish_dedup}
use nbs_framework.Bus.Publish.Request.{IsRequest}
use nbs_framework.Bus.Queue.{
  IsEventFile, IsQueue, bus_publish-IsQueue, bus_publish_dedup-IsQueue, bus_ack-IsQueue,
  bus_ack_all-IsQueue, bus_prune-IsQueue,
}
use nbs_framework.Bus.Scan.{add_event, scan_events_dynamic}
use nbs_framework.Bus.Upkeep.{bus_ack, bus_ack_all, PruneEntry, bus_prune}

-- One command that returns, or another order of the files in the folders. Commands of several processes are taken to
-- follow one another.
pub data IsStep : Bus → Bus → Type 0 where
  published :
      {bus bus' : Bus} (clock : Clock) (source type_name : Bytes) (priority : ℕ)
      (payload name : Bytes)
      → IsRequest clock source type_name priority
      → bus_publish clock bus source type_name priority payload ≡ ok (bus', name)
      → IsStep bus bus'
  deduped :
      {bus bus' : Bus} (current_us : ℕ) (clock : Clock) (source type_name : Bytes) (priority : ℕ)
      (payload : Bytes) (window_us code : ℕ)
      → IsRequest clock source type_name priority
      → bus_publish_dedup current_us clock bus source type_name priority payload window_us
        ≡ ok (bus', code)
      → IsStep bus bus'
  acked :
      {bus bus' : Bus} (dir : Directory) (event_file : Bytes)
      → bus_ack dir bus event_file ≡ ok bus'
      → IsStep bus bus'
  acked_all :
      {bus bus' : Bus} (dir : Directory) (handle : Bytes) (n : ℕ)
      → bus_ack_all dir bus handle ≡ ok (bus', n)
      → IsStep bus bus'
  pruned :
      {bus bus' : Bus} (qsort : List PruneEntry → List PruneEntry) (max_bytes n : ℕ)
      → bus_prune qsort bus max_bytes ≡ ok (bus', n)
      → IsStep bus bus'
  relisted :
      {bus bus' : Bus}
      → IsPermuted bus.pending bus'.pending
      → IsPermuted bus.processed bus'.processed
      → IsStep bus bus'

-- From an empty queue by any sequence of commands.
pub data IsReachable : Bus → Type 0 where
  start : IsReachable (record { pending = []; processed = [] })
  next : {bus bus' : Bus} → IsReachable bus → IsStep bus bus' → IsReachable bus'

IsStep-IsQueue : {bus bus' : Bus} → IsStep bus bus' → IsQueue bus → IsQueue bus'
IsStep-IsQueue (published clock source type_name priority payload name v returned) q =
    bus_publish-IsQueue clock source type_name priority payload _ _ name v returned q
IsStep-IsQueue
      (deduped current_us clock source type_name priority payload window_us code v returned) q =
    bus_publish_dedup-IsQueue current_us clock source type_name priority payload window_us _ _ code
      v returned q
IsStep-IsQueue (acked dir event_file returned) q = bus_ack-IsQueue dir _ _ event_file returned q
IsStep-IsQueue (acked_all dir handle n returned) q = bus_ack_all-IsQueue dir _ _ handle n returned q
IsStep-IsQueue (pruned qsort max_bytes n returned) q =
    bus_prune-IsQueue qsort _ _ max_bytes n returned q
IsStep-IsQueue (relisted pending processed) q = record {
  pending_folder = IsFolder-permuted pending q.pending_folder;
  processed_folder = IsFolder-permuted processed q.processed_folder;
  pending_events = All-permuted IsEventFile pending q.pending_events;
  processed_events = All-permuted IsEventFile processed q.processed_events;
}

-- Whatever commands, with legal publications, have run on an empty queue, and in whatever order the
-- file system lists the folders, in each of them the names are different and every file is read as
-- an event of a known priority, under a name that the commands accept.
pub IsReachable-IsQueue : {bus : Bus} → IsReachable bus → IsQueue bus
IsReachable-IsQueue start = record {
  pending_folder = tt;
  processed_folder = tt;
  pending_events = tt;
  processed_events = tt;
}
IsReachable-IsQueue (next r s) = IsStep-IsQueue s (IsReachable-IsQueue r)

-- A folder of event files is listed whole, in the order of the directory.
pub scan_events_dynamic-All :
    (files : List EventFile)
    → All IsEventFile files
    → (events : List Event) × (scan_events_dynamic files ≡ ok events)
      × (map (λ e. e.filename) events ≡ map (λ f. f.name) files)
      × All IsListable events
unfolding scan_events_dynamic add_event
scan_events_dynamic-All [] h = ([], refl, refl, tt)
scan_events_dynamic-All (f ∷ files) (e, h) =
    let (events, scanned, names, known) = scan_events_dynamic-All files h in
    (
      e.event ∷ events,
      rw e.read (rw scanned refl),
      rw e.named (ap (◌∷◌ f.name) names),
      (e.known, known),
    )

-- The order of a listing: by priority, and among equals by time.
abbrev pub IsBefore : Event → Event → Type 0
IsBefore e d =
    (e.priority < d.priority) ⊎ ((e.priority ≡ d.priority) × (e.timestamp_us ≤ d.timestamp_us))

event_le-IsBefore : (e d : Event) → event_le e d ≡ true → IsBefore e d
unfolding event_le
event_le-IsBefore e d h = elim (Bool-cases (e.priority == d.priority)) [
  | inl same ↦
      inr
        ((==_iff e.priority d.priority).0 same, leb→le e.timestamp_us d.timestamp_us (rw same at h))
  | inr differ ↦ inl (ltb→lt e.priority d.priority (rw differ at h))
]

-- On every queue that the commands lead to, with a clock below the end of 64 bits and a qsort that
-- sorts, bus_check returns: it prints one line for each pending event that the handle selects and
-- no other, ordered by priority and then by time.
pub IsReachable-bus_check :
    (qsort : List Event → List Event) (current_us : ℕ) (bus : Bus) (handle : Bytes)
    → IsQsort event_le qsort
    → current_us ≤ long_max
    → IsReachable bus
    → (events : List Event) × (shown : List Event) × (scan_events_dynamic bus.pending ≡ ok events)
      × (map (λ e. e.filename) events ≡ map (λ f. f.name) bus.pending)
      × IsPermuted shown (keep (is_selected handle) events)
      × IsOrdered IsBefore shown
      × (bus_check qsort current_us bus handle ≡ ok (map (shown_line current_us) shown))
unfolding bus_check
IsReachable-bus_check qsort current_us bus handle sorts now r =
    let q = IsReachable-IsQueue r in
    let (events, scanned, names, known) = scan_events_dynamic-All bus.pending q.pending_events in
    let listable = All-permuted IsListable (IsPermuted-sym (sorts.permuted events)) known in
    (
      events,
      keep (is_selected handle) (qsort events),
      scanned,
      names,
      keep-IsPermuted (is_selected handle) (sorts.permuted events),
      IsSorted-IsOrdered event_le IsBefore event_le-IsBefore _
          (keep-IsSorted event_le (is_selected handle) (qsort events) (sorts.sorted events)),
      rw scanned (print_events-shown_line current_us handle (qsort events) now listable),
    )
