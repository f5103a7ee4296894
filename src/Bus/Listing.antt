-- ===== src/Bus/Listing.antt =====
-- Listing events by priority, of src/nbs-bus/bus.c. `qsort` of the C library is a parameter: a function
-- that sorts, in an order among equals that it chooses.
pub mod Shown
use nbs_framework.Common.{
  ℕ, zero, suc, ◌+◌, ◌-◌, ◌*◌, ◌/◌, ◌%◌, ◌^◌, ◌≤◌, ◌<◌, min, ◌≡◌, refl, sym, ap, ◌∙◌, subst, ◌≢◌,
  ◌↔◌, ◌⊎◌, inl, inr, Bool, true, false, not, ◌&&◌, ◌||◌, Option, none, some, List, [], ◌∷◌, ◌++◌,
  map, append-nil, append_assoc, arith, ltb, leb, ◌==◌, if◌then◌else◌, within, ltb→lt, lt→ltb,
  leb→le, le→leb, ==_iff, Bool-cases, Option-cases, length, get_or, take, drop, length-append,
  length-take, length-drop, take-append-drop, take-length, map-take, map-drop, length-map, All,
  All-append, All-append_left, All-append_right, All-map,
}
use nbs_framework.Common.Outcome.{Outcome, ok, fail, abort, ◌>>=◌, ◌>>◌, assert, require}
use nbs_framework.Common.Text.{
  Bytes, codes, IsByte, Lacks, is_digit, is_alnum, is_space, str_eq, str_eq_iff,
}
use nbs_framework.Common.Decimal.{ℤ, pos, negsuc, show_nat, long_max}
use nbs_framework.Bus.{Bus, EventFile, Event, bus_max_events}
use nbs_framework.Bus.Name.{has_event_suffix}
use nbs_framework.Bus.Priority.{bus_priority_to_str}
use nbs_framework.Bus.Scan.{scan_events, scan_events_dynamic}

-- Whether `event_compare` puts the first event before the second, or calls them equal.
unfoldable pub event_le : Event → Event → Bool
event_le a b =
    if a.priority == b.priority
    then leb a.timestamp_us b.timestamp_us
    else ltb a.priority b.priority

unfoldable pub age_text : ℕ → Bytes
age_text seconds =
    if ltb seconds 60
    then show_nat seconds ++ codes "s ago"
    else if ltb seconds 3600
    then show_nat (seconds / 60) ++ codes "m ago"
    else if ltb seconds 86400
    then show_nat (seconds / 3600) ++ codes "h ago"
    else show_nat (seconds / 86400) ++ codes "d ago"

-- The age in microseconds as text, for a buffer of `size` bytes. Division rounds towards zero.
unfoldable pub age_seconds : ℤ → ℕ
age_seconds (pos n) = n / 1000000
age_seconds (negsuc n) = 0

unfoldable pub format_age : ℤ → ℕ → Outcome Bytes
unfolding age_text age_seconds
format_age delta_us size = do
  assert (leb 16 size)
  let text = age_text (age_seconds delta_us)
  assert (ltb (length text) size)
  ok text

unfoldable pub minus_us : ℕ → ℕ → ℤ
minus_us a b = if leb b a then pos (a - b) else negsuc (b - a - 1)

-- An empty handle stands for no filter.
unfoldable pub is_selected : Bytes → Event → Bool
is_selected handle e = if length handle == 0 then true else str_eq e.source handle

unfoldable pub event_line : ℕ → Event → Outcome Bytes
unfolding format_age minus_us
event_line current_us e = do
  age ← format_age (minus_us current_us e.timestamp_us) 32
  name ← bus_priority_to_str e.priority
  ok (b'[' ∷ (name ++ (codes "] " ++ (e.filename ++ (codes " (" ++ (age ++ codes ")\n"))))))

unfoldable pub print_events : ℕ → Bytes → List Event → Outcome (List Bytes)
unfolding is_selected event_line
print_events current_us handle [] = ok []
print_events current_us handle (e ∷ events) =
    let rest = print_events current_us handle events in
    let printed = do line ← event_line current_us e; lines ← rest; ok (line ∷ lines)
    in if is_selected handle e then printed else rest

-- The lines that are printed.
unfoldable pub bus_check : (List Event → List Event) → ℕ → Bus → Bytes → Outcome (List Bytes)
unfolding print_events
bus_check qsort current_us bus handle = do
  events ← scan_events_dynamic bus.pending
  print_events current_us handle (qsort events)

-- The numbers that `bus_status` prints.
pub record Status : Type 0 where
  pub count : ℕ
  pub priority_counts : List ℕ
  pub oldest_ts : ℕ
  pub processed_count : ℕ
  pub processed_size : ℕ
  pub stale : ℕ

unfoldable pub count_priority : ℕ → List Event → ℕ
count_priority p [] = 0
count_priority p (e ∷ events) = (if e.priority == p then 1 else 0) + count_priority p events

unfoldable pub check_priorities : List Event → Outcome (Unit {0})
check_priorities [] = ok tt
check_priorities (e ∷ events) = do assert (leb e.priority 3); check_priorities events

-- 0 stands for no event yet.
unfoldable pub find_oldest : ℕ → List Event → ℕ
find_oldest oldest [] = oldest
find_oldest oldest (e ∷ events) =
    find_oldest (if oldest == 0 || ltb e.timestamp_us oldest then e.timestamp_us else oldest) events

unfoldable pub count_stale : ℕ → ℕ → List Event → ℕ
count_stale current_us timeout_us [] = 0
count_stale current_us timeout_us (e ∷ events) =
    (if ltb timeout_us (current_us - e.timestamp_us) then 1 else 0)
    + count_stale current_us timeout_us events

-- The processed files and their bytes, each time with room left in a long long.
unfoldable pub processed_totals : ℕ → ℕ → List EventFile → Outcome (ℕ × ℕ)
processed_totals count size [] = ok (count, size)
processed_totals count size (file ∷ files) =
    let rest = processed_totals count size files in
    let counted = processed_totals (count + 1) (size + length file.content) files in
    let added = do
      assert (leb (length file.content) long_max && leb size (long_max - length file.content))
      counted
    in if has_event_suffix file.name then added else rest

-- What `bus_status` prints; the text of the oldest time and of the sizes is left out. A timeout of 0 seconds is none.
unfoldable pub bus_status : ℕ → ℕ → Bus → Outcome Status
unfolding count_priority check_priorities find_oldest count_stale processed_totals
bus_status current_us ack_timeout_s bus = do
  events ← scan_events bus_max_events bus.pending
  check_priorities events
  (processed_count, processed_size) ← processed_totals 0 0 bus.processed
  assert (ack_timeout_s == 0 || length events == 0 || leb ack_timeout_s (long_max / 1000000))
  let counts =
      count_priority 0 events
      ∷ count_priority 1 events
      ∷ count_priority 2 events
      ∷ count_priority 3 events
      ∷ []
  ok (record {
    count = length events;
    priority_counts = counts;
    oldest_ts = find_oldest 0 events;
    processed_count = processed_count;
    processed_size = processed_size;
    stale =
        if ack_timeout_s == 0 then 0 else count_stale current_us (ack_timeout_s * 1000000) events;
  })
