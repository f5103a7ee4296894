-- ===== src/Bus/Scan.antt =====
-- Reading the directory of pending events, of src/nbs-bus/bus.c.
pub mod Order
use nbs_framework.Common.{
  ℕ, ◌-◌, Option, none, some, List, [], ◌∷◌, ltb, ◌==◌, if◌then◌else◌, length,
}
use nbs_framework.Common.Outcome.{Outcome, ok, fail, abort, ◌>>=◌, ◌>>◌, assert}
use nbs_framework.Bus.{EventFile, Event, bus_max_filename}
use nbs_framework.Bus.Name.{has_event_suffix, parse_event_filename_timestamp}
use nbs_framework.Bus.Content.{read_event_fields}

-- An error that is only warned of, with the file skipped.
unfoldable pub or_skip {ℓ} : {A : Type ℓ} → Outcome A → Outcome (Option A)
or_skip (ok a) = ok (some a)
or_skip (fail k) = ok none
or_skip abort = abort

unfoldable pub event_of : EventFile → Outcome Event
event_of file = do
  ts ← parse_event_filename_timestamp file.name
  (p, s, t) ← read_event_fields file.content
  assert (ltb (length file.name) bus_max_filename)
  ok (record { filename = file.name; source = s; type_name = t; priority = p; timestamp_us = ts })

-- One entry of the directory.
unfoldable pub scan_entry : EventFile → Outcome (Option Event)
unfolding or_skip event_of
scan_entry file = if has_event_suffix file.name then or_skip (event_of file) else ok none

unfoldable pub add_event : Option Event → List Event → List Event
add_event none events = events
add_event (some e) events = e ∷ events

-- All events, in the order of the directory.
unfoldable pub scan_events_dynamic : List EventFile → Outcome (List Event)
unfolding scan_entry add_event
scan_events_dynamic [] = ok []
scan_events_dynamic (file ∷ files) = do
  e ← scan_entry file
  events ← scan_events_dynamic files
  ok (add_event e events)

-- Room for the events left, one less where an entry was one.
unfoldable pub room_left : Option Event → ℕ → ℕ
room_left none room = room
room_left (some e) room = room - 1

-- At most `room` events; the entries behind are not looked at.
unfoldable pub scan_events : ℕ → List EventFile → Outcome (List Event)
unfolding scan_entry add_event room_left
scan_events room [] = ok []
scan_events room (file ∷ files) =
    let scanned = do
      e ← scan_entry file
      events ← scan_events (room_left e room) files
      ok (add_event e events)
    in if room == 0 then ok [] else scanned
