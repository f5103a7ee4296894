-- ===== src/Bus/Drain.antt =====
-- Acknowledging all events, of src/nbs-bus/bus.c, empties a queue.
use nbs_framework.Common.{
  ℕ, zero, suc, ◌+◌, ◌-◌, ◌≤◌, ◌≡◌, refl, ap, ◌∙◌, true, false, List, [], ◌∷◌, map, arith, ◌==◌,
  length, All,
}
use nbs_framework.Common.Outcome.{ok}
use nbs_framework.Common.Text.{str_eq, str_eq_iff}
use nbs_framework.Bus.{
  Directory, Bus, EventFile, Event, find_file, remove_file, put_file, bus_max_events,
}
use nbs_framework.Bus.Files.{IsFolder, remove_file-none}
use nbs_framework.Bus.Listing.{is_selected}
use nbs_framework.Bus.Queue.{IsEventFile}
use nbs_framework.Bus.Reach.{IsReachable, IsReachable-IsQueue}
use nbs_framework.Bus.Scan.{add_event, room_left, scan_events}
use nbs_framework.Bus.Upkeep.{move_file, bus_ack, count_ack, ack_selected, ack_events, bus_ack_all}

-- The files of a list put into a folder one after the other.
unfoldable pub put_files : Directory → List EventFile → List EventFile → List EventFile
put_files dir [] folder = folder
put_files dir (f ∷ files) folder = put_files dir files (put_file dir f folder)

scan_events-All :
    (room : ℕ) (files : List EventFile)
    → length files ≤ room
    → All IsEventFile files
    → (events : List Event) × (scan_events room files ≡ ok events)
      × (map (λ e. e.filename) events ≡ map (λ f. f.name) files)
unfolding scan_events add_event room_left
scan_events-All room [] fits h = ([], refl, refl)
scan_events-All (suc room) (f ∷ files) fits (e, h) =
    let (events, scanned, names) = scan_events-All room files (omega arith) h in
    let full : (suc room == 0) ≡ false = ground arith in
    let left : suc room - 1 ≡ room = omega arith in
    (
      e.event ∷ events,
      rw e.read (rw full (rw left (rw scanned refl))),
      rw e.named (ap (◌∷◌ f.name) names),
    )
scan_events-All zero (f ∷ files) fits h = absurd (omega arith)

-- The first file of a folder is moved, and the others stay.
bus_ack_first :
    (dir : Directory) (f : EventFile) (files processed : List EventFile)
    → IsFolder (f ∷ files)
    → IsEventFile f
    → bus_ack dir (record { pending = f ∷ files; processed = processed }) f.name
      ≡ ok (record { pending = files; processed = put_file dir f processed })
unfolding bus_ack move_file find_file remove_file
bus_ack_first dir f files processed (new, folder) e =
    let itself : str_eq f.name f.name ≡ true = (str_eq_iff f.name f.name).1 refl in
    rw e.valid (rw itself (rw itself (rw (remove_file-none f.name files new) refl)))

ack_events-All :
    (dir : Directory) (files processed : List EventFile) (events : List Event) (acked : ℕ)
    → IsFolder files
    → All IsEventFile files
    → map (λ e. e.filename) events ≡ map (λ f. f.name) files
    → ack_events dir [] events (record { pending = files; processed = processed }) acked
      ≡ ok
          (record { pending = []; processed = put_files dir files processed }, acked + length files)
unfolding ack_events ack_selected count_ack is_selected put_files
ack_events-All dir [] processed [] acked folder h names =
    let none_more : acked ≡ acked + 0 = omega arith in ap (λ n. ok (_, n)) none_more
ack_events-All dir [] processed (e ∷ events) acked folder h names = absurd cc
ack_events-All dir (f ∷ files) processed [] acked folder h names = absurd cc
ack_events-All dir (f ∷ files) processed (e ∷ events) acked folder (p, h) names =
    let here : e.filename ≡ f.name = cc in
    let later : map (λ e. e.filename) events ≡ map (λ f. f.name) files = cc in
    let left : Bus = record {
      pending = [];
      processed = put_files dir files (put_file dir f processed);
    } in
    let total : acked + 1 + length files ≡ acked + length (f ∷ files) = omega arith in
    rw here (
      rw (bus_ack_first dir f files processed folder p) (
        ack_events-All dir files (put_file dir f processed) events (acked + 1) folder.1 h later
        ∙ ap (λ n. ok (left, n)) total))

-- On every queue that the commands lead to with at most 256 pending events, acknowledging all of them succeeds: it counts every
-- one, leaves none pending, and puts their files under processed/ in turn.
pub IsReachable-bus_ack_all :
    (dir : Directory) (bus : Bus)
    → IsReachable bus
    → length bus.pending ≤ bus_max_events
    → bus_ack_all dir bus []
      ≡ ok (
        record { pending = []; processed = put_files dir bus.pending bus.processed },
        length bus.pending,
      )
unfolding bus_ack_all
IsReachable-bus_ack_all dir bus r fits =
    let q = IsReachable-IsQueue r in
    let (events, scanned, names) =
      scan_events-All bus_max_events bus.pending fits q.pending_events in
    let left : Bus = record { pending = []; processed = put_files dir bus.pending bus.processed } in
    let total : 0 + length bus.pending ≡ length bus.pending = omega arith in
    rw scanned (
      ack_events-All dir bus.pending bus.processed events 0 q.pending_folder q.pending_events names
      ∙ ap (λ n. ok (left, n)) total)
