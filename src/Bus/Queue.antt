-- ===== src/Bus/Queue.antt =====
-- The state of the queue: what each operation of src/nbs-bus/bus.c keeps of its two folders.
use nbs_framework.Common.{
  ℕ, ◌+◌, ◌-◌, ◌≤◌, ◌≡◌, refl, sym, ap, ◌∙◌, subst, ◌⊎◌, inl, inr, Bool, true, false, some, List,
  [], ◌∷◌, arith, ltb, leb, if◌then◌else◌, Bool-cases, Option-cases, length, All,
}
use nbs_framework.Common.Outcome.{Outcome, ok, fail, abort, ◌>>=◌, bind-eq-ok, ok_inj, assert-eq-ok}
use nbs_framework.Common.Text.{Bytes}
use nbs_framework.Common.Decimal.{long_max}
use nbs_framework.Bus.{
  Directory, Bus, EventFile, Event, find_file, remove_file, put_file, bus_max_events,
}
use nbs_framework.Bus.Files.{
  IsFolder, IsFolder-remove_file, IsFolder-put_file, All-remove_file, All-put_file, All-find_file,
}
use nbs_framework.Bus.Name.{
  validate_event_filename, has_event_suffix, parse_event_filename_timestamp,
}
use nbs_framework.Bus.Name.Stamp.{
  validate_event_filename-event_filename, event_filename-has_event_suffix,
  parse_event_filename_timestamp-event_filename,
}
use nbs_framework.Bus.Listing.{is_selected}
use nbs_framework.Bus.Publish.{
  Clock, name_max, bus_publish, bus_publish_dedup, find_duplicate, key_size,
}
use nbs_framework.Bus.Content.{dedup_key}
use nbs_framework.Bus.Publish.Request.{
  IsRequest, IsPublished, bus_publish_lem, has_slash-filename, length-filename,
}
use nbs_framework.Bus.Scan.{scan_entry, scan_events}
use nbs_framework.Bus.Upkeep.{
  move_file, bus_ack, count_ack, ack_selected, ack_events, bus_ack_all, PruneEntry, prune_loop,
  prune_scan, bus_prune,
}

-- A file that the scan reads as an event, under a name that the commands accept.
pub record IsEventFile (file : EventFile) : Type 0 where
  pub event : Event
  pub read : scan_entry file ≡ ok (some event)
  pub named : event.filename ≡ file.name
  pub suffixed : has_event_suffix file.name ≡ true
  pub stamped : parse_event_filename_timestamp file.name ≡ ok event.timestamp_us
  pub fits : length file.name ≤ name_max
  pub known : event.priority ≤ 3
  pub in_time : event.timestamp_us ≤ long_max
  pub valid : validate_event_filename file.name ≡ ok tt

-- Each folder holds event files under different names.
pub record IsQueue (bus : Bus) : Type 0 where
  pub pending_folder : IsFolder bus.pending
  pub processed_folder : IsFolder bus.processed
  pub pending_events : All IsEventFile bus.pending
  pub processed_events : All IsEventFile bus.processed

pub IsPublished-IsEventFile :
    (clock : Clock) (source type_name : Bytes) (priority : ℕ)
    (v : IsRequest clock source type_name priority) (file : EventFile)
    → IsPublished clock source type_name priority v file
    → IsEventFile file
IsPublished-IsEventFile clock source type_name priority v file p = record {
  event = _;
  read = p.read;
  named = sym p.named;
  suffixed = rw p.named (event_filename-has_event_suffix clock.now_us source type_name clock.pid);
  stamped = rw p.named (
      parse_event_filename_timestamp-event_filename clock.now_us source type_name clock.pid
        v.started v.in_time);
  fits = rw p.named (length-filename clock source type_name priority v);
  known = v.known;
  in_time = v.in_time;
  valid = rw p.named (
      validate_event_filename-event_filename clock.now_us source type_name clock.pid
        (has_slash-filename clock source type_name priority v)
        (omega (arith, length-filename clock source type_name priority v)));
}

pub bus_publish-IsQueue :
    (clock : Clock) (source type_name : Bytes) (priority : ℕ) (payload : Bytes) (bus bus' : Bus)
    (name : Bytes)
    → IsRequest clock source type_name priority
    → bus_publish clock bus source type_name priority payload ≡ ok (bus', name)
    → IsQueue bus
    → IsQueue bus'
bus_publish-IsQueue clock source type_name priority payload bus bus' name v returned q =
    let (file, published, p) = bus_publish_lem clock source type_name priority v bus payload in
    let same : record bus { pending = put_file clock.directory file bus.pending } ≡ bus' =
      ap (λ r. r.0) (ok_inj (sym published ∙ returned)) in
    let new = IsPublished-IsEventFile clock source type_name priority v file p in
    subst IsQueue same (record {
      pending_folder = IsFolder-put_file clock.directory file bus.pending q.pending_folder;
      processed_folder = q.processed_folder;
      pending_events =
          All-put_file IsEventFile clock.directory file bus.pending new q.pending_events;
      processed_events = q.processed_events;
    })

publish_unless-cases :
    (duplicate : Bool) (bus bus' : Bus) (code : ℕ) (published : Outcome (Bus × Bytes))
    → if◌then◌else◌ {A = Outcome (Bus × ℕ)} duplicate (ok (bus, 5)) (published >>= λ r. ok (r.0, 0))
      ≡ ok (bus', code)
    → (bus' ≡ bus) ⊎ ((name : Bytes) × (published ≡ ok (bus', name)))
publish_unless-cases true bus bus' code published h = inl (ap (λ r. r.0) (sym (ok_inj h)))
publish_unless-cases false bus bus' code published h =
    let ((next, name), returned, same) = bind-eq-ok published _ h in
    inr (name, returned ∙ ap (λ b. ok (b, name)) (ap (λ r. r.0) (ok_inj same)))

-- What a deduplicating publication that returns has done: nothing, or a publication.
pub bus_publish_dedup-cases :
    (current_us : ℕ) (clock : Clock) (source type_name : Bytes) (priority : ℕ) (payload : Bytes)
    (window_us : ℕ) (bus bus' : Bus) (code : ℕ)
    → bus_publish_dedup current_us clock bus source type_name priority payload window_us
      ≡ ok (bus', code)
    → (bus' ≡ bus)
      ⊎ ((name : Bytes) × (bus_publish clock bus source type_name priority payload
            ≡ ok (bus', name)))
unfolding bus_publish_dedup
bus_publish_dedup-cases current_us clock source type_name priority payload window_us bus bus' code
      returned =
    let (p1, r1) = assert-eq-ok (ltb 0 (length source)) _ returned in
    let (p2, r2) = assert-eq-ok (ltb 0 (length type_name)) _ r1 in
    let (p3, r3) = assert-eq-ok (leb priority 3) _ r2 in
    let (p4, r4) = assert-eq-ok (ltb 0 window_us) _ r3 in
    let (p5, r5) = assert-eq-ok (ltb (length (dedup_key source type_name)) key_size) _ r4 in
    let (duplicate, found, r6) =
      bind-eq-ok (find_duplicate (current_us - window_us) (dedup_key source type_name) bus.pending)
        _ r5 in
    publish_unless-cases duplicate bus bus' code
      (bus_publish clock bus source type_name priority payload) r6

pub bus_publish_dedup-IsQueue :
    (current_us : ℕ) (clock : Clock) (source type_name : Bytes) (priority : ℕ) (payload : Bytes)
    (window_us : ℕ) (bus bus' : Bus) (code : ℕ)
    → IsRequest clock source type_name priority
    → bus_publish_dedup current_us clock bus source type_name priority payload window_us
      ≡ ok (bus', code)
    → IsQueue bus
    → IsQueue bus'
bus_publish_dedup-IsQueue current_us clock source type_name priority payload window_us bus bus' code
      v returned q =
    elim (bus_publish_dedup-cases current_us clock source type_name priority payload window_us bus
      bus' code returned) [
        | inl dropped ↦ subst IsQueue (sym dropped) q
        | inr (name, published) ↦
            bus_publish-IsQueue clock source type_name priority payload bus bus' name v published q
      ]

move_file-IsQueue :
    (dir : Directory) (bus bus' : Bus) (file : EventFile)
    → IsEventFile file
    → move_file dir bus (some file) ≡ ok bus'
    → IsQueue bus
    → IsQueue bus'
unfolding move_file
move_file-IsQueue dir bus bus' file e moved q = subst IsQueue (ok_inj moved) (record {
  pending_folder = IsFolder-remove_file file.name bus.pending q.pending_folder;
  processed_folder = IsFolder-put_file dir file bus.processed q.processed_folder;
  pending_events = All-remove_file IsEventFile file.name bus.pending q.pending_events;
  processed_events = All-put_file IsEventFile dir file bus.processed e q.processed_events;
})

pub bus_ack-IsQueue :
    (dir : Directory) (bus bus' : Bus) (event_file : Bytes)
    → bus_ack dir bus event_file ≡ ok bus'
    → IsQueue bus
    → IsQueue bus'
unfolding bus_ack
bus_ack-IsQueue dir bus bus' event_file acked q =
    let (u, valid, moved) = bind-eq-ok (validate_event_filename event_file) _ acked in
    elim (Option-cases (find_file event_file bus.pending)) [
      | inl missing ↦ unfold move_file in cc
      | inr (file, found) ↦
          move_file-IsQueue dir bus bus' file
            (All-find_file IsEventFile event_file bus.pending file q.pending_events found)
            (rw found at moved) q
    ]

count_ack-IsQueue :
    (dir : Directory) (bus bus' : Bus) (acked n : ℕ) (event_file : Bytes) (r : Outcome Bus)
    → bus_ack dir bus event_file ≡ r
    → count_ack bus acked r ≡ ok (bus', n)
    → IsQueue bus
    → IsQueue bus'
unfolding count_ack
count_ack-IsQueue dir bus bus' acked n event_file (ok left) same counted q =
    subst IsQueue (ap (λ r. r.0) (ok_inj counted)) (bus_ack-IsQueue dir bus left event_file same q)
count_ack-IsQueue dir bus bus' acked n event_file (fail k) same counted q =
    subst IsQueue (ap (λ r. r.0) (ok_inj counted)) q
count_ack-IsQueue dir bus bus' acked n event_file abort same counted q = absurd cc

ack_selected-IsQueue :
    (dir : Directory) (selected : Bool) (bus bus' : Bus) (acked n : ℕ) (event_file : Bytes)
    → ack_selected dir selected bus acked event_file ≡ ok (bus', n)
    → IsQueue bus
    → IsQueue bus'
unfolding ack_selected
ack_selected-IsQueue dir true bus bus' acked n event_file h q =
    count_ack-IsQueue dir bus bus' acked n event_file (bus_ack dir bus event_file) refl h q
ack_selected-IsQueue dir false bus bus' acked n event_file h q =
    subst IsQueue (ap (λ r. r.0) (ok_inj h)) q

ack_events-IsQueue :
    (dir : Directory) (handle : Bytes) (events : List Event) (bus bus' : Bus) (acked n : ℕ)
    → ack_events dir handle events bus acked ≡ ok (bus', n)
    → IsQueue bus
    → IsQueue bus'
unfolding ack_events
ack_events-IsQueue dir handle [] bus bus' acked n h q = subst IsQueue (ap (λ r. r.0) (ok_inj h)) q
ack_events-IsQueue dir handle (e ∷ events) bus bus' acked n h q =
    let ((next, count), one, others) =
      bind-eq-ok (ack_selected dir (is_selected handle e) bus acked e.filename) _ h in
    ack_events-IsQueue dir handle events next bus' count n others
      (ack_selected-IsQueue dir (is_selected handle e) bus next acked count e.filename one q)

pub bus_ack_all-IsQueue :
    (dir : Directory) (bus bus' : Bus) (handle : Bytes) (n : ℕ)
    → bus_ack_all dir bus handle ≡ ok (bus', n)
    → IsQueue bus
    → IsQueue bus'
unfolding bus_ack_all
bus_ack_all-IsQueue dir bus bus' handle n h q =
    let (events, scanned, acked) = bind-eq-ok (scan_events bus_max_events bus.pending) _ h in
    ack_events-IsQueue dir handle events bus bus' 0 n acked q

prune_loop-kept :
    (max_bytes : ℕ) (entries : List PruneEntry) (files : List EventFile) (total pruned : ℕ)
    → IsFolder files
    → All IsEventFile files
    → IsFolder ((prune_loop max_bytes entries files total pruned).0)
      × All IsEventFile ((prune_loop max_bytes entries files total pruned).0)
unfolding prune_loop
prune_loop-kept max_bytes [] files total pruned folder events = (folder, events)
prune_loop-kept max_bytes (e ∷ entries) files total pruned folder events =
    elim (Bool-cases (ltb max_bytes total)) [
      | inl above ↦ rw above (
          prune_loop-kept max_bytes entries (remove_file e.filename files) (total - e.size)
            (pruned + 1) (IsFolder-remove_file e.filename files folder)
            (All-remove_file IsEventFile e.filename files events))
      | inr below ↦ rw below (folder, events)
    ]

pub bus_prune-IsQueue :
    (qsort : List PruneEntry → List PruneEntry) (bus bus' : Bus) (max_bytes n : ℕ)
    → bus_prune qsort bus max_bytes ≡ ok (bus', n)
    → IsQueue bus
    → IsQueue bus'
unfolding bus_prune
bus_prune-IsQueue qsort bus bus' max_bytes n h q =
    let (positive, h1) = assert-eq-ok (ltb 0 max_bytes) _ h in
    let ((entries, total), scanned, h2) =
      bind-eq-ok (prune_scan bus_max_events 0 bus.processed) _ h1 in
    let left =
      prune_loop-kept max_bytes (qsort entries) bus.processed total 0 q.processed_folder
        q.processed_events in
    elim (Bool-cases (leb total max_bytes)) [
      | inl small ↦ subst IsQueue (ap (λ r. r.0) (ok_inj (rw small at h2))) q
      | inr large ↦ subst IsQueue (ap (λ r. r.0) (ok_inj (rw large at h2))) (record {
        pending_folder = q.pending_folder;
        processed_folder = left.0;
        pending_events = q.pending_events;
        processed_events = left.1;
      })
    ]
