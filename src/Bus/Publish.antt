-- ===== src/Bus/Publish.antt =====
-- Publishing events, of src/nbs-bus/bus.c. The folders exist, the lock of the deduplication is taken and the
-- writes succeed; the clock, its text and the process id are arguments.
pub mod Request
use nbs_framework.Common.{
  ℕ, zero, suc, ◌+◌, ◌-◌, ◌*◌, ◌/◌, ◌%◌, ◌^◌, ◌≤◌, ◌<◌, min, ◌≡◌, refl, sym, ap, ◌∙◌, subst, ◌≢◌,
  ◌↔◌, ◌⊎◌, inl, inr, Bool, true, false, not, ◌&&◌, ◌||◌, Option, none, some, List, [], ◌∷◌, ◌++◌,
  map, append-nil, append_assoc, arith, ltb, leb, ◌==◌, if◌then◌else◌, within, ltb→lt, lt→ltb,
  leb→le, le→leb, ==_iff, Bool-cases, Option-cases, length, get_or, take, drop, length-append,
  length-take, length-drop, take-append-drop, take-length, map-take, map-drop, length-map, All,
  All-append, All-append_left, All-append_right, All-map,
}
use nbs_framework.Common.Outcome.{Outcome, ok, fail, abort, ◌>>=◌, ◌>>◌, assert, require}
use nbs_framework.Common.Text.{
  Bytes, codes, IsByte, Lacks, is_digit, is_alnum, is_space, str_eq, str_eq_iff,
}
use nbs_framework.Bus.{
  Directory, Bus, EventFile, put_file, bus_max_filename, bus_max_handle, bus_max_type,
}
use nbs_framework.Bus.Priority.{bus_priority_to_str}
use nbs_framework.Bus.Name.{
  has_event_suffix, has_slash, parse_event_filename_timestamp, event_filename,
}
use nbs_framework.Bus.Content.{event_text, dedup_key, read_event_dedup_key}

-- What a call finds: the clock's microseconds, the text of the time, the number of the process, and how the folder
-- of the new event is listed afterwards.
pub record Clock : Type 0 where
  pub now_us : ℕ
  pub iso_time : Bytes
  pub pid : ℕ
  pub directory : Directory

unfoldable pub has_whitespace : Bytes → Bool
has_whitespace [] = false
has_whitespace (c ∷ s) = is_space c || has_whitespace s

-- The longest name of a file (NAME_MAX), and whether a folder can have a file of the name.
abbrev pub name_max : ℕ
name_max = 255

abbrev pub is_file_name : Bytes → Bool
is_file_name name = not (has_slash name) && leb (length name) name_max

-- The queue with the new event, and its name. Renaming to a name that no file can have fails.
unfoldable pub bus_publish : Clock → Bus → Bytes → Bytes → ℕ → Bytes → Outcome (Bus × Bytes)
unfolding has_whitespace
bus_publish clock bus source type_name priority payload = do
  assert (ltb 0 (length source))
  assert (ltb 0 (length type_name))
  assert (leb priority 3)
  assert (not (has_whitespace source))
  assert (not (has_whitespace type_name))
  let filename = event_filename clock.now_us source type_name clock.pid
  assert (ltb (length filename) bus_max_filename)
  name ← bus_priority_to_str priority
  require (is_file_name filename) 1
  let file : EventFile = record {
    name = filename;
    content = event_text source type_name name clock.iso_time payload;
  }
  ok (record bus { pending = put_file clock.directory file bus.pending }, filename)

-- Whether a parsed time is in the window; a malformed name is not, and a zero time aborts.
unfoldable pub in_window : ℕ → Outcome ℕ → Outcome Bool
in_window cutoff (ok ts) = ok (leb cutoff ts)
in_window cutoff (fail k) = ok false
in_window cutoff abort = abort

unfoldable pub has_key : Bytes → Option Bytes → Bool
has_key key none = false
has_key key (some existing) = str_eq key existing

abbrev pub key_size : ℕ
key_size = bus_max_handle + bus_max_type + 2

-- Whether an entry of the directory is an event in the window with the key.
unfoldable pub is_duplicate : ℕ → Bytes → EventFile → Outcome Bool
unfolding in_window has_key
is_duplicate cutoff key file =
    let checked = do
      recent ← in_window cutoff (parse_event_filename_timestamp file.name)
      ok (recent && has_key key (read_event_dedup_key file.content key_size))
    in if has_event_suffix file.name then checked else ok false

-- The scan, which ends at the first duplicate.
unfoldable pub find_duplicate : ℕ → Bytes → List EventFile → Outcome Bool
unfolding is_duplicate
find_duplicate cutoff key [] = ok false
find_duplicate cutoff key (file ∷ files) = do
  duplicate ← is_duplicate cutoff key file
  let rest = find_duplicate cutoff key files
  (if duplicate then ok true else rest)

abbrev pub bus_exit_dedup : ℕ
bus_exit_dedup = 5

-- The clock is read once for the window and again by `bus_publish`. The queue and the exit code: 0 where the event was published, 5 where it was dropped.
unfoldable pub bus_publish_dedup :
    ℕ → Clock → Bus → Bytes → Bytes → ℕ → Bytes → ℕ → Outcome (Bus × ℕ)
unfolding find_duplicate
bus_publish_dedup current_us clock bus source type_name priority payload window_us = do
  assert (ltb 0 (length source))
  assert (ltb 0 (length type_name))
  assert (leb priority 3)
  assert (ltb 0 window_us)
  let key = dedup_key source type_name
  assert (ltb (length key) key_size)
  duplicate ← find_duplicate (current_us - window_us) key bus.pending
  let published = do
    (bus', name) ← bus_publish clock bus source type_name priority payload
    ok (bus', 0)
  (if duplicate then ok (bus, bus_exit_dedup) else published)
