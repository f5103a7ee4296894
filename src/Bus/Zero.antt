-- ===== src/Bus/Zero.antt =====
-- What a file with a zero time in its name does to the listing of src/nbs-bus/bus.c.
use nbs_framework.Common.{
  ℕ, suc, ◌≡◌, refl, ◌⊎◌, inl, inr, true, Option, none, some, List, [], ◌∷◌, ◌++◌, arith, lt→ltb,
  Bool-cases, length,
}
use nbs_framework.Common.Outcome.{Outcome, ok, fail, abort}
use nbs_framework.Common.Text.{Bytes}
use nbs_framework.Common.Decimal.{strtol}
use nbs_framework.ChatFile.Participants.{before_stop, from_stop}
use nbs_framework.Bus.{EventFile, Event}
use nbs_framework.Bus.Listing.{bus_check}
use nbs_framework.Bus.Name.{
  is_dash, all_digits, parse_event_filename_timestamp, has_event_suffix, positive_value,
}
use nbs_framework.Bus.Scan.{or_skip, event_of, scan_entry, scan_events_dynamic}

parse_event_filename_timestamp_zero :
    (rest : Bytes) → parse_event_filename_timestamp (b'0' ∷ b'-' ∷ rest) ≡ abort
unfolding parse_event_filename_timestamp positive_value before_stop from_stop is_dash all_digits
    strtol
parse_event_filename_timestamp_zero rest = rw (lt→ltb 0 (suc (length rest)) (omega arith)) refl

scan_entry_zero :
    (rest content : Bytes)
    → has_event_suffix (b'0' ∷ b'-' ∷ rest) ≡ true
    → scan_entry (record { name = b'0' ∷ b'-' ∷ rest; content = content }) ≡ abort
unfolding scan_entry or_skip event_of
scan_entry_zero rest content suffixed =
    rw suffixed (rw (parse_event_filename_timestamp_zero rest) refl)

scan_entry-cases :
    (file : EventFile) → ((e : Option Event) × (scan_entry file ≡ ok e)) ⊎ (scan_entry file ≡ abort)
unfolding scan_entry
scan_entry-cases file = elim (Bool-cases (has_event_suffix file.name)) [
  | inl suffixed ↦ rw suffixed (skipped (event_of file))
  | inr other ↦ rw other (inl (none, refl))
]
  where
    skipped : (o : Outcome Event) → ((e : Option Event) × (or_skip o ≡ ok e)) ⊎ (or_skip o ≡ abort)
    skipped (ok e) = inl (some e, unfold or_skip in refl)
    skipped (fail k) = inl (none, unfold or_skip in refl)
    skipped abort = inr (unfold or_skip in refl)

scan_events_dynamic_zero :
    (before after : List EventFile) (rest content : Bytes)
    → has_event_suffix (b'0' ∷ b'-' ∷ rest) ≡ true
    → scan_events_dynamic
        (before ++ record { name = b'0' ∷ b'-' ∷ rest; content = content } ∷ after)
      ≡ abort
unfolding scan_events_dynamic
scan_events_dynamic_zero [] after rest content suffixed =
    rw (scan_entry_zero rest content suffixed) refl
scan_events_dynamic_zero (f ∷ before) after rest content suffixed = elim (scan_entry-cases f) [
  | inl (e, read) ↦ rw read (rw (scan_events_dynamic_zero before after rest content suffixed) refl)
  | inr aborted ↦ rw aborted refl
]

-- One pending file whose name begins with "0-" and ends in ".event" makes `bus_check` abort the process, whatever else
-- the folder holds, the content of the file, the order of the directory, the filter and the clock.
pub bus_check_zero :
    (qsort : List Event → List Event) (current_us : ℕ) (before after processed : List EventFile)
    (rest content handle : Bytes)
    → has_event_suffix (b'0' ∷ b'-' ∷ rest) ≡ true
    → bus_check qsort current_us
        (record {
          pending = before ++ record { name = b'0' ∷ b'-' ∷ rest; content = content } ∷ after;
          processed = processed;
        })
        handle
      ≡ abort
unfolding bus_check
bus_check_zero qsort current_us before after processed rest content handle suffixed =
    rw (scan_events_dynamic_zero before after rest content suffixed) refl
