-- ===== src/Bus/Publish/Request.antt =====
-- What publishing a legal event leaves in the queue.
use nbs_framework.Common.{
  ℕ, ◌+◌, ◌≤◌, ◌<◌, ◌≡◌, refl, sym, subst, ◌≢◌, false, none, some, List, [], ◌∷◌, ◌++◌, arith,
  lt→ltb, le→leb, length, length-append,
}
use nbs_framework.Common.Sorting.{IsPermuted}
use nbs_framework.Common.Outcome.{ok}
use nbs_framework.Common.Text.{Bytes, Lacks}
use nbs_framework.Common.Decimal.{long_max, show_nat}
use nbs_framework.Common.Decimal.RoundTrip.{All-show_nat}
use nbs_framework.Common.Decimal.Size.{show_nat-le}
use nbs_framework.ChatFile.Number.{int_max}
use nbs_framework.Bus.{Bus, EventFile, Event, find_file, put_file, bus_max_filename}
use nbs_framework.Bus.Files.{put_file-new}
use nbs_framework.Bus.Name.{has_slash, event_suffix, event_filename}
use nbs_framework.Bus.Name.Stamp.{
  parse_event_filename_timestamp-event_filename, event_filename-has_event_suffix,
}
use nbs_framework.Bus.Content.{event_text, dedup_key, read_event_dedup_key}
use nbs_framework.Bus.Content.ReadBack.{
  IsWord, bus_priority_from_str-bus_priority_to_str, read_event_fields-event_text,
}
use nbs_framework.Bus.Content.Key.{read_event_dedup_key-event_text}
use nbs_framework.Bus.Publish.{Clock, name_max, bus_publish, has_whitespace, key_size}
use nbs_framework.Bus.Scan.Order.{scan_events_dynamic-append, scan_events_dynamic-IsPermuted}
use nbs_framework.Bus.Scan.{or_skip, event_of, scan_entry, scan_events_dynamic}

-- A word of a request: neither empty nor long, with no whitespace and no slash.
pub record IsName (w : Bytes) : Type 0 where
  pub not_empty : 0 < length w
  pub short : length w < 128
  pub one_word : has_whitespace w ≡ false
  pub no_slash : has_slash w ≡ false

-- A legal publication: two words that fit a file name together, a known priority, a clock that has started and
-- fits 64 bits, and a time text on one short line.
pub record IsRequest (clock : Clock) (source type_name : Bytes) (priority : ℕ) : Type 0 where
  pub source_name : IsName source
  pub type_name_name : IsName type_name
  pub fits : length source + length type_name ≤ 217
  pub known : priority ≤ 3
  pub started : 0 < clock.now_us
  pub in_time : clock.now_us ≤ long_max
  pub small_pid : clock.pid ≤ int_max
  pub iso_line : Lacks b'\n' clock.iso_time
  pub iso_short : length clock.iso_time < 128

one_word-Lacks : (w : Bytes) → has_whitespace w ≡ false → Lacks b'\n' w
unfolding has_whitespace
one_word-Lacks [] h = tt
one_word-Lacks (c ∷ w) h = (ground arith, one_word-Lacks w (ground arith))

IsName-IsWord : (w : Bytes) → IsName w → IsWord w
IsName-IsWord w n = record {
  one_line = one_word-Lacks w n.one_word;
  not_empty = n.not_empty;
  short = n.short;
}

has_slash-append :
    (a b : Bytes) → has_slash a ≡ false → has_slash b ≡ false → has_slash (a ++ b) ≡ false
unfolding has_slash
has_slash-append [] b ha hb = hb
has_slash-append (c ∷ a) b ha hb = ground (arith, has_slash-append a b)

Lacks-has_slash : (a : Bytes) → Lacks b'/' a → has_slash a ≡ false
unfolding has_slash
Lacks-has_slash [] h = refl
Lacks-has_slash (c ∷ a) h = ground (arith, Lacks-has_slash a)

has_slash-show_nat : (n : ℕ) → has_slash (show_nat n) ≡ false
has_slash-show_nat n = Lacks-has_slash (show_nat n) (All-show_nat (λ c. c ≢ b'/') n (λ c d e. cc))

has_slash-dash : (a : Bytes) → has_slash a ≡ false → has_slash (b'-' ∷ a) ≡ false
unfolding has_slash
has_slash-dash a h = h

module _ (clock : Clock) (source type_name : Bytes) (priority : ℕ)
    (v : IsRequest clock source type_name priority) where
  abbrev pub filename : Bytes
  filename = event_filename clock.now_us source type_name clock.pid

  pub has_slash-filename : has_slash filename ≡ false
  unfolding event_filename
  has_slash-filename =
      has_slash-append (show_nat clock.now_us) _ (has_slash-show_nat clock.now_us) (
        has_slash-dash _ (
          has_slash-append source _ v.source_name.no_slash (
            has_slash-dash _ (
              has_slash-append type_name _ v.type_name_name.no_slash (
                has_slash-dash _ (
                  has_slash-append (show_nat clock.pid) event_suffix (has_slash-show_nat clock.pid)
                    (unfold has_slash in refl)))))))

  pub length-filename : length filename ≤ name_max
  unfolding event_filename
  length-filename =
      let tail = show_nat clock.pid ++ event_suffix in
      omega (
        arith,
        v.fits,
        show_nat-le clock.now_us 19,
        show_nat-le clock.pid 10,
        v.in_time,
        v.small_pid,
        length-append (show_nat clock.now_us)
            (b'-' ∷ (source ++ (b'-' ∷ (type_name ++ (b'-' ∷ tail))))),
        length-append source (b'-' ∷ (type_name ++ (b'-' ∷ tail))),
        length-append type_name (b'-' ∷ tail),
        length-append (show_nat clock.pid) event_suffix,
      )

  abbrev pub event : Event
  event = record {
    filename = filename;
    source = source;
    type_name = type_name;
    priority = priority;
    timestamp_us = clock.now_us;
  }

  -- The file of the event: it is read as that event, with that key.
  pub record IsPublished (file : EventFile) : Type 0 where
    pub named : file.name ≡ filename
    pub read : scan_entry file ≡ ok (some event)
    pub keyed : read_event_dedup_key file.content key_size ≡ some (dedup_key source type_name)

  pub bus_publish_lem :
      (bus : Bus) (payload : Bytes)
      → (file : EventFile) × (bus_publish clock bus source type_name priority payload
          ≡ ok (record bus { pending = put_file clock.directory file bus.pending }, filename))
        × IsPublished file
  bus_publish_lem bus payload =
      let ws = IsName-IsWord source v.source_name in
      let wt = IsName-IsWord type_name v.type_name_name in
      let (name, printed, parsed, wn) =
        bus_priority_from_str-bus_priority_to_str priority v.known in
      let content = event_text source type_name name clock.iso_time payload in
      let file : EventFile = record { name = filename; content = content } in
      let fields =
        read_event_fields-event_text source type_name name clock.iso_time payload priority ws wt
          v.known printed in
      let stamp =
        parse_event_filename_timestamp-event_filename clock.now_us source type_name clock.pid
          v.started v.in_time in
      let small = length-filename in
      let size = lt→ltb (length filename) bus_max_filename (omega arith) in
      let key_fits : length (dedup_key source type_name) < key_size =
        unfold dedup_key in
        omega (
          arith,
          v.source_name.short,
          v.type_name_name.short,
          length-append source (b':' ∷ type_name),
        ) in
      (
        file,
        unfold bus_publish in
            rw (lt→ltb 0 (length source) v.source_name.not_empty) (
              rw (lt→ltb 0 (length type_name) v.type_name_name.not_empty) (
                rw (le→leb priority 3 v.known) (
                  rw v.source_name.one_word (
                    rw v.type_name_name.one_word (
                      rw size (
                        rw printed (
                          rw has_slash-filename
                            (rw (le→leb (length filename) name_max small) refl)))))))),
        record {
          named = refl;
          read =
              unfold scan_entry event_of or_skip in
              rw (event_filename-has_event_suffix clock.now_us source type_name clock.pid)
                (rw stamp (rw fields (rw size refl)));
          keyed =
              read_event_dedup_key-event_text source type_name name clock.iso_time payload key_size
                ws wt wn v.iso_line v.iso_short key_fits;
        },
      )

-- Publishing a legal event under a name that is new in a queue that can be listed succeeds, and the
-- listing then has, in the order that the file system chooses, the events of before and the new one
-- with the fields of the request, each once.
pub bus_publish-scan :
    (clock : Clock) (source type_name : Bytes) (priority : ℕ) (bus : Bus) (payload : Bytes)
    (events : List Event) (v : IsRequest clock source type_name priority)
    → find_file (event_filename clock.now_us source type_name clock.pid) bus.pending ≡ none
    → scan_events_dynamic bus.pending ≡ ok events
    → (bus' : Bus) × (events' : List Event) × (bus_publish clock bus source type_name priority
          payload
        ≡ ok (bus', event_filename clock.now_us source type_name clock.pid))
      × (scan_events_dynamic bus'.pending ≡ ok events')
      × IsPermuted events' (
          events
          ++ record {
            filename = event_filename clock.now_us source type_name clock.pid;
            source = source;
            type_name = type_name;
            priority = priority;
            timestamp_us = clock.now_us;
          }
            ∷ [])
      × (bus'.processed ≡ bus.processed)
bus_publish-scan clock source type_name priority bus payload events v new scanned =
    let (file, published, p) = bus_publish_lem clock source type_name priority v bus payload in
    let e = event clock source type_name priority v in
    let behind = scan_events_dynamic-append bus.pending file events e scanned p.read in
    let in_order : IsPermuted (bus.pending ++ file ∷ [])
        (put_file clock.directory file bus.pending) =
      put_file-new clock.directory file bus.pending
        (subst (λ n. find_file n bus.pending ≡ none) (sym p.named) new) in
    let (events', listed, same) = scan_events_dynamic-IsPermuted _ in_order behind in
    (
      record bus { pending = put_file clock.directory file bus.pending },
      events',
      published,
      listed,
      same,
      refl,
    )
