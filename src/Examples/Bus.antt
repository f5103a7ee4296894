-- ===== src/Examples/Bus.antt =====
-- A queue of src/nbs-bus/bus.c at concrete inputs.
use nbs_framework.Common.{
  ◌-◌, ◌≤◌, ◌≡◌, refl, ◌⊎◌, some, List, [], ◌∷◌, ◌++◌, map, arith, length, All,
}
use nbs_framework.Common.Outcome.{ok, abort}
use nbs_framework.Common.Text.{Bytes, codes, str_eq}
use nbs_framework.Bus.Config.{bus_load_config}
use nbs_framework.Bus.Config.Range
use nbs_framework.Bus.Config.Range.{IsConfig}
use nbs_framework.Bus.Content.Key
use nbs_framework.Bus.Content.ReadBack
use nbs_framework.Bus.Content.ReadBack.{IsWord}
use nbs_framework.Bus.Dedup
use nbs_framework.Bus.Dedup.{IsRecent}
use nbs_framework.Bus.Drain
use nbs_framework.Bus.Drain.{put_files}
use nbs_framework.Bus.Listing.{bus_check, event_le, is_selected}
use nbs_framework.Bus.Listing.Shown.{shown_line}
use nbs_framework.Bus.Name.Stamp
use nbs_framework.Bus.Prune
use nbs_framework.Bus.Prune.{remove_entries, IsNeeded, IsOlder}
use nbs_framework.Bus.Publish.Request
use nbs_framework.Bus.Publish.{bus_publish_dedup, bus_exit_dedup}
use nbs_framework.Bus.Queue.{IsQueue}
use nbs_framework.Bus.Scan.{scan_events_dynamic}
use nbs_framework.Bus.Sizes.{entry_of, folder_size}
use nbs_framework.Bus.Upkeep.{PruneEntry, prune_le, bus_ack, bus_ack_all, bus_prune, move_file}
use nbs_framework.Bus.Zero
use nbs_framework.Bus.{Directory, remove_file}
use nbs_framework.Common.Sorting.{IsPermuted, IsOrdered, keep, IsPermuted-refl}
use nbs_framework.Examples.Sort.{insertion_sort, events-IsQsort, entries-IsQsort}
use nbs_framework.Common.Decimal.{show_nat, long_max}
use nbs_framework.Bus.{Bus, EventFile, Event, find_file, put_file}
use nbs_framework.Bus.Content.{event_text, read_event_fields, read_event_dedup_key, dedup_key}
use nbs_framework.Bus.Priority.{bus_priority_to_str}
use nbs_framework.Bus.Name.{
  event_filename, has_slash, has_event_suffix, validate_event_filename, starts_with_dots,
}
use nbs_framework.Bus.Publish.{Clock, bus_publish, has_whitespace}
use nbs_framework.Bus.Publish.Request.{IsName, IsRequest}
use nbs_framework.Bus.Reach.{IsBefore, IsReachable, IsReachable-IsQueue, IsReachable-bus_check}
use nbs_framework.Bus.Reach

abbrev hub : Bytes
hub = codes "hub"

abbrev ping : Bytes
ping = codes "ping"

-- A file system that lists a new file behind the others.
abbrev behind : Directory
behind = record { listed = λ fs. fs; same_files = IsPermuted-refl }

abbrev clock : Clock
clock = record {
  now_us = 1700000000000000;
  iso_time = codes "2023-11-14T22:13:20Z";
  pid = 77;
  directory = behind;
}

abbrev empty_bus : Bus
empty_bus = record { pending = []; processed = [] }

abbrev ping_name : Bytes
ping_name = event_filename 1700000000000000 hub ping 77

abbrev ping_file : EventFile
ping_file = record {
  name = ping_name;
  content = event_text hub ping (codes "high") (codes "2023-11-14T22:13:20Z") (codes "hello");
}

abbrev one_event : Bus
one_event = record { pending = ping_file ∷ []; processed = [] }

abbrev one_processed : Bus
one_processed = record { pending = []; processed = ping_file ∷ [] }

hub-IsName : IsName hub
hub-IsName = record {
  not_empty = omega arith;
  short = omega arith;
  one_word = unfold has_whitespace in refl;
  no_slash = unfold has_slash in refl;
}

ping-IsName : IsName ping
ping-IsName = record {
  not_empty = omega arith;
  short = omega arith;
  one_word = unfold has_whitespace in refl;
  no_slash = unfold has_slash in refl;
}

ping-IsRequest : IsRequest clock hub ping 1
ping-IsRequest = record {
  source_name = hub-IsName;
  type_name_name = ping-IsName;
  fits = omega arith;
  known = omega arith;
  started = omega arith;
  in_time = omega arith;
  small_pid = omega arith;
  iso_line = ground arith;
  iso_short = omega arith;
}

published_one : bus_publish clock empty_bus hub ping 1 (codes "hello") ≡ ok (one_event, ping_name)
unfolding bus_publish event_filename event_text put_file show_nat bus_priority_to_str has_slash
published_one = refl

one_event-IsReachable : IsReachable one_event
one_event-IsReachable =
    Reach.next Reach.start
      (Reach.published clock hub ping 1 (codes "hello") ping_name ping-IsRequest published_one)

acked_one : bus_ack behind one_event ping_name ≡ ok one_processed
unfolding bus_ack move_file find_file remove_file put_file event_filename show_nat
    validate_event_filename starts_with_dots has_event_suffix has_slash str_eq
acked_one = refl

one_processed-IsReachable : IsReachable one_processed
one_processed-IsReachable =
    Reach.next one_event-IsReachable (Reach.acked behind ping_name acked_one)

IsReachable-IsQueue_example : IsQueue one_event
IsReachable-IsQueue_example = Reach.IsReachable-IsQueue one_event-IsReachable

IsReachable-bus_check_example :
    (events : List Event) × (shown : List Event) × (scan_events_dynamic one_event.pending
      ≡ ok events)
    × (map (λ e. e.filename) events ≡ map (λ f. f.name) one_event.pending)
    × IsPermuted shown (keep (is_selected hub) events)
    × IsOrdered IsBefore shown
    × (bus_check (insertion_sort event_le) 1700000060000000 one_event hub
        ≡ ok (map (shown_line 1700000060000000) shown))
IsReachable-bus_check_example =
    Reach.IsReachable-bus_check (insertion_sort event_le) 1700000060000000 one_event hub
      events-IsQsort (omega arith) one_event-IsReachable

IsReachable-bus_ack_all_example :
    bus_ack_all behind one_event []
    ≡ ok (
      record { pending = []; processed = put_files behind one_event.pending one_event.processed },
      length one_event.pending,
    )
IsReachable-bus_ack_all_example =
    Drain.IsReachable-bus_ack_all behind one_event one_event-IsReachable (omega arith)

small_size : folder_size one_processed.processed ≤ long_max
unfolding event_text
small_size = omega arith

IsReachable-bus_prune_example :
    (gone : List PruneEntry) × (left : List PruneEntry) × IsPermuted
      (gone ++ left)
      (map entry_of one_processed.processed)
    × IsOrdered IsOlder (gone ++ left)
    × (bus_prune (insertion_sort prune_le) one_processed 10
        ≡ ok (
          record one_processed { processed = remove_entries gone one_processed.processed },
          length gone,
        ))
    × (folder_size (remove_entries gone one_processed.processed) ≤ 10)
    × IsNeeded 10 gone left
IsReachable-bus_prune_example =
    Prune.IsReachable-bus_prune (insertion_sort prune_le) one_processed 10 entries-IsQsort
      (omega arith) one_processed-IsReachable (omega arith) small_size

bus_publish-scan_example :
    (bus' : Bus) × (events' : List Event) × (bus_publish clock empty_bus hub ping 1 (codes "hello")
      ≡ ok (bus', ping_name))
    × (scan_events_dynamic bus'.pending ≡ ok events')
    × IsPermuted events' (
        []
        ++ record {
          filename = ping_name;
          source = hub;
          type_name = ping;
          priority = 1;
          timestamp_us = 1700000000000000;
        }
          ∷ [])
    × (bus'.processed ≡ [])
bus_publish-scan_example =
    Request.bus_publish-scan clock hub ping 1 empty_bus (codes "hello") [] ping-IsRequest
      (unfold find_file in refl) (unfold scan_events_dynamic in refl)

IsReachable-bus_publish_dedup_example :
    ((before : List EventFile) × (file : EventFile) × (after : List EventFile) × (one_event.pending
        ≡ before ++ file ∷ after)
      × IsRecent (1700000000000100 - 5000000) (dedup_key hub ping) file
      × (bus_publish_dedup 1700000000000100 clock one_event hub ping 1 [] 5000000
          ≡ ok (one_event, bus_exit_dedup)))
    ⊎ ((bus' : Bus) × (name : Bytes) × All
          (λ f. ¬ IsRecent (1700000000000100 - 5000000) (dedup_key hub ping) f)
          one_event.pending
        × (bus_publish clock one_event hub ping 1 [] ≡ ok (bus', name))
        × (bus_publish_dedup 1700000000000100 clock one_event hub ping 1 [] 5000000 ≡ ok (bus', 0)))
IsReachable-bus_publish_dedup_example =
    Dedup.IsReachable-bus_publish_dedup 1700000000000100 clock hub ping 1 [] 5000000 one_event
      ping-IsRequest (omega arith) one_event-IsReachable

bus_publish_dedup-bus_publish_example :
    bus_publish_dedup 1700000000000100 clock one_event hub ping 1 [] 5000000
    ≡ ok (one_event, bus_exit_dedup)
bus_publish_dedup-bus_publish_example =
    Dedup.bus_publish_dedup-bus_publish 1700000000000100 clock clock hub ping 1 1 (codes "hello") []
      5000000 empty_bus one_event ping_name ping-IsRequest ping-IsRequest (omega arith)
      (omega arith) Reach.start published_one

hub-IsWord : IsWord hub
hub-IsWord = record { one_line = ground arith; not_empty = omega arith; short = omega arith }

ping-IsWord : IsWord ping
ping-IsWord = record { one_line = ground arith; not_empty = omega arith; short = omega arith }

high-IsWord : IsWord (codes "high")
high-IsWord = record { one_line = ground arith; not_empty = omega arith; short = omega arith }

read_event_fields-event_text_example :
    read_event_fields (event_text hub ping (codes "high") (codes "now") (codes "source: fake"))
    ≡ ok (1, hub, ping)
read_event_fields-event_text_example =
    ReadBack.read_event_fields-event_text hub ping (codes "high") (codes "now")
      (codes "source: fake") 1 hub-IsWord ping-IsWord (omega arith)
      (unfold bus_priority_to_str in refl)

read_event_dedup_key-event_text_example :
    read_event_dedup_key
      (event_text hub ping (codes "high") (codes "now") (codes "dedup-key: fake"))
      258
    ≡ some (dedup_key hub ping)
read_event_dedup_key-event_text_example =
    Key.read_event_dedup_key-event_text hub ping (codes "high") (codes "now")
      (codes "dedup-key: fake") 258 hub-IsWord ping-IsWord high-IsWord (ground arith) (omega arith)
      (unfold dedup_key in omega arith)

validate_event_filename-event_filename_example :
    validate_event_filename (event_filename 17 hub ping 77) ≡ ok tt
validate_event_filename-event_filename_example =
    Stamp.validate_event_filename-event_filename 17 hub ping 77
      (unfold has_slash event_filename show_nat in refl)
      (unfold event_filename show_nat in omega arith)

bus_load_config-IsConfig_example :
    IsConfig (bus_load_config (some (codes "dedup-window: 99999999999999999999")))
bus_load_config-IsConfig_example =
    Range.bus_load_config-IsConfig (some (codes "dedup-window: 99999999999999999999"))

bus_check_zero_example :
    bus_check
      (insertion_sort event_le)
      5
      (record {
        pending =
            (ping_file ∷ [])
            ++ record { name = b'0' ∷ b'-' ∷ codes "a-b-1.event"; content = [] } ∷ [];
        processed = [];
      })
      []
    ≡ abort
bus_check_zero_example =
    Zero.bus_check_zero (insertion_sort event_le) 5 (ping_file ∷ []) [] [] (codes "a-b-1.event") []
      [] (unfold has_event_suffix str_eq in refl)
