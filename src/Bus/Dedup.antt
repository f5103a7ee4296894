-- ===== src/Bus/Dedup.antt =====
-- When src/nbs-bus/bus.c drops a publication as a duplicate.
use nbs_framework.Common.{
  ℕ, ◌+◌, ◌-◌, ◌≤◌, ◌<◌, ◌≡◌, refl, sym, ap, ◌∙◌, subst, ◌≢◌, ◌⊎◌, inl, inr, Bool, true, false,
  ◌&&◌, Option, none, some, List, [], ◌∷◌, ◌++◌, arith, leb, if◌then◌else◌, lt→ltb, leb→le, le→leb,
  Bool-cases, length, length-append, All, All-append, All-append_right,
}
use nbs_framework.Common.Outcome.{Outcome, ok, ◌>>=◌, ok_inj}
use nbs_framework.Common.Text.{Bytes, str_eq, str_eq_iff}
use nbs_framework.Bus.{Bus, EventFile, remove_file, put_file}
use nbs_framework.Bus.Content.{dedup_key, read_event_dedup_key}
use nbs_framework.Bus.Name.{parse_event_filename_timestamp, has_event_suffix}
use nbs_framework.Bus.Name.Stamp.{
  parse_event_filename_timestamp-event_filename, event_filename-has_event_suffix,
}
use nbs_framework.Bus.Publish.{
  Clock, bus_publish, bus_publish_dedup, bus_exit_dedup, find_duplicate, is_duplicate, in_window,
  has_key, key_size,
}
use nbs_framework.Bus.Publish.Request.{IsRequest, bus_publish_lem}
use nbs_framework.Bus.Queue.{IsPublished-IsEventFile, IsEventFile}
use nbs_framework.Bus.Reach.{IsReachable, IsReachable-IsQueue}
use nbs_framework.Bus.Files.{All-remove_file}
use nbs_framework.Common.Sorting.{IsPermuted, IsPermuted-sym, All-permuted}

-- An event at or after the cutoff with the key.
pub record IsRecent (cutoff : ℕ) (key : Bytes) (file : EventFile) : Type 0 where
  pub time : ℕ
  pub stamped : parse_event_filename_timestamp file.name ≡ ok time
  pub recent : cutoff ≤ time
  pub keyed : read_event_dedup_key file.content key_size ≡ some key

has_key-cases :
    (key : Bytes) (o : Option Bytes)
    → ((has_key key o ≡ true) × (o ≡ some key)) ⊎ ((has_key key o ≡ false) × (o ≢ some key))
unfolding has_key
has_key-cases key none = inr (refl, λ e. cc)
has_key-cases key (some existing) = elim (Bool-cases (str_eq key existing)) [
  | inl same ↦ inl (same, ap some (sym ((str_eq_iff key existing).0 same)))
  | inr differ ↦ inr (
    differ,
    λ e.
        let same : existing ≡ key = cc in
        let equal : str_eq key existing ≡ true = (str_eq_iff key existing).1 (sym same) in cc,
  )
]

is_duplicate-stamped :
    (cutoff : ℕ) (key : Bytes) (file : EventFile) (time : ℕ)
    → has_event_suffix file.name ≡ true
    → parse_event_filename_timestamp file.name ≡ ok time
    → is_duplicate cutoff key file
      ≡ ok (leb cutoff time && has_key key (read_event_dedup_key file.content key_size))
unfolding is_duplicate in_window
is_duplicate-stamped cutoff key file time suffixed stamped = rw suffixed (rw stamped refl)

is_duplicate-cases :
    (cutoff : ℕ) (key : Bytes) (file : EventFile)
    → IsEventFile file
    → (IsRecent cutoff key file × (is_duplicate cutoff key file ≡ ok true))
      ⊎ (¬ IsRecent cutoff key file × (is_duplicate cutoff key file ≡ ok false))
is_duplicate-cases cutoff key file e =
    let computed = is_duplicate-stamped cutoff key file e.event.timestamp_us e.suffixed e.stamped in
    elim (Bool-cases (leb cutoff e.event.timestamp_us)) [
      | inl recent ↦ elim (has_key-cases key (read_event_dedup_key file.content key_size)) [
        | inl (same, keyed) ↦ inl (
          record {
            time = e.event.timestamp_us;
            stamped = e.stamped;
            recent = leb→le _ _ recent;
            keyed = keyed;
          },
          computed ∙ rw recent (rw same refl),
        )
        | inr (differ, other) ↦ inr (λ r. other r.keyed, computed ∙ rw recent (rw differ refl))
      ]
      | inr old ↦ inr (
        λ r.
            (let same_time : r.time ≡ e.event.timestamp_us = ok_inj (sym r.stamped ∙ e.stamped) in
              let late : leb cutoff e.event.timestamp_us ≡ true =
                le→leb _ _ (rw same_time at r.recent) in
              cc),
        computed ∙ rw old refl,
      )
    ]

-- What the scan for a duplicate finds in a folder of event files.
pub find_duplicate-cases :
    (cutoff : ℕ) (key : Bytes) (files : List EventFile)
    → All IsEventFile files
    → ((before : List EventFile) × (file : EventFile) × (after : List EventFile) × (files
          ≡ before ++ file ∷ after)
        × IsRecent cutoff key file
        × (find_duplicate cutoff key files ≡ ok true))
      ⊎ (All (λ f. ¬ IsRecent cutoff key f) files × (find_duplicate cutoff key files ≡ ok false))
unfolding find_duplicate
find_duplicate-cases cutoff key [] h = inr (tt, refl)
find_duplicate-cases cutoff key (f ∷ files) (e, h) = elim (is_duplicate-cases cutoff key f e) [
  | inl (recent, found) ↦ inl ([], f, files, refl, recent, rw found refl)
  | inr (old, passed) ↦ elim (find_duplicate-cases cutoff key files h) [
    | inl (before, file, after, split, recent, found) ↦
        inl (f ∷ before, file, after, ap (◌∷◌ f) split, recent, rw passed found)
    | inr (others, none_found) ↦ inr ((old, others), rw passed none_found)
  ]
]

dedup_key-short :
    (clock : Clock) (source type_name : Bytes) (priority : ℕ)
    → IsRequest clock source type_name priority
    → length (dedup_key source type_name) < key_size
unfolding dedup_key
dedup_key-short clock source type_name priority v =
    omega
      (arith, v.source_name.short, v.type_name_name.short, length-append source (b':' ∷ type_name))

-- The asserts of a legal request hold.
bus_publish_dedup_legal :
    (current_us : ℕ) (clock : Clock) (source type_name : Bytes) (priority : ℕ) (payload : Bytes)
    (window_us : ℕ) (bus : Bus) (duplicate : Bool)
    → IsRequest clock source type_name priority
    → 0 < window_us
    → find_duplicate (current_us - window_us) (dedup_key source type_name) bus.pending
      ≡ ok duplicate
    → bus_publish_dedup current_us clock bus source type_name priority payload window_us
      ≡ if◌then◌else◌ {A = Outcome (Bus × ℕ)} duplicate
          (ok (bus, bus_exit_dedup))
          (bus_publish clock bus source type_name priority payload >>= λ r. ok (r.0, 0))
unfolding bus_publish_dedup
bus_publish_dedup_legal current_us clock source type_name priority payload window_us bus duplicate v
      some_time found =
    rw (lt→ltb 0 (length source) v.source_name.not_empty) (
      rw (lt→ltb 0 (length type_name) v.type_name_name.not_empty) (
        rw (le→leb priority 3 v.known) (
          rw (lt→ltb 0 window_us some_time) (
            rw
              (lt→ltb (length (dedup_key source type_name)) key_size
                (dedup_key-short clock source type_name priority v))
              (rw found refl)))))

-- On every queue that the commands lead to, a legal publication with deduplication in a positive
-- window returns: either a pending event in the window has the key, and the queue is left as it is,
-- with code 5; or none has, and it is published, with code 0.
pub IsReachable-bus_publish_dedup :
    (current_us : ℕ) (clock : Clock) (source type_name : Bytes) (priority : ℕ) (payload : Bytes)
    (window_us : ℕ) (bus : Bus)
    → IsRequest clock source type_name priority
    → 0 < window_us
    → IsReachable bus
    → ((before : List EventFile) × (file : EventFile) × (after : List EventFile) × (bus.pending
          ≡ before ++ file ∷ after)
        × IsRecent (current_us - window_us) (dedup_key source type_name) file
        × (bus_publish_dedup current_us clock bus source type_name priority payload window_us
            ≡ ok (bus, bus_exit_dedup)))
      ⊎ ((bus' : Bus) × (name : Bytes) × All
            (λ f. ¬ IsRecent (current_us - window_us) (dedup_key source type_name) f)
            bus.pending
          × (bus_publish clock bus source type_name priority payload ≡ ok (bus', name))
          × (bus_publish_dedup current_us clock bus source type_name priority payload window_us
              ≡ ok (bus', 0)))
IsReachable-bus_publish_dedup current_us clock source type_name priority payload window_us bus v
      some_time r =
    let q = IsReachable-IsQueue r in
    elim (find_duplicate-cases (current_us - window_us) (dedup_key source type_name) bus.pending
      q.pending_events) [
        | inl (before, file, after, split, recent, found) ↦ inl (
          before,
          file,
          after,
          split,
          recent,
          bus_publish_dedup_legal current_us clock source type_name priority payload window_us bus
              true v some_time found,
        )
        | inr (others, none_found) ↦
            let (file, published, p) =
              bus_publish_lem clock source type_name priority v bus payload in
            inr (
              record bus { pending = put_file clock.directory file bus.pending },
              _,
              others,
              published,
              bus_publish_dedup_legal current_us clock source type_name priority payload window_us
                    bus false v some_time none_found
                  ∙ rw published refl,
            )
      ]

-- A folder that a duplicate was put into has one, wherever it stands.
find_duplicate-put :
    (cutoff : ℕ) (key : Bytes) (l files : List EventFile) (file : EventFile)
    → IsPermuted l (files ++ file ∷ [])
    → All IsEventFile files
    → IsEventFile file
    → is_duplicate cutoff key file ≡ ok true
    → find_duplicate cutoff key l ≡ ok true
find_duplicate-put cutoff key l files file p h e found =
    let every = All-append IsEventFile files (file ∷ []) h (e, tt) in
    elim (find_duplicate-cases cutoff key l (All-permuted IsEventFile (IsPermuted-sym p) every)) [
      | inl (before, dup, after, split, recent, here) ↦ here
      | inr (others, none_found) ↦
          let not_recent : All (λ f. ¬ IsRecent cutoff key f) (files ++ file ∷ []) =
            All-permuted (λ f. ¬ IsRecent cutoff key f) p others in
          elim (is_duplicate-cases cutoff key file e) [
            | inl (recent, here) ↦ absurd (
                (All-append_right (λ f. ¬ IsRecent cutoff key f) files (file ∷ []) not_recent).0
                  recent)
            | inr (old, passed) ↦ absurd cc
          ]
    ]

-- After a legal publication on a queue that the commands lead to, a legal one with the same source
-- and type, whatever its priority and payload, is dropped while the clock is at most the window,
-- which is positive, ahead, and leaves the queue as it is.
pub bus_publish_dedup-bus_publish :
    (current_us : ℕ) (clock later : Clock) (source type_name : Bytes) (priority priority' : ℕ)
    (payload payload' : Bytes) (window_us : ℕ) (bus bus' : Bus) (name : Bytes)
    → IsRequest clock source type_name priority
    → IsRequest later source type_name priority'
    → 0 < window_us
    → current_us ≤ clock.now_us + window_us
    → IsReachable bus
    → bus_publish clock bus source type_name priority payload ≡ ok (bus', name)
    → bus_publish_dedup current_us later bus' source type_name priority' payload' window_us
      ≡ ok (bus', bus_exit_dedup)
bus_publish_dedup-bus_publish current_us clock later source type_name priority priority' payload
      payload' window_us bus bus' name v w some_time soon r returned =
    let q = IsReachable-IsQueue r in
    let (file, published, p) = bus_publish_lem clock source type_name priority v bus payload in
    let cutoff = current_us - window_us in
    let key = dedup_key source type_name in
    let same : record bus { pending = put_file clock.directory file bus.pending } ≡ bus' =
      ap (λ r. r.0) (ok_inj (sym published ∙ returned)) in
    let in_time : leb cutoff clock.now_us ≡ true = le→leb cutoff clock.now_us (omega arith) in
    let own_key : has_key key (some key) ≡ true = unfold has_key in (str_eq_iff key key).1 refl in
    let found : is_duplicate cutoff key file ≡ ok true =
      is_duplicate-stamped cutoff key file clock.now_us
        (rw p.named (event_filename-has_event_suffix clock.now_us source type_name clock.pid))
        (rw p.named (
          parse_event_filename_timestamp-event_filename clock.now_us source type_name clock.pid
            v.started v.in_time))
      ∙ rw in_time (rw p.keyed (rw own_key refl)) in
    let dropped : find_duplicate cutoff key bus'.pending ≡ ok true =
      subst (λ b. find_duplicate cutoff key b.pending ≡ ok true) same
        (unfold put_file in
          find_duplicate-put cutoff key _ (remove_file file.name bus.pending) file
            (clock.directory.same_files (remove_file file.name bus.pending ++ file ∷ []))
            (All-remove_file IsEventFile file.name bus.pending q.pending_events)
            (IsPublished-IsEventFile clock source type_name priority v file p) found) in
    bus_publish_dedup_legal current_us later source type_name priority' payload' window_us bus' true
      w some_time dropped
