-- ===== src/Bus/Listing/Shown.antt =====
-- What `bus_check` of src/nbs-bus/bus.c prints, as a text without errors.
use nbs_framework.Common.{
  ℕ, ◌/◌, ◌≤◌, ◌<◌, ◌≡◌, refl, inl, inr, List, [], ◌∷◌, ◌++◌, map, arith, ltb, leb, lt→ltb,
  Bool-cases, length, get_or, length-append, All,
}
use nbs_framework.Common.Outcome.{ok}
use nbs_framework.Common.Text.{Bytes, codes}
use nbs_framework.Common.Sorting.{keep}
use nbs_framework.Common.Decimal.{show_nat, long_max}
use nbs_framework.Common.Decimal.Size.{show_nat-le}
use nbs_framework.Bus.{Event}
use nbs_framework.Bus.Priority.{bus_priority_to_str, priority_names}
use nbs_framework.Bus.Listing.{
  age_text, age_seconds, format_age, minus_us, is_selected, event_line, print_events,
}

-- The line of an event: priority, name and age.
unfoldable pub shown_line : ℕ → Event → Bytes
shown_line current_us e =
    let age = age_text (age_seconds (minus_us current_us e.timestamp_us)) in
    b'['
    ∷ (get_or priority_names e.priority []
        ++ (codes "] " ++ (e.filename ++ (codes " (" ++ (age ++ codes ")\n")))))

length-age_text : (seconds : ℕ) → seconds ≤ long_max → length (age_text seconds) < 32
unfolding age_text
length-age_text seconds h = elim (Bool-cases (ltb seconds 60)) [
  | inl below ↦
      rw below
        (omega (arith, length-append (show_nat seconds) (codes "s ago"), show_nat-le seconds 19))
  | inr above ↦ rw above (elim (Bool-cases (ltb seconds 3600)) [
    | inl minutes ↦ rw minutes (
        omega (
          arith,
          length-append (show_nat (seconds / 60)) (codes "m ago"),
          show_nat-le (seconds / 60) 19,
        ))
    | inr longer ↦ rw longer (elim (Bool-cases (ltb seconds 86400)) [
      | inl hours ↦ rw hours (
          omega (
            arith,
            length-append (show_nat (seconds / 3600)) (codes "h ago"),
            show_nat-le (seconds / 3600) 19,
          ))
      | inr days ↦ rw days (
          omega (
            arith,
            length-append (show_nat (seconds / 86400)) (codes "d ago"),
            show_nat-le (seconds / 86400) 19,
          ))
    ])
  ])
]

age_seconds-minus_us-le : (current_us ts : ℕ) → age_seconds (minus_us current_us ts) ≤ current_us
unfolding age_seconds minus_us
age_seconds-minus_us-le current_us ts = elim (Bool-cases (leb ts current_us)) [
  | inl past ↦ rw past (omega arith)
  | inr ahead ↦ rw ahead (omega arith)
]

bus_priority_to_str-get_or :
    (p : ℕ) → p ≤ 3 → bus_priority_to_str p ≡ ok (get_or priority_names p [])
unfolding bus_priority_to_str
bus_priority_to_str-get_or p h = ground (arith, h)

-- An event that can be listed.
abbrev pub IsListable : Event → Type 0
IsListable e = e.priority ≤ 3

event_line-shown_line :
    (current_us : ℕ) (e : Event)
    → current_us ≤ long_max
    → IsListable e
    → event_line current_us e ≡ ok (shown_line current_us e)
unfolding event_line shown_line format_age
event_line-shown_line current_us e now known =
    let age = age_text (age_seconds (minus_us current_us e.timestamp_us)) in
    let short =
      length-age_text (age_seconds (minus_us current_us e.timestamp_us))
        (omega (arith, age_seconds-minus_us-le current_us e.timestamp_us)) in
    rw (lt→ltb (length age) 32 short) (rw (bus_priority_to_str-get_or e.priority known) refl)

pub print_events-shown_line :
    (current_us : ℕ) (handle : Bytes) (events : List Event)
    → current_us ≤ long_max
    → All IsListable events
    → print_events current_us handle events
      ≡ ok (map (shown_line current_us) (keep (is_selected handle) events))
unfolding print_events keep
print_events-shown_line current_us handle [] now h = refl
print_events-shown_line current_us handle (e ∷ events) now h =
    let rest = print_events-shown_line current_us handle events now h.1 in
    elim (Bool-cases (is_selected handle e)) [
      | inl chosen ↦ rw chosen (rw (event_line-shown_line current_us e now h.0) (rw rest refl))
      | inr other ↦ rw other rest
    ]
