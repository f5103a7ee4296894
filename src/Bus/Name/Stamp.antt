-- ===== src/Bus/Name/Stamp.antt =====
-- The names that `bus_publish` makes are event names, and tell their time.
use nbs_framework.Common.{
  ℕ, ◌-◌, ◌≤◌, ◌<◌, ◌≡◌, refl, true, false, [], ◌∷◌, ◌++◌, append_assoc, arith, lt→ltb, le→leb,
  length, drop, length-append, All,
}
use nbs_framework.Common.Outcome.{ok}
use nbs_framework.Common.Text.{Bytes, codes, is_digit, str_eq}
use nbs_framework.Common.Decimal.{show_nat, long_max}
use nbs_framework.Common.Decimal.RoundTrip.{All-show_nat, strtol-show_nat_whole, show_nat_head}
use nbs_framework.Common.Decimal.Size.{show_nat-le}
use nbs_framework.ChatFile.Length.{show_nat_pos}
use nbs_framework.ChatFile.Participants.RoundTrip.{before_stop-append, from_stop-append}
use nbs_framework.Bus.{bus_max_filename}
use nbs_framework.Bus.Name.{
  is_dash, all_digits, event_suffix, has_event_suffix, positive_value,
  parse_event_filename_timestamp, has_slash, starts_with_dots, validate_event_filename,
  event_filename,
}

show_nat_no_dash : (n : ℕ) → All (λ c. is_dash c ≡ false) (show_nat n)
unfolding is_dash
show_nat_no_dash n = All-show_nat (λ c. is_dash c ≡ false) n (λ c d. ground arith)

pub All-all_digits : (s : Bytes) → All (λ c. is_digit c ≡ true) s → all_digits s ≡ true
unfolding all_digits
All-all_digits [] h = refl
All-all_digits (c ∷ s) h = rw h.0 (All-all_digits s h.1)

-- A name that begins with a positive time and a dash tells that time.
pub parse_event_filename_timestamp-show_nat :
    (ts : ℕ) (rest : Bytes)
    → 0 < ts
    → ts ≤ long_max
    → parse_event_filename_timestamp (show_nat ts ++ b'-' ∷ rest) ≡ ok ts
unfolding parse_event_filename_timestamp positive_value
parse_event_filename_timestamp-show_nat ts rest low high =
    let digits =
      All-all_digits (show_nat ts) (All-show_nat (λ c. is_digit c ≡ true) ts (λ c d. d)) in
    rw
      (before_stop-append is_dash (show_nat ts) b'-' rest (show_nat_no_dash ts)
        (unfold is_dash in refl))
      (rw
        (from_stop-append is_dash (show_nat ts) b'-' rest (show_nat_no_dash ts)
          (unfold is_dash in refl))
        (rw (strtol-show_nat_whole ts high) (
          rw (lt→ltb 0 (length (show_nat ts)) (show_nat_pos ts)) (
            rw (lt→ltb (length (show_nat ts)) 32 (omega (arith, show_nat-le ts 19)))
              (rw digits (ground arith))))))

drop-length : (p s : Bytes) → drop (length p) (p ++ s) ≡ s
drop-length [] s = refl
drop-length (c ∷ p) s = drop-length p s

has_event_suffix-append : (p : Bytes) → 0 < length p → has_event_suffix (p ++ event_suffix) ≡ true
unfolding has_event_suffix
has_event_suffix-append p some_name =
    let size = length-append p event_suffix in
    let start : length (p ++ event_suffix) - 6 ≡ length p = omega (arith, size) in
    rw start (
      rw (drop-length p event_suffix)
        (rw (le→leb 7 (length (p ++ event_suffix)) (omega (arith, size))) (unfold str_eq in refl)))

-- The name without its suffix.
abbrev stem : ℕ → Bytes → Bytes → ℕ → Bytes
stem ts source type_name pid =
    show_nat ts ++ b'-' ∷ (source ++ b'-' ∷ (type_name ++ b'-' ∷ show_nat pid))

event_filename-stem :
    (ts : ℕ) (source type_name : Bytes) (pid : ℕ)
    → event_filename ts source type_name pid ≡ stem ts source type_name pid ++ event_suffix
unfolding event_filename
event_filename-stem ts source type_name pid =
    rw
      (append_assoc (show_nat ts) (b'-' ∷ (source ++ b'-' ∷ (type_name ++ b'-' ∷ show_nat pid)))
        event_suffix)
      (rw (append_assoc source (b'-' ∷ (type_name ++ b'-' ∷ show_nat pid)) event_suffix)
        (rw (append_assoc type_name (b'-' ∷ show_nat pid) event_suffix) refl))

pub event_filename-has_event_suffix :
    (ts : ℕ) (source type_name : Bytes) (pid : ℕ)
    → has_event_suffix (event_filename ts source type_name pid) ≡ true
event_filename-has_event_suffix ts source type_name pid =
    rw (event_filename-stem ts source type_name pid) (
      has_event_suffix-append (stem ts source type_name pid) (
        omega (
          arith,
          show_nat_pos ts,
          length-append (show_nat ts)
              (b'-' ∷ (source ++ b'-' ∷ (type_name ++ b'-' ∷ show_nat pid))),
        )))

pub parse_event_filename_timestamp-event_filename :
    (ts : ℕ) (source type_name : Bytes) (pid : ℕ)
    → 0 < ts
    → ts ≤ long_max
    → parse_event_filename_timestamp (event_filename ts source type_name pid) ≡ ok ts
unfolding event_filename
parse_event_filename_timestamp-event_filename ts source type_name pid low high =
    parse_event_filename_timestamp-show_nat ts _ low high

digit_head :
    (c : ℕ) (s : Bytes)
    → is_digit c ≡ true
    → (starts_with_dots (c ∷ s) ≡ false) × (str_eq (c ∷ s) (codes ".") ≡ false)
unfolding starts_with_dots str_eq
digit_head c [] h = ground arith
digit_head c (d ∷ s) h = ground arith

-- The name of a publication whose source and type have no slash, and that fits its buffer, is accepted
-- by every command that takes the name of an event.
pub validate_event_filename-event_filename :
    (ts : ℕ) (source type_name : Bytes) (pid : ℕ)
    → has_slash (event_filename ts source type_name pid) ≡ false
    → length (event_filename ts source type_name pid) < bus_max_filename
    → validate_event_filename (event_filename ts source type_name pid) ≡ ok tt
unfolding validate_event_filename
validate_event_filename-event_filename ts source type_name pid clean short =
    let (c, s, e, d) = show_nat_head ts in
    let name = event_filename ts source type_name pid in
    let head : (r : Bytes) × (name ≡ c ∷ r) = (
      s ++ b'-' ∷ (source ++ (b'-' ∷ (type_name ++ (b'-' ∷ (show_nat pid ++ event_suffix))))),
      unfold event_filename in rw e refl,
    ) in
    let dots : starts_with_dots name ≡ false = rw head.1 ((digit_head c head.0 d).0) in
    let dot : str_eq name (codes ".") ≡ false = rw head.1 ((digit_head c head.0 d).1) in
    let some_name : 0 < length name = rw head.1 (omega arith) in
    rw clean (
      rw dots (
        rw dot (
          rw (lt→ltb 0 (length name) some_name) (
            rw (lt→ltb (length name) bus_max_filename short)
              (rw (event_filename-has_event_suffix ts source type_name pid) refl)))))
