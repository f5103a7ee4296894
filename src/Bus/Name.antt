-- ===== src/Bus/Name.antt =====
-- The names of event files: <microseconds>-<source>-<type>-<pid>.event.
pub mod Stamp
use nbs_framework.Common.{
  ℕ, zero, suc, ◌+◌, ◌-◌, ◌*◌, ◌/◌, ◌%◌, ◌^◌, ◌≤◌, ◌<◌, min, ◌≡◌, refl, sym, ap, ◌∙◌, subst, ◌≢◌,
  ◌↔◌, ◌⊎◌, inl, inr, Bool, true, false, not, ◌&&◌, ◌||◌, Option, none, some, List, [], ◌∷◌, ◌++◌,
  map, append-nil, append_assoc, arith, ltb, leb, ◌==◌, if◌then◌else◌, within, ltb→lt, lt→ltb,
  leb→le, le→leb, ==_iff, Bool-cases, Option-cases, length, get_or, take, drop, length-append,
  length-take, length-drop, take-append-drop, take-length, map-take, map-drop, length-map, All,
  All-append, All-append_left, All-append_right, All-map,
}
use nbs_framework.Common.Outcome.{Outcome, ok, fail, abort, ◌>>=◌, ◌>>◌, assert, require}
use nbs_framework.Common.Text.{
  Bytes, codes, IsByte, Lacks, is_digit, is_alnum, is_space, str_eq, str_eq_iff,
}
use nbs_framework.Common.Decimal.{ℤ, pos, negsuc, strtol, show_nat}
use nbs_framework.ChatFile.Participants.{before_stop, from_stop}
use nbs_framework.Bus.{bus_max_filename}

unfoldable pub is_dash : ℕ → Bool
is_dash c = c == b'-'

unfoldable pub all_digits : Bytes → Bool
all_digits [] = true
all_digits (c ∷ s) = is_digit c && all_digits s

abbrev pub event_suffix : Bytes
event_suffix = codes ".event"

-- `nlen >= 7 && strcmp(name + nlen - 6, ".event") == 0`
unfoldable pub has_event_suffix : Bytes → Bool
has_event_suffix name = leb 7 (length name) && str_eq (drop (length name - 6) name) event_suffix

unfoldable pub positive_value : ℤ → Outcome ℕ
positive_value (pos n) = do assert (ltb 0 n); ok n
positive_value (negsuc n) = abort

-- The leading digits as a number of microseconds; -1 where the name is malformed.
unfoldable pub parse_event_filename_timestamp : Bytes → Outcome ℕ
unfolding is_dash all_digits positive_value
parse_event_filename_timestamp filename = do
  let ts_buf = before_stop is_dash filename
  let r = strtol ts_buf
  require (ltb 0 (length (from_stop is_dash filename))) 1
  require (ltb 0 (length ts_buf)) 1
  require (ltb (length ts_buf) 32) 1
  require (all_digits ts_buf) 1
  require (not r.erange && length r.rest == 0) 1
  positive_value r.value

unfoldable pub has_slash : Bytes → Bool
has_slash [] = false
has_slash (c ∷ s) = c == b'/' || has_slash s

unfoldable pub starts_with_dots : Bytes → Bool
starts_with_dots s = str_eq (take 2 s) (codes "..")

-- No empty name, no path traversal, no long name, and the suffix.
unfoldable pub validate_event_filename : Bytes → Outcome (Unit {0})
unfolding has_event_suffix has_slash starts_with_dots
validate_event_filename event_file = do
  require (ltb 0 (length event_file)) 1
  require
      (not (has_slash event_file || starts_with_dots event_file || str_eq event_file (codes "."))) 1
  require (ltb (length event_file) bus_max_filename) 1
  require (has_event_suffix event_file) 1
  ok tt

-- The name that a publication gets.
unfoldable pub event_filename : ℕ → Bytes → Bytes → ℕ → Bytes
event_filename ts_us source type_name pid =
    show_nat ts_us
    ++ (b'-' ∷ (source ++ (b'-' ∷ (type_name ++ (b'-' ∷ (show_nat pid ++ event_suffix))))))
