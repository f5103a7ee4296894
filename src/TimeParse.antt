-- ===== src/TimeParse.antt =====
-- src/nbs-chat/time_parse.c: a time given as an age, as an epoch or as a local date. `time` is an argument, and
-- `local_time` stands for strptime on the whole text with mktime: none where one of them fails.
pub mod Age
use nbs_framework.Common.{
  ℕ, zero, suc, ◌+◌, ◌-◌, ◌*◌, ◌/◌, ◌%◌, ◌^◌, ◌≤◌, ◌<◌, min, ◌≡◌, refl, sym, ap, ◌∙◌, subst, ◌≢◌,
  ◌↔◌, ◌⊎◌, inl, inr, Bool, true, false, not, ◌&&◌, ◌||◌, Option, none, some, List, [], ◌∷◌, ◌++◌,
  map, append-nil, append_assoc, arith, ltb, leb, ◌==◌, if◌then◌else◌, within, ltb→lt, lt→ltb,
  leb→le, le→leb, ==_iff, Bool-cases, Option-cases, length, get_or, take, drop, length-append,
  length-take, length-drop, take-append-drop, take-length, map-take, map-drop, length-map, All,
  All-append, All-append_left, All-append_right, All-map,
}
use nbs_framework.Common.Outcome.{
  Outcome, ok, fail, abort, ◌>>=◌, ◌>>◌, assert, require, bind-eq-ok, ok_inj, assert-eq-ok,
}
use nbs_framework.Common.Text.{
  Bytes, codes, IsByte, Lacks, is_digit, is_alnum, is_space, str_eq, str_eq_iff, str_eq_sym,
}
use nbs_framework.Common.Decimal.{ℤ, pos, negsuc, strtol, long_max}
use nbs_framework.Bus.Name.{all_digits}

-- The seconds of a unit.
unfoldable pub multiplier : ℕ → Option ℕ
multiplier suffix =
    if suffix == b's'
    then some 1
    else if suffix == b'm'
    then some 60
    else if suffix == b'h'
    then some 3600
    else if suffix == b'd'
    then some 86400
    else none

unfoldable pub seconds_ago : ℕ → ℕ → ℕ → Outcome ℕ
seconds_ago now val seconds = do
  require (ltb 0 val) 1
  require (leb seconds (long_max / val)) 1
  let offset = val * seconds
  require (leb offset long_max) 1
  require (leb offset now) 1
  assert (ltb 0 (now - offset))
  ok (now - offset)

-- The age of the digits in front of the unit. A number out of range is the largest one.
unfoldable pub parse_relative : ℕ → Bytes → ℕ → Outcome ℕ
unfolding seconds_ago
parse_relative now spec seconds =
    let r = strtol spec in
    if length r.rest == 1
    then (elim r.value [ pos val ↦ seconds_ago now val seconds | negsuc n ↦ fail 1 ])
    else fail 1

unfoldable pub positive_time : ℤ → Outcome ℕ
positive_time (pos t) = do require (ltb 0 t) 1; ok t
positive_time (negsuc n) = fail 1

unfoldable pub parse_epoch : Bytes → Outcome ℕ
unfolding positive_time
parse_epoch spec =
    let r = strtol spec in
    if length r.rest == 0 && not r.erange then positive_time r.value else fail 1

unfoldable pub parse_local : Option ℤ → Outcome ℕ
unfolding positive_time
parse_local none = fail 1
parse_local (some t) = positive_time t

unfoldable pub parse_absolute : (Bytes → Option ℤ) → Bytes → Outcome ℕ
unfolding parse_epoch parse_local
parse_absolute local_time spec =
    if leb 10 (length spec) && all_digits spec
    then parse_epoch spec
    else parse_local (local_time spec)

-- The unit of an age: digits and the unit's letter.
unfoldable pub age_unit : Bytes → Option ℕ
unfolding multiplier
age_unit spec =
    let len = length spec in
    if leb 2 len && all_digits (take (len - 1) spec)
    then multiplier (get_or spec (len - 1) 0)
    else none

unfoldable pub parse_timespec : (Bytes → Option ℤ) → ℕ → Bytes → Outcome ℕ
unfolding age_unit parse_relative parse_absolute
parse_timespec local_time now spec = do
  assert (ltb 0 (length spec))
  elim (age_unit spec) [
    | some seconds ↦ parse_relative now spec seconds
    | none ↦ parse_absolute local_time spec
  ]
