-- ===== src/TimeParse/Age.antt =====
-- The ages that src/nbs-chat/time_parse.c accepts.
use native.Mathlib.Nat.{le-div_iff_mul-le}
use nbs_framework.Common.{
  ℕ, ◌-◌, ◌*◌, ◌/◌, ◌≤◌, ◌<◌, ◌≡◌, refl, ap, inl, inr, true, false, Option, some, [], ◌∷◌, ◌++◌,
  arith, ltb, leb, ◌==◌, if◌then◌else◌, ltb→lt, lt→ltb, le→leb, Bool-cases, length, get_or, take,
  length-append,
}
use nbs_framework.Common.Outcome.{Outcome, ok, fail, abort}
use nbs_framework.Common.Text.{Bytes, is_digit}
use nbs_framework.Bus.Name.{all_digits}
use nbs_framework.Bus.Name.Stamp.{All-all_digits}
use nbs_framework.ChatFile.Length.{show_nat_pos}
use nbs_framework.Common.Decimal.{ℤ, show_nat, long_max}
use nbs_framework.Common.Decimal.RoundTrip.{All-show_nat, strtol-show_nat}
use nbs_framework.TimeParse.{multiplier, seconds_ago, parse_relative, age_unit, parse_timespec}

-- The units of an age, as the help of the program names them.
pub data TimeUnit : Type 0 where
  second : TimeUnit
  minute : TimeUnit
  hour : TimeUnit
  day : TimeUnit

-- The letter that an age ends with.
abbrev pub unit_letter : TimeUnit → ℕ
unit_letter second = b's'
unit_letter minute = b'm'
unit_letter hour = b'h'
unit_letter day = b'd'

-- How many seconds a unit has.
abbrev pub duration : TimeUnit → ℕ
duration second = 1
duration minute = 60
duration hour = 60 * 60
duration day = 24 * (60 * 60)

multiplier-unit_letter : (u : TimeUnit) → multiplier (unit_letter u) ≡ some (duration u)
unfolding multiplier
multiplier-unit_letter second = refl
multiplier-unit_letter minute = refl
multiplier-unit_letter hour = refl
multiplier-unit_letter day = refl

is_digit-unit_letter : (u : TimeUnit) → is_digit (unit_letter u) ≡ false
is_digit-unit_letter second = refl
is_digit-unit_letter minute = refl
is_digit-unit_letter hour = refl
is_digit-unit_letter day = refl

get_or-last : (s : Bytes) (u : ℕ) → get_or (s ++ u ∷ []) (length s) 0 ≡ u
get_or-last [] u = refl
get_or-last (c ∷ s) u = get_or-last s u

take-append : (s t : Bytes) → take (length s) (s ++ t) ≡ s
take-append [] t = refl
take-append (c ∷ s) t = ap (◌∷◌ c) (take-append s t)

age_unit-show_nat : (n u : ℕ) → age_unit (show_nat n ++ u ∷ []) ≡ multiplier u
unfolding age_unit
age_unit-show_nat n u =
    let size = length-append (show_nat n) (u ∷ []) in
    let before : length (show_nat n ++ u ∷ []) - 1 ≡ length (show_nat n) = omega (arith, size) in
    let long : leb 2 (length (show_nat n ++ u ∷ [])) ≡ true =
      le→leb _ _ (omega (arith, size, show_nat_pos n)) in
    let digits : all_digits (show_nat n) ≡ true =
      All-all_digits (show_nat n) (All-show_nat (λ c. is_digit c ≡ true) n (λ c d. d)) in
    rw before (
      rw long
        (rw (take-append (show_nat n) (u ∷ [])) (rw digits (rw (get_or-last (show_nat n) u) refl))))

-- What an age before now is.
abbrev pub age_result : ℕ → ℕ → Outcome ℕ
age_result now age = if ltb now age then fail 1 else if age == now then abort else ok (now - age)

-- An age that is too long for 64 bits is before the epoch.
not_reached :
    (now n seconds : ℕ)
    → 0 < n
    → now ≤ long_max
    → leb seconds (long_max / n) ≡ false
    → now < n * seconds
not_reached now n seconds some_time clock huge = elim (Bool-cases (ltb now (n * seconds))) [
  | inl later ↦ ltb→lt now (n * seconds) later
  | inr reached ↦
      let small : seconds * n ≤ long_max = ground (arith, reached, clock) in
      let fits : leb seconds (long_max / n) ≡ true =
        le→leb _ _ ((le-div_iff_mul-le {k = n} {x = seconds} {y = long_max} some_time).1 small) in
      absurd cc
]

seconds_ago_lem :
    (now n seconds : ℕ)
    → 0 < n
    → now ≤ long_max
    → seconds_ago now n seconds ≡ age_result now (n * seconds)
unfolding seconds_ago
seconds_ago_lem now n seconds some_time clock =
    let both = le-div_iff_mul-le {k = n} {x = seconds} {y = long_max} some_time in
    rw (lt→ltb 0 n some_time) (elim (Bool-cases (leb seconds (long_max / n))) [
      | inl fits ↦ rw fits (ground arith)
      | inr huge ↦
          let later : now < n * seconds = not_reached now n seconds some_time clock huge in
          rw huge (rw (lt→ltb now (n * seconds) later) refl)
    ])

-- An age of digits and the letter of a unit (s, m, h or d), of a positive number and on a clock
-- that fit 64 bits, is refused where it is before the epoch, and the call aborts where it is the
-- epoch itself; else the result is that many seconds, minutes of 60 seconds, hours of 60 minutes or
-- days of 24 hours before now.
pub parse_timespec-show_nat :
    (local_time : Bytes → Option ℤ) (now n : ℕ) (u : TimeUnit)
    → 0 < n
    → n ≤ long_max
    → now ≤ long_max
    → parse_timespec local_time now (show_nat n ++ unit_letter u ∷ [])
      ≡ age_result now (n * duration u)
unfolding parse_timespec
parse_timespec-show_nat local_time now n u some_time small clock =
    let filled : ltb 0 (length (show_nat n ++ unit_letter u ∷ [])) ≡ true =
      lt→ltb _ _ (omega (arith, length-append (show_nat n) (unit_letter u ∷ []))) in
    rw filled (
      rw (age_unit-show_nat n (unit_letter u)) (
        rw (multiplier-unit_letter u) (
          unfold parse_relative in
          rw (strtol-show_nat n (unit_letter u ∷ []) small (is_digit-unit_letter u))
            (seconds_ago_lem now n (duration u) some_time clock))))
