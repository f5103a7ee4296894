-- ===== src/ChatFile/Number.antt =====
-- `safe_parse_int` and `safe_parse_int64` of src/nbs-chat/chat_file.c. A text is what stands before its
-- NUL; `none` is the return value -1.
use nbs_framework.Common.{
  ℕ, ◌-◌, ◌^◌, ◌≤◌, ◌≡◌, Bool, true, not, ◌||◌, Option, none, some, [], ◌∷◌, arith, leb, ◌==◌,
  if◌then◌else◌,
}
use nbs_framework.Common.Decimal.{ℤ, pos, negsuc, long_max, show_nat, strtol}
use nbs_framework.Common.Decimal.RoundTrip.{strtol-show_nat_whole}
use nbs_framework.Common.Text.{Bytes}

abbrev pub int_max : ℕ
int_max = 2 ^ 31 - 1

-- `*endptr` is the end of the text or of the line.
unfoldable pub at_line_end : Bytes → Bool
at_line_end [] = true
at_line_end (c ∷ s) = c == b'\n' || c == b'\r'

unfoldable pub in_int_range : ℤ → Bool
in_int_range (pos n) = leb n int_max
in_int_range (negsuc n) = leb n int_max

-- `long long` and `int64_t` have the same range, so the second test of the source passes.
unfoldable pub safe_parse_int64 : Bytes → Option ℤ
unfolding at_line_end
safe_parse_int64 str =
    let r = strtol str in
    if r.erange || not r.converted || not (at_line_end r.rest) then none else some r.value

unfoldable pub safe_parse_int : Bytes → Option ℤ
unfolding at_line_end in_int_range
safe_parse_int str =
    let r = strtol str in
    if r.erange || not r.converted || not (at_line_end r.rest)
    then none
    else if not (in_int_range r.value)
    then none
    else some r.value

pub safe_parse_int64-show_nat :
    (n : ℕ) → n ≤ long_max → safe_parse_int64 (show_nat n) ≡ some (pos n)
unfolding safe_parse_int64
safe_parse_int64-show_nat n h = rw (strtol-show_nat_whole n h)

pub safe_parse_int-show_nat : (n : ℕ) → n ≤ int_max → safe_parse_int (show_nat n) ≡ some (pos n)
unfolding safe_parse_int
safe_parse_int-show_nat n h = rw (strtol-show_nat_whole n (omega arith)) (ground arith)
