-- ===== src/Common/Decimal.antt =====
-- libc's decimal numbers: what `%d`, `%lld` and `PRId64` print and what `strtol` and `strtoll` read
-- (`long` has 64 bits).
pub mod Size
pub mod RoundTrip
use Prim.Native.Nat.{ℕ, zero, suc, ◌+◌, ◌-◌, ◌*◌, ◌/◌, ◌%◌, ◌^◌}
use mathlib.Core.Bool.{Bool, true, false, ◌||◌}
use mathlib.Core.List.{List, [], ◌∷◌, ◌++◌}
use nbs_framework.Common.Tests.{ltb, leb, ◌==◌, if◌then◌else◌}
use nbs_framework.Common.Text.{Bytes, is_digit, is_space}

-- A C integer; `negsuc n` is -(n + 1).
pub data ℤ : Type 0 where
  pos : ℕ → ℤ
  negsuc : ℕ → ℤ

-- The digits of `n`, with fuel above `n`.
unfoldable pub digits : ℕ → ℕ → Bytes
digits zero n = []
digits (suc fuel) n =
    let front = digits fuel (n / 10) in (if n / 10 == 0 then [] else front) ++ (b'0' + n % 10) ∷ []

unfoldable pub show_nat : ℕ → Bytes
unfolding digits
show_nat n = digits (suc n) n

unfoldable pub show_int : ℤ → Bytes
unfolding show_nat
show_int (pos n) = show_nat n
show_int (negsuc n) = b'-' ∷ show_nat (suc n)

-- What `strtol` reports: the value, whether it was out of range, whether there was a digit, and the
-- text behind the number.
pub record Scan : Type 0 where
  pub value : ℤ
  pub erange : Bool
  pub converted : Bool
  pub rest : Bytes

abbrev pub long_max : ℕ
long_max = 2 ^ 63 - 1

unfoldable pub skip_spaces : Bytes → Bytes
skip_spaces [] = []
skip_spaces (c ∷ s) = if is_space c then skip_spaces s else c ∷ s

-- The sign with its value clamped to 64 bits.
unfoldable pub signed : Bool → ℕ → Bytes → Scan
signed true n rest =
    if n == 0
    then record { value = pos 0; erange = false; converted = true; rest = rest }
    else if leb n (long_max + 1)
    then record { value = negsuc (n - 1); erange = false; converted = true; rest = rest }
    else record { value = negsuc long_max; erange = true; converted = true; rest = rest }
signed false n rest =
    if leb n long_max
    then record { value = pos n; erange = false; converted = true; rest = rest }
    else record { value = pos long_max; erange = true; converted = true; rest = rest }

-- The digits behind the first one.
unfoldable pub scan_digits : Bool → ℕ → Bytes → Scan
unfolding signed
scan_digits minus n [] = signed minus n []
scan_digits minus n (c ∷ s) =
    if is_digit c then scan_digits minus (n * 10 + (c - b'0')) s else signed minus n (c ∷ s)

unfoldable pub no_number : Bytes → Scan
no_number s = record { value = pos 0; erange = false; converted = false; rest = s }

unfoldable pub scan_number : Bool → Bytes → Bytes → Scan
scan_number minus whole [] = no_number whole
scan_number minus whole (c ∷ s) =
    if is_digit c then scan_digits minus (c - b'0') s else no_number whole

unfoldable pub scan_signed : Bytes → Bytes → Scan
scan_signed whole [] = no_number whole
scan_signed whole (c ∷ s) =
    if c == b'-'
    then scan_number true whole s
    else if c == b'+'
    then scan_number false whole s
    else scan_number false whole (c ∷ s)

unfoldable pub strtol : Bytes → Scan
unfolding skip_spaces scan_signed scan_number scan_digits signed no_number
strtol s = scan_signed s (skip_spaces s)
