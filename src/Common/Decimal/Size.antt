-- ===== src/Common/Decimal/Size.antt =====
-- How many digits a number has.
use Prim.Native.Nat.{ℕ, zero, suc, ◌+◌, ◌/◌, ◌%◌, ◌^◌, ◌≤◌, ◌<◌}
use mathlib.Core.Path.{◌≡◌}
use mathlib.Core.List.{[], ◌∷◌}
use native.Mathlib.Nat.{pow-suc}
use native.Mathlib.Omega.{arith}
use nbs_framework.Common.Tests.{◌==◌, if◌then◌else◌}
use nbs_framework.Common.Lists.{length, length-append}
use nbs_framework.Common.Decimal.{digits, show_nat}

-- One round of the printer, on the lengths.
length-digits :
    (f n : ℕ)
    → length (digits (suc f) n) ≡ (if n / 10 == 0 then 1 else length (digits f (n / 10)) + 1)
unfolding digits
length-digits f n = ground (arith, length-append (digits f (n / 10)) ((b'0' + n % 10) ∷ []))

digits_upper : (f n d : ℕ) → n < f → n < 10 ^ d → 0 < d → length (digits f n) ≤ d
digits_upper zero n d lt h p = absurd (omega arith)
digits_upper (suc f) n zero lt h p = absurd (omega arith)
digits_upper (suc f) n (suc zero) lt h p = ground (arith, length-digits f n)
digits_upper (suc f) n (suc (suc d)) lt h p =
    ground (arith, length-digits f n, pow-suc 10 (suc d), digits_upper f (n / 10) (suc d))

digits_lower : (f n d : ℕ) → n < f → 10 ^ d ≤ n → d < length (digits f n)
digits_lower zero n d lt h = absurd (omega arith)
digits_lower (suc f) n zero lt h = ground (arith, length-digits f n)
digits_lower (suc f) n (suc d) lt h =
    ground (arith, length-digits f n, pow-suc 10 d, digits_lower f (n / 10) d, pow_pos d)
  where
    pow_pos : (k : ℕ) → 0 < 10 ^ k
    pow_pos zero = omega arith
    pow_pos (suc k) = omega (arith, pow-suc 10 k, pow_pos k)

pub show_nat-le : (n d : ℕ) → n < 10 ^ d → 0 < d → length (show_nat n) ≤ d
unfolding show_nat
show_nat-le n d h p = digits_upper (suc n) n d (omega arith) h p

pub lt-show_nat : (n d : ℕ) → 10 ^ d ≤ n → d < length (show_nat n)
unfolding show_nat
lt-show_nat n d h = digits_lower (suc n) n d (omega arith) h
