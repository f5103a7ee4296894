-- ===== src/Common/Bits.antt =====
-- `|` on numbers whose bits do not meet, from the digit recursion that `bit_or` stands for.
use Prim.Native.Nat.{
  ℕ, zero, suc, ◌+◌, ◌*◌, ◌/◌, ◌%◌, ◌^◌, ◌≤◌, ◌<◌, max, bit_or, digits, bit_or-bitwise,
}
use mathlib.Core.Path.{◌≡◌, refl, ap}
use native.Mathlib.Nat.{pow-suc}
use native.Mathlib.Omega.{arith}

-- The recursion on the digits of `x`, of which it computes at most `fuel`.
abbrev joined : ℕ → ℕ → ℕ → ℕ
joined x y fuel = digits (λ d. d) max fuel x y

joined_none : (y fuel : ℕ) → joined 0 y fuel ≡ y
joined_none y zero = refl
joined_none y (suc fuel) = refl

-- Any fuel from `x` on gives the same number.
joined_enough : (x y k l : ℕ) → x ≤ k → x ≤ l → joined x y k ≡ joined x y l
joined_enough zero y k l hk hl = rw (joined_none y k, joined_none y l)
joined_enough (suc x) y (suc k) (suc l) hk hl =
    let half = joined_enough (suc x / 2) (y / 2) k l (omega arith) (omega arith) in
    omega (arith, half)
joined_enough (suc x) y zero l hk hl = absurd (omega arith)
joined_enough (suc x) y (suc k) zero hk hl = absurd (omega arith)

pub zero-bit_or : (y : ℕ) → bit_or 0 y ≡ y
zero-bit_or y = bit_or-bitwise 0 y

pub bit_or_step : (x y : ℕ) → bit_or x y ≡ bit_or (x / 2) (y / 2) * 2 + max (x % 2) (y % 2)
bit_or_step zero y = omega (arith, zero-bit_or y, zero-bit_or (y / 2))
bit_or_step (suc x) y =
    let whole = bit_or-bitwise (suc x) y in
    let rest = bit_or-bitwise (suc x / 2) (y / 2) in
    let same = joined_enough (suc x / 2) (y / 2) x (suc x / 2) (omega arith) (omega arith) in
    omega (arith, whole, rest, same)

bit_or-zero_below : (bound x : ℕ) → x ≤ bound → bit_or x 0 ≡ x
bit_or-zero_below bound zero h = zero-bit_or 0
bit_or-zero_below zero (suc x) h = absurd (omega arith)
bit_or-zero_below (suc bound) (suc x) h =
    let half = bit_or-zero_below bound (suc x / 2) (omega arith) in
    omega (arith, half, bit_or_step (suc x) 0)

pub bit_or-zero : (x : ℕ) → bit_or x 0 ≡ x
bit_or-zero x = bit_or-zero_below x x (omega arith)

bit_or_double : (m b : ℕ) → bit_or m (b / 2) ≡ m + b / 2 → bit_or (m * 2) b ≡ m * 2 + b
bit_or_double m b h =
    let half : m * 2 / 2 ≡ m = omega arith in
    omega (arith, bit_or_step (m * 2) b, ap (λ (x : ℕ). bit_or x (b / 2)) half)

-- A digit below `2 ^ k` and a number shifted by `k`: their `|` is their sum.
pub bit_or-shifted : (k a b : ℕ) → b < 2 ^ k → bit_or (a * 2 ^ k) b ≡ a * 2 ^ k + b
bit_or-shifted zero a b h =
    let low : b ≡ 0 = omega arith in rw low (omega (arith, bit_or-zero (a * 1)))
bit_or-shifted (suc k) a b h =
    let twice : a * 2 ^ suc k ≡ a * 2 ^ k * 2 = rw pow-suc (omega arith) in
    let small : b / 2 < 2 ^ k = omega (arith, pow-suc 2 k) in
    rw twice (bit_or_double (a * 2 ^ k) b (bit_or-shifted k a (b / 2) small))
