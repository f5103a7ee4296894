-- ===== src/ChatFile/Length.antt =====
-- `compute_file_length` of src/nbs-chat/chat_file.c: the header line "file-length: N" states the size of
-- the file that contains it. Sizes are natural numbers; the C code has them in `int64_t`.
use nbs_framework.Common.{
  ℕ, zero, suc, ◌+◌, ◌-◌, ◌*◌, ◌^◌, ◌<◌, ◌≤◌, ◌≡◌, arith, ltb, ◌==◌, if◌then◌else◌, length,
  length-append, ◌++◌, [], ◌∷◌,
}
use native.Mathlib.Decide.{dec_lt}
use native.Mathlib.Nat.{pow-suc}
use nbs_framework.Common.Decimal.{show_nat}
use nbs_framework.Common.Decimal.Size.{show_nat-le, lt-show_nat}
use nbs_framework.Common.Outcome.{Outcome, ok, ◌>>◌, assert}
use nbs_framework.Common.Text.{Bytes, codes}

-- The file size for a text of `base_size` bytes, by the two attempts of the source.
unfoldable pub candidate : ℕ → ℕ
candidate base_size =
    let digits = length (show_nat base_size) in
    let first = base_size + 14 + digits in
    let second = length (show_nat first) in
    if second == digits then first else base_size + 14 + second

unfoldable pub compute_file_length : Bytes → Outcome ℕ
unfolding candidate
compute_file_length content = do
  let base_size = length content
  let size = candidate base_size
  let final_digits = length (show_nat size)
  assert (size == base_size + 14 + final_digits)
  assert (ltb 0 size)
  ok size

-- Two decimal lengths apart at most: a number of `d` digits plus fifteen and `d`.
room_above : (d : ℕ) → 15 + suc d < 9 * 10 ^ suc d
room_above zero = omega arith
room_above (suc d) = omega (arith, room_above d, pow-suc 10 (suc d))

pub show_nat_pos : (n : ℕ) → 0 < length (show_nat n)
show_nat_pos zero = unfold show_nat in omega arith
show_nat_pos (suc n) = lt-show_nat (suc n) 0 (omega arith)

-- A number with `suc k` digits lies between powers of ten.
below_power : (n d : ℕ) → length (show_nat n) ≡ d → n < 10 ^ d
below_power n d e = elim (dec_lt n (10 ^ d)) [
  | yes h ↦ h
  | no h ↦ absurd (omega (arith, lt-show_nat n d (omega arith)))
]

above_power : (n k : ℕ) → length (show_nat n) ≡ suc (suc k) → 10 ^ suc k ≤ n
above_power n k e = elim (dec_lt n (10 ^ suc k)) [
  | yes h ↦ absurd (omega (arith, show_nat-le n (suc k) h (omega arith)))
  | no h ↦ omega arith
]

digits_between : (n k : ℕ) → 10 ^ k ≤ n → n < 10 ^ suc k → length (show_nat n) ≡ suc k
digits_between n k low high =
    omega (arith, lt-show_nat n k low, show_nat-le n (suc k) high (omega arith))

-- The line does not add a digit to the size.
same_digits :
    (b m k : ℕ) → length (show_nat b) ≡ suc k → b ≤ m → m < 10 ^ suc k → length (show_nat m) ≡ suc k
same_digits b m zero e le h = omega (arith, show_nat-le m 1 h (omega arith), show_nat_pos m)
same_digits b m (suc k) e le h = digits_between m (suc k) (omega (arith, above_power b k e)) h

candidate_at :
    (b k : ℕ) → length (show_nat b) ≡ suc k → candidate b ≡ b + 14 + length (show_nat (candidate b))
unfolding candidate
candidate_at b k e = elim (dec_lt (b + 14 + suc k) (10 ^ suc k)) [
  | yes fits ↦ rw e (ground (arith, same_digits b (b + 14 + suc k) k e (omega arith) fits))
  | no longer ↦
      let bound : b + 14 + suc (suc k) < 10 ^ suc (suc k) =
        omega (arith, below_power b (suc k) e, room_above k, pow-suc 10 (suc k)) in
      rw e (
        ground (
          arith,
          digits_between (b + 14 + suc k) (suc k) (omega arith) (omega arith),
          digits_between (b + 14 + suc (suc k)) (suc k) (omega arith) bound,
        ))
]

candidate_consistent : (b : ℕ) → candidate b ≡ b + 14 + length (show_nat (candidate b))
candidate_consistent b =
    let k = length (show_nat b) - 1 in candidate_at b k (omega (arith, show_nat_pos b))

-- The line that `fprintf(f, "file-length: %" PRId64 "\n", n)` writes.
unfoldable pub length_line : ℕ → Bytes
length_line n = codes "file-length: " ++ (show_nat n ++ b'\n' ∷ [])

length-length_line : (n : ℕ) → length (length_line n) ≡ 14 + length (show_nat n)
unfolding length_line
length-length_line n = omega (
  arith,
  length-append (codes "file-length: ") (show_nat n ++ b'\n' ∷ []),
  length-append (show_nat n) (b'\n' ∷ []),
)

-- For every text the computation passes its assertions, and its result is the length of the file that
-- has the line with that result somewhere in the text.
pub compute_file_length_total :
    (before after : Bytes)
    → (n : ℕ) × (compute_file_length (before ++ after) ≡ ok n)
      × (length (before ++ (length_line n ++ after)) ≡ n)
unfolding compute_file_length
compute_file_length_total before after =
    let b = length (before ++ after) in
    let n = candidate b in
    let exact = candidate_consistent b in
    (
      n,
      ground (arith, exact),
      omega (
        arith,
        exact,
        length-append before after,
        length-append before (length_line n ++ after),
        length-append (length_line n) after,
        length-length_line n,
      ),
    )
