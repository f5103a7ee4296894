-- ===== src/Common/Decimal/RoundTrip.antt =====
-- Reading a printed number.
use Prim.Native.Nat.{ℕ, zero, suc, ◌+◌, ◌-◌, ◌*◌, ◌/◌, ◌%◌, ◌≤◌, ◌<◌}
use mathlib.Core.Path.{◌≡◌, refl, sym, ◌∙◌, ap}
use mathlib.Core.Bool.{Bool, true, false}
use mathlib.Core.Logic.{◌≢◌}
use mathlib.Core.List.{[], ◌∷◌, ◌++◌, append_assoc, append-nil}
use native.Mathlib.Decide.{ℕ_discrete}
use native.Mathlib.Omega.{arith}
use nbs_framework.Common.Lists.{All, All-append}
use nbs_framework.Common.Text.{Bytes, is_digit, is_space}
use nbs_framework.Common.Decimal.{pos, digits, show_nat, long_max, signed, scan_digits, strtol}

-- The text does not go on with a digit.
abbrev pub Stops : Bytes → Type 0
Stops [] = Unit
Stops (c ∷ s) = is_digit c ≡ false

digits_last : (f n : ℕ) → n / 10 ≡ 0 → digits (suc f) n ≡ (b'0' + n) ∷ []
unfolding digits
digits_last f n h = ground arith

digits_more : (f n : ℕ) → n / 10 ≢ 0 → digits (suc f) n ≡ digits f (n / 10) ++ (b'0' + n % 10) ∷ []
unfolding digits
digits_more f n h = ground arith

scan_one :
    (minus : Bool) (m d : ℕ) (rest : Bytes)
    → d < 10
    → scan_digits minus m ((b'0' + d) ∷ rest) ≡ scan_digits minus (m * 10 + d) rest
unfolding scan_digits
scan_one minus m d rest h = let back : b'0' + d - b'0' ≡ d = omega arith in rw back (ground arith)

scan-digits :
    (minus : Bool) (f n : ℕ) (rest : Bytes)
    → n < f
    → scan_digits minus 0 (digits f n ++ rest) ≡ scan_digits minus n rest
scan-digits minus zero n rest h = absurd (omega arith)
scan-digits minus (suc f) n rest h = elim (ℕ_discrete (n / 10) 0) [
  | yes last ↦
      let whole : 0 * 10 + n ≡ n = omega arith in
      rw (digits_last f n last)
        (scan_one minus 0 n rest (omega arith) ∙ ap (λ (k : ℕ). scan_digits minus k rest) whole)
  | no more ↦
      let whole : n / 10 * 10 + n % 10 ≡ n = omega arith in
      rw (digits_more f n more, append_assoc (digits f (n / 10)) ((b'0' + n % 10) ∷ []) rest)
        (scan-digits minus f (n / 10) ((b'0' + n % 10) ∷ rest) (omega arith)
          ∙ scan_one minus (n / 10) (n % 10) rest (omega arith)
          ∙ ap (λ (k : ℕ). scan_digits minus k rest) whole)
]

-- A printed number begins with a digit.
digits_head : (f n : ℕ) → n < f → (c : ℕ) × (s : Bytes) × (digits f n ≡ c ∷ s) × (is_digit c ≡ true)
digits_head zero n h = absurd (omega arith)
digits_head (suc f) n h = elim (ℕ_discrete (n / 10) 0) [
  | yes last ↦ (b'0' + n, [], digits_last f n last, ground arith)
  | no more ↦
      let (c, s, e, d) = digits_head f (n / 10) (omega arith) in
      (c, s ++ (b'0' + n % 10) ∷ [], rw (digits_more f n more, e) refl, d)
]

pub show_nat_head : (n : ℕ) → (c : ℕ) × (s : Bytes) × (show_nat n ≡ c ∷ s) × (is_digit c ≡ true)
unfolding show_nat
show_nat_head n = digits_head (suc n) n (omega arith)

scan_digits-stop :
    (minus : Bool) (n : ℕ) (rest : Bytes)
    → Stops rest
    → scan_digits minus n rest ≡ signed minus n rest
unfolding scan_digits
scan_digits-stop minus n [] h = refl
scan_digits-stop minus n (c ∷ s) h = rw h

digit_not_space : (c : ℕ) → is_digit c ≡ true → is_space c ≡ false
digit_not_space c h = ground arith

-- A text that begins with a digit is read as a number with no sign.
strtol_digit :
    (c : ℕ) (s : Bytes) → is_digit c ≡ true → strtol (c ∷ s) ≡ scan_digits false 0 (c ∷ s)
unfolding strtol
strtol_digit c s h = ground (arith, digit_not_space c)

-- `strtol` reads back a printed number that fits, and stops behind it.
pub strtol-show_nat :
    (n : ℕ) (rest : Bytes)
    → n ≤ long_max
    → Stops rest
    → strtol (show_nat n ++ rest)
      ≡ record { value = pos n; erange = false; converted = true; rest = rest }
strtol-show_nat n rest h stop =
    let (c, s, e, d) = show_nat_head n in
    let step : scan_digits false 0 (show_nat n ++ rest) ≡ signed false n rest =
      unfold show_nat in
      (scan-digits false (suc n) n rest (omega arith) ∙ scan_digits-stop false n rest stop) in
    rw e (strtol_digit c (s ++ rest) d)
    ∙ ap (λ (t : Bytes). scan_digits false 0 (t ++ rest)) (sym e)
    ∙ step
    ∙ (unfold signed in ground arith)

-- What holds of every digit holds of every character of a printed number.
All-digits :
    (P : ℕ → Type 0) (f n : ℕ) → n < f → ((c : ℕ) → is_digit c ≡ true → P c) → All P (digits f n)
All-digits P zero n h g = absurd (omega arith)
All-digits P (suc f) n h g = elim (ℕ_discrete (n / 10) 0) [
  | yes last ↦ rw (digits_last f n last) (g (b'0' + n) (ground arith), tt)
  | no more ↦ rw (digits_more f n more) (
      All-append P (digits f (n / 10)) ((b'0' + n % 10) ∷ [])
        (All-digits P f (n / 10) (omega arith) g) (g (b'0' + n % 10) (ground arith), tt))
]

pub All-show_nat :
    (P : ℕ → Type 0) (n : ℕ) → ((c : ℕ) → is_digit c ≡ true → P c) → All P (show_nat n)
unfolding show_nat
All-show_nat P n g = All-digits P (suc n) n (omega arith) g

pub strtol-show_nat_whole :
    (n : ℕ)
    → n ≤ long_max
    → strtol (show_nat n) ≡ record { value = pos n; erange = false; converted = true; rest = [] }
strtol-show_nat_whole n h = ap strtol (sym (append-nil (show_nat n))) ∙ strtol-show_nat n [] h tt
