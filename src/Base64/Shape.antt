-- ===== src/Base64/Shape.antt =====
-- The text that the encoder writes passes the decoder's checks.
use Prim.Native.Nat.{bit_or}
use mathlib.Core.List.{cons-ne-nil}
use nbs_framework.Common.{
  ℕ, zero, suc, ◌+◌, ◌-◌, ◌*◌, ◌%◌, ◌^◌, ◌<◌, ◌≤◌, ◌≡◌, ◌≢◌, refl, true, false, [], ◌∷◌, arith,
  length, get_or,
}
use nbs_framework.Common.Text.{Bytes}
use nbs_framework.Base64.{
  is_valid_char, sextet_char, join3, encode_groups, all_valid, is_trailing, strip_len, all_padding,
  validate, output_length,
}
use nbs_framework.Base64.Sextets.{sextet_char_lem}
use nbs_framework.Base64.Encode.{length-encode_groups, all_valid-encode_groups}

-- Valid text has no whitespace at its end to strip.
valid_at :
    (s : Bytes) (m : ℕ) → all_valid s ≡ true → m < length s → is_valid_char (get_or s m 0) ≡ true
unfolding all_valid
valid_at [] m h lt = elim lt [ ]
valid_at (c ∷ s) zero h lt = ground arith
valid_at (c ∷ s) (suc m) h lt = ground (arith, valid_at s m)

valid_not_trailing : (c : ℕ) → is_valid_char c ≡ true → is_trailing c ≡ false
unfolding is_valid_char is_trailing
valid_not_trailing c h = ground arith

strip_len_kept : (s : Bytes) (n : ℕ) → all_valid s ≡ true → n ≤ length s → strip_len s n ≡ n
unfolding strip_len
strip_len_kept s zero h le = refl
strip_len_kept s (suc n) h le = rw (valid_not_trailing (get_or s n 0) (valid_at s n h le)) refl

pub strip_len-encode_groups :
    (xs : Bytes)
    → strip_len (encode_groups xs) (length (encode_groups xs)) ≡ length (encode_groups xs)
strip_len-encode_groups xs =
    strip_len_kept (encode_groups xs) (length (encode_groups xs)) (all_valid-encode_groups xs)
      (omega arith)

-- A character of the encoder is passed over by the check.
validate_sextet :
    (i n t k : ℕ) (s : Bytes) → validate i n (sextet_char t k ∷ s) ≡ validate (i + 1) n s
unfolding validate
validate_sextet i n t k s = ground (arith, sextet_char_lem t k)

-- Padding in the last block.
validate_one : (i n : ℕ) → i % 4 ≡ 2 → i + 2 ≡ n → validate i n (b'=' ∷ b'=' ∷ []) ≡ true
unfolding validate is_valid_char all_padding
validate_one i n h e = ground arith

validate_two : (i n : ℕ) → i % 4 ≡ 3 → i + 1 ≡ n → validate i n (b'=' ∷ []) ≡ true
unfolding validate is_valid_char all_padding
validate_two i n h e = ground arith

pub validate-encode_groups :
    (i n : ℕ) (xs : Bytes)
    → i % 4 ≡ 0
    → i + length (encode_groups xs) ≡ n
    → validate i n (encode_groups xs) ≡ true
unfolding encode_groups
validate-encode_groups i n [] h e = unfold validate in refl
validate-encode_groups i n (a ∷ []) h e =
    rw (validate_sextet, validate_sextet) (validate_one (i + 1 + 1) n (omega arith) (omega arith))
validate-encode_groups i n (a ∷ b ∷ []) h e =
    rw (validate_sextet, validate_sextet, validate_sextet)
      (validate_two (i + 1 + 1 + 1) n (omega arith) (omega arith))
validate-encode_groups i n (a ∷ b ∷ c ∷ xs) h e =
    rw (validate_sextet, validate_sextet, validate_sextet, validate_sextet)
      (validate-encode_groups (i + 1 + 1 + 1 + 1) n xs (omega arith) (omega arith))

-- Four characters in front of a text that has at least four add three bytes.
pub output_length_cons :
    (a b c d : ℕ) (s : Bytes) (m : ℕ)
    → length s ≡ m + 4
    → output_length (a ∷ b ∷ c ∷ d ∷ s) (m + 8) ≡ output_length s (m + 4) + 3
unfolding output_length
output_length_cons a b c d s m h =
    let last : m + 8 - 1 ≡ suc (suc (suc (suc (m + 4 - 1)))) = omega arith in
    let before : m + 8 - 2 ≡ suc (suc (suc (suc (m + 4 - 2)))) = omega arith in
    rw (last, before) (ground arith)

pub output_length-encode_groups :
    (xs : Bytes)
    → xs ≢ []
    → output_length (encode_groups xs) (length (encode_groups xs)) ≡ length xs
unfolding encode_groups
output_length-encode_groups [] ne = absurd (ne refl)
output_length-encode_groups (a ∷ []) ne = unfold output_length in refl
output_length-encode_groups (a ∷ b ∷ []) ne =
    unfold output_length in ground (arith, sextet_char_lem (bit_or (a * 2 ^ 16) (b * 2 ^ 8)) 6)
output_length-encode_groups (a ∷ b ∷ c ∷ []) ne =
    unfold output_length in
    ground (arith, sextet_char_lem (join3 a b c) 6, sextet_char_lem (join3 a b c) 0)
output_length-encode_groups (a ∷ b ∷ c ∷ x ∷ xs) ne =
    let rest = encode_groups (x ∷ xs) in
    let m = length rest - 4 in
    let four : length rest ≡ m + 4 = omega (arith, length-encode_groups (x ∷ xs)) in
    let total : suc (suc (suc (suc (length rest)))) ≡ m + 8 = omega arith in
    rw total (
      rw
        (output_length_cons (sextet_char (join3 a b c) 18) (sextet_char (join3 a b c) 12)
          (sextet_char (join3 a b c) 6) (sextet_char (join3 a b c) 0) rest m four)
        (rw (← four) (omega (arith, output_length-encode_groups (x ∷ xs) (cons-ne-nil x xs)))))
