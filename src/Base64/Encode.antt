-- ===== src/Base64/Encode.antt =====
-- The text that the encoder writes: its length and its characters.
use native.Mathlib.Decide.{dec_lt}
use nbs_framework.Common.{
  ◌⊎◌, inl, inr, ℕ, ◌+◌, ◌*◌, ◌/◌, ◌<◌, ◌≤◌, ◌≡◌, refl, true, [], ◌∷◌, arith, length,
}
use nbs_framework.Common.Text.{Bytes}
use nbs_framework.Common.Outcome.{ok, fail}
use nbs_framework.Base64.{int_max, is_valid_char, encoded_size, encode_groups, all_valid, encode}
use nbs_framework.Base64.Sextets.{sextet_char_lem}

pub length-encode_groups : (xs : Bytes) → length (encode_groups xs) ≡ (length xs + 2) / 3 * 4
unfolding encode_groups
length-encode_groups [] = omega arith
length-encode_groups (a ∷ []) = omega arith
length-encode_groups (a ∷ b ∷ []) = omega arith
length-encode_groups (a ∷ b ∷ c ∷ xs) = omega (arith, length-encode_groups xs)

padding_valid : is_valid_char b'=' ≡ true
unfolding is_valid_char
padding_valid = refl

pub all_valid-encode_groups : (xs : Bytes) → all_valid (encode_groups xs) ≡ true
unfolding encode_groups all_valid
all_valid-encode_groups [] = refl
all_valid-encode_groups (a ∷ []) = simp ((λ (t k : ℕ). (sextet_char_lem t k).1), padding_valid)
all_valid-encode_groups (a ∷ b ∷ []) = simp ((λ (t k : ℕ). (sextet_char_lem t k).1), padding_valid)
all_valid-encode_groups (a ∷ b ∷ c ∷ xs) =
    simp ((λ (t k : ℕ). (sextet_char_lem t k).1), all_valid-encode_groups xs)

-- With room for the text and its NUL the encoder returns the text.
pub encode-encode_groups :
    (xs : Bytes) (size : ℕ)
    → length xs ≤ int_max / 4 * 3
    → (length xs + 2) / 3 * 4 + 1 ≤ size
    → encode xs size ≡ ok (encode_groups xs)
unfolding encode encoded_size
encode-encode_groups xs size h room =
    ground (arith, length-encode_groups xs, all_valid-encode_groups xs)

pub encode_refuses :
    (xs : Bytes) (size : ℕ)
    → length xs ≤ int_max / 4 * 3
    → size < (length xs + 2) / 3 * 4 + 1
    → encode xs size ≡ fail 1
unfolding encode encoded_size
encode_refuses xs size h small = ground arith

-- Within the length limit the encoder never aborts. It returns valid characters, four for each
-- three bytes begun, when the buffer holds them and the NUL, and -1 when it does not.
pub encode_total :
    (xs : Bytes) (size : ℕ)
    → length xs ≤ int_max / 4 * 3
    → ((s : Bytes) × (encode xs size ≡ ok s)
        × (length s ≡ (length xs + 2) / 3 * 4)
        × (all_valid s ≡ true)
        × (length s < size))
      ⊎ ((encode xs size ≡ fail 1) × (size ≤ (length xs + 2) / 3 * 4))
encode_total xs size h = elim (dec_lt ((length xs + 2) / 3 * 4) size) [
  | yes room ↦ inl (
    encode_groups xs,
    encode-encode_groups xs size h (omega arith),
    length-encode_groups xs,
    all_valid-encode_groups xs,
    omega (arith, length-encode_groups xs),
  )
  | no small ↦ inr (encode_refuses xs size h (omega arith), omega arith)
]
