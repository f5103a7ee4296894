-- ===== src/Base64/Padding.antt =====
-- The texts that pass the check of characters and padding.
use nbs_framework.Common.{
  ℕ, ◌+◌, ◌*◌, ◌/◌, ◌%◌, ◌<◌, ◌≡◌, ◌≢◌, ◌⊎◌, inl, inr, refl, true, [], ◌∷◌, arith, length,
}
use nbs_framework.Common.Text.{Bytes}
use nbs_framework.Base64.{is_valid_char, all_padding, validate}

-- A character of the alphabet, without the padding.
abbrev pub IsSextet : ℕ → Type 0
IsSextet c = (is_valid_char c ≡ true) × (c ≢ b'=')

-- Blocks of four, the last one with at most two places of padding.
pub data IsPadded : Bytes → Type 0 where
  empty : IsPadded []
  one_byte :
      {a b c d : ℕ} → IsSextet a → IsSextet b → c ≡ b'=' → d ≡ b'=' → IsPadded (a ∷ b ∷ c ∷ d ∷ [])
  two_bytes :
      {a b c d : ℕ}
      → IsSextet a
      → IsSextet b
      → IsSextet c
      → d ≡ b'='
      → IsPadded (a ∷ b ∷ c ∷ d ∷ [])
  block :
      {a b c d : ℕ} {s : Bytes}
      → IsSextet a
      → IsSextet b
      → IsSextet c
      → IsSextet d
      → IsPadded s
      → IsPadded (a ∷ b ∷ c ∷ d ∷ s)

-- The check of one character that is no padding.
validate_pass : (i n c : ℕ) (s : Bytes) → IsSextet c → validate i n (c ∷ s) ≡ validate (i + 1) n s
unfolding validate
validate_pass i n c s h = ground arith

-- The first two places of a block are never padding.
validate_early :
    (i n c : ℕ) (s : Bytes)
    → i % 4 < 2
    → validate i n (c ∷ s) ≡ true
    → IsSextet c × (validate (i + 1) n s ≡ true)
unfolding validate
validate_early i n c s h v = ground arith

-- A later place is padding only in the last block, with padding behind it.
validate_late :
    (i n c : ℕ) (s : Bytes)
    → validate i n (c ∷ s) ≡ true
    → (IsSextet c × (validate (i + 1) n s ≡ true))
      ⊎ ((c ≡ b'=') × (i / 4 * 4 + 4 ≡ n) × (all_padding s ≡ true))
unfolding validate
validate_late i n c s v = ground arith

all_padding_head :
    (c : ℕ) (s : Bytes) → all_padding (c ∷ s) ≡ true → (c ≡ b'=') × (all_padding s ≡ true)
unfolding all_padding
all_padding_head c s h = ground arith

length_zero : (s : Bytes) → length s ≡ 0 → s ≡ []
length_zero [] h = refl
length_zero (c ∷ s) h = absurd (omega arith)

-- What passes the check is padded.
pub validate-IsPadded :
    (i n : ℕ) (s : Bytes)
    → i % 4 ≡ 0
    → i + length s ≡ n
    → length s % 4 ≡ 0
    → validate i n s ≡ true
    → IsPadded s
validate-IsPadded i n [] h e m v = empty
validate-IsPadded i n (a ∷ []) h e m v = absurd (omega arith)
validate-IsPadded i n (a ∷ b ∷ []) h e m v = absurd (omega arith)
validate-IsPadded i n (a ∷ b ∷ c ∷ []) h e m v = absurd (omega arith)
validate-IsPadded i n (a ∷ b ∷ c ∷ d ∷ s) h e m v =
    let (sa, va) = validate_early i n a (b ∷ c ∷ d ∷ s) (omega arith) v in
    let (sb, vb) = validate_early (i + 1) n b (c ∷ d ∷ s) (omega arith) va in
    elim (validate_late (i + 1 + 1) n c (d ∷ s) vb) [
      | inr (ec, here, pads) ↦
          let none_left : s ≡ [] = length_zero s (omega arith) in
          rw none_left (one_byte sa sb ec (all_padding_head d s pads).0)
      | inl (sc, vc) ↦ elim (validate_late (i + 1 + 1 + 1) n d s vc) [
        | inr (ed, here, pads) ↦
            let none_left : s ≡ [] = length_zero s (omega arith) in
            rw none_left (two_bytes sa sb sc ed)
        | inl (sd, vd) ↦
            block sa sb sc sd (
              validate-IsPadded (i + 1 + 1 + 1 + 1) n s (omega arith) (omega arith) (omega arith)
                vd)
      ]
    ]

-- Padded text passes the check.
pub IsPadded-validate :
    (i n : ℕ) {s : Bytes} → IsPadded s → i % 4 ≡ 0 → i + length s ≡ n → validate i n s ≡ true
IsPadded-validate i n empty h e = unfold validate in refl
IsPadded-validate i n (one_byte {a} {b} {c} {d} sa sb ec ed) h e =
    rw (validate_pass i n a (b ∷ c ∷ d ∷ []) sa) (
      rw (validate_pass (i + 1) n b (c ∷ d ∷ []) sb)
        (unfold validate is_valid_char all_padding in ground arith))
IsPadded-validate i n (two_bytes {a} {b} {c} {d} sa sb sc ed) h e =
    rw (validate_pass i n a (b ∷ c ∷ d ∷ []) sa) (
      rw (validate_pass (i + 1) n b (c ∷ d ∷ []) sb) (
        rw (validate_pass (i + 1 + 1) n c (d ∷ []) sc)
          (unfold validate is_valid_char all_padding in ground arith)))
IsPadded-validate i n (block {a} {b} {c} {d} {s} sa sb sc sd p) h e =
    rw (validate_pass i n a (b ∷ c ∷ d ∷ s) sa) (
      rw (validate_pass (i + 1) n b (c ∷ d ∷ s) sb) (
        rw (validate_pass (i + 1 + 1) n c (d ∷ s) sc) (
          rw (validate_pass (i + 1 + 1 + 1) n d s sd)
            (IsPadded-validate (i + 1 + 1 + 1 + 1) n p (omega arith) (omega arith)))))
