-- ===== src/Base64/RoundTrip.antt =====
-- Decoding what the encoder wrote.
use mathlib.Core.List.{cons-ne-nil}
use nbs_framework.Common.{
  ℕ, ◌+◌, ◌*◌, ◌/◌, ◌<◌, ◌≤◌, ◌≡◌, ◌≢◌, refl, ap, ◌∙◌, [], ◌∷◌, ◌++◌, append_assoc, append-nil,
  arith, length, length-append, take-length, All,
}
use nbs_framework.Common.Text.{Bytes, IsByte}
use nbs_framework.Common.Outcome.{ok, ◌>>=◌}
use nbs_framework.Base64.{
  int_max, encode_groups, encode, strip_len, decode_groups, decode_checked, decode,
}
use nbs_framework.Base64.Encode.{length-encode_groups, encode-encode_groups}
use nbs_framework.Base64.Groups.{decode_group_full, decode_group_two, decode_group_one}
use nbs_framework.Base64.Shape.{
  strip_len-encode_groups, validate-encode_groups, output_length-encode_groups,
}

decode_groups-encode_groups :
    (n : ℕ) (out xs : Bytes)
    → All IsByte xs
    → length out + length xs ≡ n
    → decode_groups n out (encode_groups xs) ≡ ok (out ++ xs)
unfolding decode_groups encode_groups
decode_groups-encode_groups n out [] h e = rw append-nil
decode_groups-encode_groups n out (a ∷ []) h e = rw (decode_group_one n out a h.0 e)
decode_groups-encode_groups n out (a ∷ b ∷ []) h e = rw (decode_group_two n out a b h.0 h.1.0 e)
decode_groups-encode_groups n out (a ∷ b ∷ c ∷ xs) h e =
    rw (decode_group_full n out a b c h.0 h.1.0 h.1.1.0 (omega arith)) (
      decode_groups-encode_groups n (out ++ a ∷ b ∷ c ∷ []) xs h.1.1.1
        (omega (arith, length-append out (a ∷ b ∷ c ∷ [])))
      ∙ ap ok (append_assoc out (a ∷ b ∷ c ∷ []) xs))

decode_checked-encode_groups :
    (xs : Bytes) (size : ℕ)
    → xs ≢ []
    → All IsByte xs
    → length xs ≤ int_max
    → length xs ≤ size
    → decode_checked (encode_groups xs) size (length (encode_groups xs)) ≡ ok xs
unfolding decode_checked
decode_checked-encode_groups xs size ne bytes fits room = rw (take-length (encode_groups xs)) (
    rw (validate-encode_groups 0 (length (encode_groups xs)) xs refl (omega arith)) (
      rw (output_length-encode_groups xs ne) (
        rw (decode_groups-encode_groups (length xs) [] xs bytes (omega arith))
          (ground (arith, length-encode_groups xs)))))

pub decode-encode_groups :
    (xs : Bytes) (size : ℕ)
    → All IsByte xs
    → length xs ≤ int_max / 4 * 3
    → length xs ≤ size
    → 0 < size
    → decode (encode_groups xs) size ≡ ok xs
unfolding decode
decode-encode_groups [] size bytes fits room some_room =
    unfold encode_groups strip_len in ground arith
decode-encode_groups (x ∷ xs) size bytes fits room some_room =
    rw (strip_len-encode_groups (x ∷ xs)) (
      ground (
        arith,
        length-encode_groups (x ∷ xs),
        decode_checked-encode_groups (x ∷ xs) size (cons-ne-nil x xs) bytes,
      ))

-- Bytes that fit the encoder's limit are encoded when the buffer holds the text and its NUL, and
-- decoding the text, into a buffer that holds them and has at least one byte, gives them back.
pub decode-encode :
    (xs : Bytes) (text_size size : ℕ)
    → All IsByte xs
    → length xs ≤ int_max / 4 * 3
    → (length xs + 2) / 3 * 4 + 1 ≤ text_size
    → length xs ≤ size
    → 0 < size
    → (do s ← encode xs text_size; decode s size) ≡ ok xs
decode-encode xs text_size size bytes fits text_room room some_room =
    rw (encode-encode_groups xs text_size fits text_room)
      (decode-encode_groups xs size bytes fits room some_room)
