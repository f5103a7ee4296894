-- ===== src/Base64/Groups.antt =====
-- The decoder on one group of four characters that the encoder wrote.
use Prim.Native.Nat.{bit_or}
use nbs_framework.Common.{
  ℕ, ◌+◌, ◌*◌, ◌/◌, ◌%◌, ◌^◌, ◌<◌, ◌≤◌, ◌≡◌, ap, ◌∙◌, [], ◌∷◌, ◌++◌, append_assoc, arith, length,
  length-append,
}
use nbs_framework.Common.Text.{Bytes}
use nbs_framework.Common.Outcome.{ok}
use nbs_framework.Base64.{sextet_char, join3, put, put_triple, table_value, decode_group}
use nbs_framework.Base64.Sextets.{join3_sum, join2_sum, join4_sum, sextet_char_lem, padding_value}

put_room : (n : ℕ) (out : Bytes) (v : ℕ) → length out < n → put n out v ≡ out ++ v ∷ []
unfolding put
put_room n out v h = ground arith

put_full : (n : ℕ) (out : Bytes) (v : ℕ) → n ≤ length out → put n out v ≡ out
unfolding put
put_full n out v h = ground arith

put_three :
    (n : ℕ) (out : Bytes) (x y z : ℕ)
    → length out + 3 ≤ n
    → put n (put n (put n out x) y) z ≡ out ++ x ∷ y ∷ z ∷ []
put_three n out x y z h =
    let two : length (out ++ x ∷ y ∷ []) < n = omega (arith, length-append out (x ∷ y ∷ [])) in
    let one : length (out ++ x ∷ []) < n = omega (arith, length-append out (x ∷ [])) in
    rw (put_room n out x (omega arith)) (
      rw (put_room n (out ++ x ∷ []) y one) (
        rw (append_assoc out (x ∷ []) (y ∷ []))
          (rw (put_room n (out ++ x ∷ y ∷ []) z two) (append_assoc out (x ∷ y ∷ []) (z ∷ [])))))

put_two :
    (n : ℕ) (out : Bytes) (x y z : ℕ)
    → length out + 2 ≡ n
    → put n (put n (put n out x) y) z ≡ out ++ x ∷ y ∷ []
put_two n out x y z h =
    let two : n ≤ length (out ++ x ∷ y ∷ []) = omega (arith, length-append out (x ∷ y ∷ [])) in
    let one : length (out ++ x ∷ []) < n = omega (arith, length-append out (x ∷ [])) in
    rw (put_room n out x (omega arith)) (
      rw (put_room n (out ++ x ∷ []) y one)
        (rw (append_assoc out (x ∷ []) (y ∷ [])) (put_full n (out ++ x ∷ y ∷ []) z two)))

put_one :
    (n : ℕ) (out : Bytes) (x y z : ℕ)
    → length out + 1 ≡ n
    → put n (put n (put n out x) y) z ≡ out ++ x ∷ []
put_one n out x y z h =
    let one : n ≤ length (out ++ x ∷ []) = omega (arith, length-append out (x ∷ [])) in
    rw (put_room n out x (omega arith))
      (rw (put_full n (out ++ x ∷ []) y one) (put_full n (out ++ x ∷ []) z one))

-- One group, as arithmetic on the four sextets.
decode_group_sum :
    (n : ℕ) (out : Bytes) (a b c d t : ℕ)
    → table_value a ≤ 64
    → table_value b ≤ 64
    → table_value c ≤ 64
    → table_value d ≤ 64
    → table_value a % 64 * 262144
        + table_value b % 64 * 4096
        + table_value c % 64 * 64
        + table_value d % 64
      ≡ t
    → decode_group n out a b c d
      ≡ ok (put n (put n (put n out (t / 65536 % 256)) (t / 256 % 256)) (t % 256))
unfolding decode_group put_triple
decode_group_sum n out a b c d t ha hb hc hd e =
    rw
      (join4_sum (table_value a % 64) (table_value b % 64) (table_value c % 64) (table_value d % 64)
        (omega arith) (omega arith) (omega arith))
      (rw e (ground arith))

sextet_char-value : (t k : ℕ) → table_value (sextet_char t k) ≡ t / 2 ^ k % 64
sextet_char-value t k = (sextet_char_lem t k).0

-- Three bytes behind their four characters.
pub decode_group_full :
    (n : ℕ) (out : Bytes) (a b c : ℕ)
    → a < 256
    → b < 256
    → c < 256
    → length out + 3 ≤ n
    → decode_group n out
        (sextet_char (join3 a b c) 18)
        (sextet_char (join3 a b c) 12)
        (sextet_char (join3 a b c) 6)
        (sextet_char (join3 a b c) 0)
      ≡ ok (out ++ a ∷ b ∷ c ∷ [])
decode_group_full n out a b c ha hb hc room =
    let t = a * 65536 + b * 256 + c in
    let bytes : (t / 65536 % 256 ≡ a) × (t / 256 % 256 ≡ b) × (t % 256 ≡ c) = omega arith in
    rw (join3_sum a b c hb hc) (
      decode_group_sum n out (sextet_char t 18) (sextet_char t 12) (sextet_char t 6)
        (sextet_char t 0) t (omega (arith, sextet_char-value t 18))
        (omega (arith, sextet_char-value t 12)) (omega (arith, sextet_char-value t 6))
        (omega (arith, sextet_char-value t 0))
        (omega (
          arith,
          sextet_char-value t 18,
          sextet_char-value t 12,
          sextet_char-value t 6,
          sextet_char-value t 0,
        ))
      ∙ rw (bytes.0, bytes.1, bytes.2) (ap ok (put_three n out a b c room)))

-- Two bytes behind three characters and padding.
pub decode_group_two :
    (n : ℕ) (out : Bytes) (a b : ℕ)
    → a < 256
    → b < 256
    → length out + 2 ≡ n
    → decode_group n out
        (sextet_char (bit_or (a * 2 ^ 16) (b * 2 ^ 8)) 18)
        (sextet_char (bit_or (a * 2 ^ 16) (b * 2 ^ 8)) 12)
        (sextet_char (bit_or (a * 2 ^ 16) (b * 2 ^ 8)) 6)
        b'='
      ≡ ok (out ++ a ∷ b ∷ [])
decode_group_two n out a b ha hb room =
    let t = a * 65536 + b * 256 in
    let bytes : (t / 65536 % 256 ≡ a) × (t / 256 % 256 ≡ b) = omega arith in
    rw (join2_sum a b hb) (
      decode_group_sum n out (sextet_char t 18) (sextet_char t 12) (sextet_char t 6) b'=' t
        (omega (arith, sextet_char-value t 18)) (omega (arith, sextet_char-value t 12))
        (omega (arith, sextet_char-value t 6)) (omega (arith, padding_value))
        (omega (
          arith,
          sextet_char-value t 18,
          sextet_char-value t 12,
          sextet_char-value t 6,
          padding_value,
        ))
      ∙ rw (bytes.0, bytes.1) (ap ok (put_two n out a b (t % 256) room)))

-- One byte behind two characters and padding.
pub decode_group_one :
    (n : ℕ) (out : Bytes) (a : ℕ)
    → a < 256
    → length out + 1 ≡ n
    → decode_group n out (sextet_char (a * 2 ^ 16) 18) (sextet_char (a * 2 ^ 16) 12) b'=' b'='
      ≡ ok (out ++ a ∷ [])
decode_group_one n out a ha room =
    let t = a * 65536 in
    let byte : t / 65536 % 256 ≡ a = omega arith in
    decode_group_sum n out (sextet_char t 18) (sextet_char t 12) b'=' b'=' t
      (omega (arith, sextet_char-value t 18)) (omega (arith, sextet_char-value t 12))
      (omega (arith, padding_value)) (omega (arith, padding_value))
      (omega (arith, sextet_char-value t 18, sextet_char-value t 12, padding_value))
    ∙ rw byte (ap ok (put_one n out a (t / 256 % 256) (t % 256) room))
