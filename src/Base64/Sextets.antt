-- ===== src/Base64/Sextets.antt =====
-- The arithmetic of one group: three bytes into four sextets and back, and the two tables.
use Prim.Native.Nat.{bit_or}
use nbs_framework.Common.{
  ℕ, ◌+◌, ◌*◌, ◌/◌, ◌%◌, ◌^◌, ◌<◌, ◌≡◌, ◌≢◌, refl, Bool, true, not, ◌&&◌, arith, ◌==◌,
  if◌then◌else◌, get_or, passes_from, passes_from_sound,
}
use nbs_framework.Common.Bits.{bit_or-shifted}
use nbs_framework.Base64.{
  encode_table, decode_table, sextet_char, table_value, is_valid_char, join3, join4,
}

pub join3_sum : (a b c : ℕ) → b < 256 → c < 256 → join3 a b c ≡ a * 65536 + b * 256 + c
unfolding join3
join3_sum a b c hb hc =
    let high : bit_or (a * 2 ^ 16) (b * 2 ^ 8) ≡ a * 2 ^ 16 + b * 2 ^ 8 =
      bit_or-shifted 16 a (b * 2 ^ 8) (omega arith) in
    let shift : a * 2 ^ 16 + b * 2 ^ 8 ≡ (a * 256 + b) * 2 ^ 8 = omega arith in
    rw (high, shift) (rw (bit_or-shifted 8 (a * 256 + b) c (omega arith)) (omega arith))

pub join2_sum : (a b : ℕ) → b < 256 → bit_or (a * 2 ^ 16) (b * 2 ^ 8) ≡ a * 65536 + b * 256
join2_sum a b hb = rw (bit_or-shifted 16 a (b * 2 ^ 8) (omega arith)) (omega arith)

pub join4_sum :
    (a b c d : ℕ) → b < 64 → c < 64 → d < 64 → join4 a b c d ≡ a * 262144 + b * 4096 + c * 64 + d
unfolding join4
join4_sum a b c d hb hc hd =
    let first : bit_or (a * 2 ^ 18) (b * 2 ^ 12) ≡ (a * 64 + b) * 2 ^ 12 =
      rw (bit_or-shifted 18 a (b * 2 ^ 12) (omega arith)) (omega arith) in
    let second : bit_or ((a * 64 + b) * 2 ^ 12) (c * 2 ^ 6) ≡ (a * 4096 + b * 64 + c) * 2 ^ 6 =
      rw (bit_or-shifted 12 (a * 64 + b) (c * 2 ^ 6) (omega arith)) (omega arith) in
    rw (first, second) (rw (bit_or-shifted 6 (a * 4096 + b * 64 + c) d (omega arith)) (omega arith))

-- What the tables say of each sextet.
table_test : ℕ → Bool
table_test v =
    let c = get_or encode_table v 0 in
    get_or decode_table c 255 == v && is_valid_char c && not (c == b'=')

table_test_all : passes_from table_test 0 64 ≡ true
unfolding passes_from table_test encode_table decode_table is_valid_char
table_test_all = refl

table_test_at : (v : ℕ) → v < 64 → table_test v ≡ true
table_test_at v h = passes_from_sound table_test 0 64 v (omega arith) h table_test_all

-- A character of the encoder stands for its sextet, is valid and is no padding.
pub sextet_char_lem :
    (t k : ℕ)
    → (table_value (sextet_char t k) ≡ t / 2 ^ k % 64)
      × (is_valid_char (sextet_char t k) ≡ true)
      × (sextet_char t k ≢ b'=')
unfolding sextet_char table_value table_test
sextet_char_lem t k = ground (arith, table_test_at (t / 2 ^ k % 64))

valid_test : ℕ → Bool
valid_test c = if is_valid_char c then not (table_value c == 255) else true

valid_test_all : passes_from valid_test 0 256 ≡ true
unfolding passes_from valid_test table_value decode_table is_valid_char
valid_test_all = refl

pub padding_value : table_value b'=' ≡ 64
unfolding table_value decode_table
padding_value = refl

is_valid_char-lt : (c : ℕ) → is_valid_char c ≡ true → c < 256
unfolding is_valid_char
is_valid_char-lt c h = ground arith

-- The sentinel of the decode table is met by no valid character.
pub table_value-ne : (c : ℕ) → is_valid_char c ≡ true → table_value c ≢ 255
unfolding valid_test
table_value-ne c h =
    let found : valid_test c ≡ true =
      passes_from_sound valid_test 0 256 c (omega arith) (is_valid_char-lt c h) valid_test_all in
    ground (arith, found)
