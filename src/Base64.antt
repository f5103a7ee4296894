-- ===== src/Base64.antt =====
-- src/nbs-chat/base64.c and the size helpers of src/nbs-chat/base64.h: the text form in which chat messages
-- are stored. Buffers are lists of bytes; a call takes the size of the output buffer and returns
-- what it wrote. NULL arguments have no counterpart. The shifts and masks of `unsigned int` are
-- written with `bit_or`, `/` and `%`; every triple is below 2 ^ 24, so nothing wraps.
mod Sextets
pub mod Encode
mod Groups
mod Shape
pub mod RoundTrip
pub mod Padding
pub mod Decode
use Prim.Native.Nat.{bit_or}
use nbs_framework.Common.{
  ℕ, zero, suc, ◌+◌, ◌-◌, ◌*◌, ◌/◌, ◌%◌, ◌^◌, Bool, true, false, not, ◌&&◌, ◌||◌, List, [], ◌∷◌,
  ◌++◌, ltb, leb, ◌==◌, within, if◌then◌else◌, length, get_or, take,
}
use nbs_framework.Common.Text.{Bytes, codes}
use nbs_framework.Common.Outcome.{Outcome, ok, fail, abort, ◌>>=◌, ◌>>◌, assert, require}

abbrev pub size_max : ℕ
size_max = 2 ^ 64 - 1

abbrev pub int_max : ℕ
int_max = 2 ^ 31 - 1

unfoldable pub encode_table : Bytes
encode_table = codes "ABCDEFGHIJKLMNOPQRSTUVWXYZabcdefghijklmnopqrstuvwxyz0123456789+/"

-- Sixteen entries to a line.
unfoldable pub decode_table : Bytes
decode_table =
    255 ∷ 255 ∷ 255 ∷ 255 ∷ 255 ∷ 255 ∷ 255 ∷ 255 ∷ 255 ∷ 255 ∷ 255 ∷ 255 ∷ 255 ∷ 255 ∷ 255 ∷ 255
    ∷ 255 ∷ 255 ∷ 255 ∷ 255 ∷ 255 ∷ 255 ∷ 255 ∷ 255 ∷ 255 ∷ 255 ∷ 255 ∷ 255 ∷ 255 ∷ 255 ∷ 255 ∷ 255
    ∷ 255 ∷ 255 ∷ 255 ∷ 255 ∷ 255 ∷ 255 ∷ 255 ∷ 255 ∷ 255 ∷ 255 ∷ 255 ∷ 62 ∷ 255 ∷ 255 ∷ 255 ∷ 63
    ∷ 52 ∷ 53 ∷ 54 ∷ 55 ∷ 56 ∷ 57 ∷ 58 ∷ 59 ∷ 60 ∷ 61 ∷ 255 ∷ 255 ∷ 255 ∷ 64 ∷ 255 ∷ 255 ∷ 255 ∷ 0
    ∷ 1 ∷ 2 ∷ 3 ∷ 4 ∷ 5 ∷ 6 ∷ 7 ∷ 8 ∷ 9 ∷ 10 ∷ 11 ∷ 12 ∷ 13 ∷ 14 ∷ 15 ∷ 16 ∷ 17 ∷ 18 ∷ 19 ∷ 20 ∷ 21
    ∷ 22 ∷ 23 ∷ 24 ∷ 25 ∷ 255 ∷ 255 ∷ 255 ∷ 255 ∷ 255 ∷ 255 ∷ 26 ∷ 27 ∷ 28 ∷ 29 ∷ 30 ∷ 31 ∷ 32 ∷ 33
    ∷ 34 ∷ 35 ∷ 36 ∷ 37 ∷ 38 ∷ 39 ∷ 40 ∷ 41 ∷ 42 ∷ 43 ∷ 44 ∷ 45 ∷ 46 ∷ 47 ∷ 48 ∷ 49 ∷ 50 ∷ 51 ∷ 255
    ∷ 255 ∷ 255 ∷ 255 ∷ 255 ∷ 255 ∷ 255 ∷ 255 ∷ 255 ∷ 255 ∷ 255 ∷ 255 ∷ 255 ∷ 255 ∷ 255 ∷ 255 ∷ 255
    ∷ 255 ∷ 255 ∷ 255 ∷ 255 ∷ 255 ∷ 255 ∷ 255 ∷ 255 ∷ 255 ∷ 255 ∷ 255 ∷ 255 ∷ 255 ∷ 255 ∷ 255 ∷ 255
    ∷ 255 ∷ 255 ∷ 255 ∷ 255 ∷ 255 ∷ 255 ∷ 255 ∷ 255 ∷ 255 ∷ 255 ∷ 255 ∷ 255 ∷ 255 ∷ 255 ∷ 255 ∷ 255
    ∷ 255 ∷ 255 ∷ 255 ∷ 255 ∷ 255 ∷ 255 ∷ 255 ∷ 255 ∷ 255 ∷ 255 ∷ 255 ∷ 255 ∷ 255 ∷ 255 ∷ 255 ∷ 255
    ∷ 255 ∷ 255 ∷ 255 ∷ 255 ∷ 255 ∷ 255 ∷ 255 ∷ 255 ∷ 255 ∷ 255 ∷ 255 ∷ 255 ∷ 255 ∷ 255 ∷ 255 ∷ 255
    ∷ 255 ∷ 255 ∷ 255 ∷ 255 ∷ 255 ∷ 255 ∷ 255 ∷ 255 ∷ 255 ∷ 255 ∷ 255 ∷ 255 ∷ 255 ∷ 255 ∷ 255 ∷ 255
    ∷ 255 ∷ 255 ∷ 255 ∷ 255 ∷ 255 ∷ 255 ∷ 255 ∷ 255 ∷ 255 ∷ 255 ∷ 255 ∷ 255 ∷ 255 ∷ 255 ∷ 255 ∷ 255
    ∷ 255 ∷ 255 ∷ 255 ∷ 255 ∷ 255 ∷ 255 ∷ 255 ∷ 255 ∷ 255 ∷ 255 ∷ 255 ∷ 255 ∷ 255 ∷ 255 ∷ 255 ∷ 255
    ∷ 255 ∷ 255 ∷ 255 ∷ 255 ∷ []

unfoldable pub is_valid_char : ℕ → Bool
is_valid_char c =
    c == b'='
    || c == b'+'
    || c == b'/'
    || within b'A' b'Z' c
    || within b'a' b'z' c
    || within b'0' b'9' c

unfoldable pub encoded_size : ℕ → Outcome ℕ
encoded_size n = do assert (leb n ((size_max - 4) / 4 * 3)); ok ((n + 2) / 3 * 4 + 1)

unfoldable pub decoded_size : ℕ → Outcome ℕ
decoded_size n = do assert (n % 4 == 0 || n == 0); assert (leb n (size_max - 3)); ok (n / 4 * 3 + 3)

-- `encode_table[(triple >> k) & 0x3F]`
unfoldable pub sextet_char : ℕ → ℕ → ℕ
sextet_char triple k = get_or encode_table (triple / 2 ^ k % 64) 0

unfoldable pub join3 : ℕ → ℕ → ℕ → ℕ
join3 a b c = bit_or (bit_or (a * 2 ^ 16) (b * 2 ^ 8)) c

-- The loop over groups of three bytes, and the code for the one or two bytes behind it.
unfoldable pub encode_groups : Bytes → Bytes
encode_groups [] = []
encode_groups (a ∷ []) =
    let triple = a * 2 ^ 16 in sextet_char triple 18 ∷ sextet_char triple 12 ∷ b'=' ∷ b'=' ∷ []
encode_groups (a ∷ b ∷ []) =
    let triple = bit_or (a * 2 ^ 16) (b * 2 ^ 8) in
    sextet_char triple 18 ∷ sextet_char triple 12 ∷ sextet_char triple 6 ∷ b'=' ∷ []
encode_groups (a ∷ b ∷ c ∷ rest) =
    let triple = join3 a b c in
    sextet_char triple 18
    ∷ sextet_char triple 12
    ∷ sextet_char triple 6
    ∷ sextet_char triple 0
    ∷ encode_groups rest

unfoldable pub all_valid : Bytes → Bool
all_valid [] = true
all_valid (c ∷ s) = is_valid_char c && all_valid s

unfoldable pub encode : Bytes → ℕ → Outcome Bytes
encode input output_size = do
  assert (leb (length input) ((size_max - 4) / 4 * 3))
  assert (leb (length input) (int_max / 4 * 3))
  needed ← encoded_size (length input)
  require (leb needed output_size) 1
  let out = encode_groups input
  assert (length out == needed - 1)
  assert (leb (length out) int_max)
  assert (all_valid out)
  ok out

unfoldable pub is_trailing : ℕ → Bool
is_trailing c = c == b'\n' || c == b'\r' || c == b' '

-- The loop that lowers `input_len` past trailing whitespace.
unfoldable pub strip_len : Bytes → ℕ → ℕ
strip_len input zero = zero
strip_len input (suc n) =
    let shorter = strip_len input n in if is_trailing (get_or input n 0) then shorter else suc n

unfoldable pub all_padding : Bytes → Bool
all_padding [] = true
all_padding (c ∷ s) = c == b'=' && all_padding s

-- The loop that checks every character and where padding stands; `i` is the position of the
-- list's first character, and `n` the input's length.
unfoldable pub validate : ℕ → ℕ → Bytes → Bool
validate i n [] = true
validate i n (c ∷ s) =
    let block_start = i / 4 * 4 in
    let later = validate (i + 1) n s in
    if not (is_valid_char c)
    then false
    else if c == b'='
    then (if not (block_start + 4 == n)
        then false
        else if ltb (i - block_start) 2
        then false
        else all_padding s)
    else later

-- `if (j < out_len) output[j++] = v;`
unfoldable pub put : ℕ → Bytes → ℕ → Bytes
put out_len out v = if ltb (length out) out_len then out ++ v ∷ [] else out

unfoldable pub table_value : ℕ → ℕ
table_value c = get_or decode_table c 255

unfoldable pub join4 : ℕ → ℕ → ℕ → ℕ → ℕ
join4 a b c d = bit_or (bit_or (bit_or (a * 2 ^ 18) (b * 2 ^ 12)) (c * 2 ^ 6)) d

unfoldable pub put_triple : ℕ → Bytes → ℕ → Bytes
put_triple out_len out triple =
    put out_len (put out_len (put out_len out (triple / 2 ^ 16 % 256)) (triple / 2 ^ 8 % 256))
      (triple % 256)

unfoldable pub decode_group : ℕ → Bytes → ℕ → ℕ → ℕ → ℕ → Outcome Bytes
decode_group out_len out a b c d = do
  assert (not (table_value a == 255))
  assert (not (table_value b == 255))
  assert (not (table_value c == 255))
  assert (not (table_value d == 255))
  let triple =
      join4 (table_value a % 64) (table_value b % 64) (table_value c % 64) (table_value d % 64)
  ok (put_triple out_len out triple)

-- The loop over groups of four characters. It would read out of bounds on a group that is not
-- whole, which `abort` stands for; the length has been checked before.
unfoldable pub decode_groups : ℕ → Bytes → Bytes → Outcome Bytes
decode_groups out_len out [] = ok out
decode_groups out_len out (a ∷ b ∷ c ∷ d ∷ rest) = do
  out' ← decode_group out_len out a b c d
  decode_groups out_len out' rest
decode_groups out_len out _ = abort

-- The exact length of the output for `n` checked characters.
unfoldable pub output_length : Bytes → ℕ → ℕ
output_length input n =
    let full = n / 4 * 3 in
    let less = if get_or input (n - 1) 0 == b'=' then full - 1 else full in
    if get_or input (n - 2) 0 == b'=' then less - 1 else less

-- What `decode` does behind the empty case, on `n` characters.
unfoldable pub decode_checked : Bytes → ℕ → ℕ → Outcome Bytes
decode_checked input output_size n = do
  require (n % 4 == 0) 1
  require (validate 0 n (take n input)) 1
  let out_len = output_length input n
  require (leb out_len output_size) 1
  out ← decode_groups out_len [] (take n input)
  assert (length out == out_len)
  assert (leb out_len int_max)
  ok out

-- What `decode` does on input that is empty or all whitespace.
unfoldable pub decode_empty : ℕ → Outcome Bytes
decode_empty output_size = do assert (leb 1 output_size); ok []

unfoldable pub decode : Bytes → ℕ → Outcome Bytes
unfolding decode_empty
decode input output_size = do
  assert (leb (length input) (int_max / 3 * 4 + 4))
  let n = strip_len input (length input)
  (if n == 0 then decode_empty output_size else decode_checked input output_size n)
