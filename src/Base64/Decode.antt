-- ===== src/Base64/Decode.antt =====
-- The decoder's answer on every input: its assertions never fire.
use native.Mathlib.Decide.{dec_lt, ℕ_discrete}
use nbs_framework.Common.{
  ℕ, zero, suc, ◌+◌, ◌-◌, ◌*◌, ◌/◌, ◌%◌, ◌^◌, ◌<◌, ◌≤◌, ◌≡◌, ◌≢◌, ◌⊎◌, inl, inr, refl, sym, ◌∙◌,
  true, false, [], ◌∷◌, min, arith, Bool-cases, length, length-append, get_or, take, length-take,
}
use nbs_framework.Common.Text.{Bytes}
use nbs_framework.Common.Outcome.{ok, fail, Outcome}
use nbs_framework.Base64.{
  int_max, is_valid_char, strip_len, validate, put, join4, put_triple, table_value, decode_group,
  decode_groups, output_length, decode_checked, decode,
}
use nbs_framework.Base64.Padding.{
  IsSextet, IsPadded, empty, one_byte, two_bytes, block, validate-IsPadded, IsPadded-validate,
}
use nbs_framework.Base64.Sextets.{table_value-ne}
use nbs_framework.Base64.Shape.{output_length_cons}

length-put :
    (n : ℕ) (out : Bytes) (v : ℕ) → length out ≤ n → length (put n out v) ≡ min n (length out + 1)
unfolding put
length-put n out v h = ground (arith, length-append out (v ∷ []))

length-put_triple :
    (n : ℕ) (out : Bytes) (t : ℕ)
    → length out ≤ n
    → length (put_triple n out t) ≡ min n (length out + 3)
unfolding put_triple
length-put_triple n out t h =
    let x = t / 2 ^ 16 % 256 in
    let y = t / 2 ^ 8 % 256 in
    let one = length-put n out x h in
    let two = length-put n (put n out x) y (omega arith) in
    omega (arith, one, two, length-put n (put n (put n out x) y) (t % 256) (omega arith))

-- A block of valid characters yields its bytes, up to the length asked for.
decode_group_total :
    (n : ℕ) (out : Bytes) (a b c d : ℕ)
    → is_valid_char a ≡ true
    → is_valid_char b ≡ true
    → is_valid_char c ≡ true
    → is_valid_char d ≡ true
    → length out ≤ n
    → (out' : Bytes) × (decode_group n out a b c d ≡ ok out')
      × (length out' ≡ min n (length out + 3))
unfolding decode_group
decode_group_total n out a b c d ha hb hc hd room = (
  put_triple n out
      (join4 (table_value a % 64) (table_value b % 64) (table_value c % 64) (table_value d % 64)),
  ground
      (arith, table_value-ne a ha, table_value-ne b hb, table_value-ne c hc, table_value-ne d hd),
  length-put_triple n out _ room,
)

padding_valid : is_valid_char b'=' ≡ true
unfolding is_valid_char
padding_valid = refl

pad_valid : (c : ℕ) → c ≡ b'=' → is_valid_char c ≡ true
pad_valid c e = rw e padding_valid

-- The exact length of the output of padded text, block by block.
output_length_block :
    (a b c d : ℕ) {s : Bytes}
    → IsSextet c
    → IsSextet d
    → IsPadded s
    → output_length (a ∷ b ∷ c ∷ d ∷ s) (suc (suc (suc (suc (length s)))))
      ≡ output_length s (length s) + 3
output_length_block a b c d sc sd empty = unfold output_length in ground arith
output_length_block a b c d sc sd (one_byte {a = p} {b = q} {c = r} {d = t} _ _ _ _) =
    output_length_cons a b c d (p ∷ q ∷ r ∷ t ∷ []) 0 refl
output_length_block a b c d sc sd (two_bytes {a = p} {b = q} {c = r} {d = t} _ _ _ _) =
    output_length_cons a b c d (p ∷ q ∷ r ∷ t ∷ []) 0 refl
output_length_block a b c d sc sd (block {a = p} {b = q} {c = r} {d = t} {s} _ _ _ _ _) =
    let m = length s in
    let four : suc (suc (suc (suc m))) ≡ m + 4 = omega arith in
    let eight : suc (suc (suc (suc (suc (suc (suc (suc m))))))) ≡ m + 8 = omega arith in
    rw eight (rw four (output_length_cons a b c d (p ∷ q ∷ r ∷ t ∷ s) m (omega arith)))

decode_groups_cons :
    (n : ℕ) (out out' : Bytes) (a b c d : ℕ) (s : Bytes)
    → decode_group n out a b c d ≡ ok out'
    → decode_groups n out (a ∷ b ∷ c ∷ d ∷ s) ≡ decode_groups n out' s
unfolding decode_groups
decode_groups_cons n out out' a b c d s h = rw h

decode_groups-nil : (n : ℕ) (out : Bytes) → decode_groups n out [] ≡ ok out
unfolding decode_groups
decode_groups-nil n out = refl

-- The lengths of the two padded last blocks.
output_length_one : (a b c d : ℕ) → c ≡ b'=' → d ≡ b'=' → output_length (a ∷ b ∷ c ∷ d ∷ []) 4 ≡ 1
unfolding output_length
output_length_one a b c d ec ed = ground arith

output_length_two : (a b c d : ℕ) → IsSextet c → d ≡ b'=' → output_length (a ∷ b ∷ c ∷ d ∷ []) 4 ≡ 2
unfolding output_length
output_length_two a b c d sc ed = ground arith

output_length_none : (s : Bytes) → output_length s 0 ≡ 0
unfolding output_length
output_length_none s = ground arith

-- Padded text is decoded without a failed assertion, to the exact length.
decode_groups_total :
    (n : ℕ) (out : Bytes) {s : Bytes}
    → IsPadded s
    → length out + output_length s (length s) ≡ n
    → (out' : Bytes) × (decode_groups n out s ≡ ok out') × (length out' ≡ n)
decode_groups_total n out empty e =
    (out, decode_groups-nil n out, omega (arith, output_length_none []))
decode_groups_total n out (one_byte {a} {b} {c} {d} sa sb ec ed) e =
    let short = output_length_one a b c d ec ed in
    let (out', h, l) =
      decode_group_total n out a b c d sa.0 sb.0 (pad_valid c ec) (pad_valid d ed) (omega arith) in
    (out', decode_groups_cons n out out' a b c d [] h ∙ decode_groups-nil n out', omega arith)
decode_groups_total n out (two_bytes {a} {b} {c} {d} sa sb sc ed) e =
    let short = output_length_two a b c d sc ed in
    let (out', h, l) =
      decode_group_total n out a b c d sa.0 sb.0 sc.0 (pad_valid d ed) (omega arith) in
    (out', decode_groups_cons n out out' a b c d [] h ∙ decode_groups-nil n out', omega arith)
decode_groups_total n out (block {a} {b} {c} {d} {s} sa sb sc sd p) e =
    let exact = output_length_block a b c d sc sd p in
    let (out', h, l) = decode_group_total n out a b c d sa.0 sb.0 sc.0 sd.0 (omega arith) in
    let (last, h', l') = decode_groups_total n out' p (omega arith) in
    (last, decode_groups_cons n out out' a b c d s h ∙ h', l')

strip_len-le : (s : Bytes) (n : ℕ) → strip_len s n ≤ n
unfolding strip_len
strip_len-le s zero = omega arith
strip_len-le s (suc n) = ground (arith, strip_len-le s n)

get_or-take : (s : Bytes) (n i : ℕ) → i < n → get_or (take n s) i 0 ≡ get_or s i 0
get_or-take s zero i h = elim h [ ]
get_or-take [] (suc n) i h = refl
get_or-take (c ∷ s) (suc n) zero h = refl
get_or-take (c ∷ s) (suc n) (suc i) h = get_or-take s n i (omega arith)

output_length-take : (s : Bytes) (n : ℕ) → 0 < n → output_length (take n s) n ≡ output_length s n
unfolding output_length
output_length-take s n h =
    rw (get_or-take s n (n - 1) (omega arith))
      (ground (arith, get_or-take s n (n - 2) (omega arith)))

output_length-le : (s : Bytes) (n : ℕ) → output_length s n ≤ n / 4 * 3
unfolding output_length
output_length-le s n = ground arith

IsPadded-length : {s : Bytes} → IsPadded s → length s % 4 ≡ 0
IsPadded-length empty = refl
IsPadded-length (one_byte _ _ _ _) = refl
IsPadded-length (two_bytes _ _ _ _) = refl
IsPadded-length (block _ _ _ _ p) = omega (arith, IsPadded-length p)

-- What `decode_checked` answers on `n` characters: the bytes, or the reason for -1.
abbrev pub Accepts : Outcome Bytes → Bytes → ℕ → ℕ → Type 0
Accepts r s size n =
    (out : Bytes) × (r ≡ ok out)
    × IsPadded (take n s)
    × (length out ≡ output_length s n)
    × (length out ≤ size)

abbrev pub Refuses : Outcome Bytes → Bytes → ℕ → ℕ → Type 0
Refuses r s size n = (r ≡ fail 1) × ((¬ IsPadded (take n s)) ⊎ (size < output_length s n))

decode_checked_ok :
    (s : Bytes) (size n : ℕ) (out : Bytes)
    → n % 4 ≡ 0
    → validate 0 n (take n s) ≡ true
    → n ≤ int_max / 3 * 4
    → output_length s n ≤ size
    → decode_groups (output_length s n) [] (take n s) ≡ ok out
    → length out ≡ output_length s n
    → decode_checked s size n ≡ ok out
unfolding decode_checked
decode_checked_ok s size n out m v fits room run exact =
    rw (v, run) (ground (arith, output_length-le s n))

module _ (s : Bytes) (size n : ℕ) (some_left : 0 < n) (inside : n ≤ length s) where
  taken : length (take n s) ≡ n
  taken = omega (arith, length-take n s)

  Refuses-ragged : n % 4 ≢ 0 → Refuses (decode_checked s size n) s size n
  unfolding decode_checked
  Refuses-ragged h = (ground arith, inl (λ p. h (omega (arith, IsPadded-length p, taken))))

  Refuses-invalid :
      n % 4 ≡ 0 → validate 0 n (take n s) ≡ false → Refuses (decode_checked s size n) s size n
  unfolding decode_checked
  Refuses-invalid m v =
      (rw v (ground arith), inl (λ p. cc (IsPadded-validate 0 n p refl (omega (arith, taken)))))

  Refuses-small :
      n % 4 ≡ 0
      → validate 0 n (take n s) ≡ true
      → size < output_length s n
      → Refuses (decode_checked s size n) s size n
  unfolding decode_checked
  Refuses-small m v small = (rw v (ground arith), inr small)

  accepts :
      n % 4 ≡ 0
      → validate 0 n (take n s) ≡ true
      → n ≤ int_max / 3 * 4
      → output_length s n ≤ size
      → Accepts (decode_checked s size n) s size n
  accepts m v fits room =
      let padded =
        validate-IsPadded 0 n (take n s) refl (omega (arith, taken)) (omega (arith, taken)) v in
      let same : output_length (take n s) (length (take n s)) ≡ output_length s n =
        rw taken (output_length-take s n some_left) in
      let (out, run, exact) =
        decode_groups_total (output_length s n) [] padded (omega (arith, same)) in
      (out, decode_checked_ok s size n out m v fits room run exact, padded, exact, omega arith)

  decode_checked_total :
      n ≤ int_max / 3 * 4
      → Accepts (decode_checked s size n) s size n ⊎ Refuses (decode_checked s size n) s size n
  decode_checked_total fits = elim (ℕ_discrete (n % 4) 0) [
    | no ragged ↦ inr (Refuses-ragged ragged)
    | yes m ↦ elim (Bool-cases (validate 0 n (take n s))) [
      | inr v ↦ inr (Refuses-invalid m v)
      | inl v ↦ elim (dec_lt size (output_length s n)) [
        | yes small ↦ inr (Refuses-small m v small)
        | no room ↦ inl (accepts m v fits (omega arith))
      ]
    ]
  ]

decode_not_blank :
    (s : Bytes) (size : ℕ)
    → length s ≤ int_max / 3 * 4
    → strip_len s (length s) ≢ 0
    → decode s size ≡ decode_checked s size (strip_len s (length s))
unfolding decode
decode_not_blank s size fits left = ground arith

decode_blank :
    (s : Bytes) (size : ℕ)
    → length s ≤ int_max / 3 * 4
    → 0 < size
    → strip_len s (length s) ≡ 0
    → decode s size ≡ ok []
unfolding decode
decode_blank s size fits room blank = ground arith

-- Input of at most (INT_MAX / 3) * 4 characters, into a buffer of at least one byte, never makes the
-- decoder abort. Where the characters before the trailing whitespace are whole blocks of the
-- alphabet, padded only at the end, and their bytes fit the buffer, it returns exactly so many
-- bytes. Otherwise it returns -1, and the text is not padded so or the buffer is too small.
pub decode_total :
    (s : Bytes) (size : ℕ)
    → length s ≤ int_max / 3 * 4
    → 0 < size
    → Accepts (decode s size) s size (strip_len s (length s))
      ⊎ Refuses (decode s size) s size (strip_len s (length s))
decode_total s size fits room = elim (ℕ_discrete (strip_len s (length s)) 0) [
  | yes blank ↦ inl (
    [],
    decode_blank s size fits room blank,
    rw blank empty,
    rw blank (sym (output_length_none s)),
    omega arith,
  )
  | no left ↦ rw (decode_not_blank s size fits left) (
      decode_checked_total s size (strip_len s (length s)) (omega arith) (strip_len-le s (length s))
        (omega (arith, strip_len-le s (length s))))
]
