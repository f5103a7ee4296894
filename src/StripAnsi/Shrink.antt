-- ===== src/StripAnsi/Shrink.antt =====
-- `strip_ansi` of src/nbs-sidecar/strip_ansi.c never writes over bytes that are still unread.
use nbs_framework.Common.{
  ℕ, zero, suc, ◌+◌, ◌-◌, ◌*◌, ◌%◌, ◌^◌, ◌≤◌, ◌≡◌, refl, inl, inr, Bool, true, false, ◌&&◌, ◌||◌,
  [], ◌∷◌, ◌++◌, arith, leb, ◌==◌, if◌then◌else◌, within, le→leb, Bool-cases, length, length-append,
}
use nbs_framework.Common.Outcome.{ok}
use nbs_framework.Common.Text.{Bytes, is_digit}
use nbs_framework.StripAnsi.{
  is_continuation, take_continuation, Csi, scan_csi, space_count, spaces, Position, end_csi,
  skip_osc, after_escape, strip_step, strip_loop, strip_ansi, is_control, is_leading, expected,
}

-- What was written fits into what was read, and at least the byte `c` was.
abbrev pub IsStep : ℕ → Bytes → Position → Type 0
IsStep total s p = (length p.unread ≤ length s) × (length p.out + length p.unread ≤ total)

length-take_continuation :
    (n : ℕ) (s : Bytes)
    → length ((take_continuation n s).copied) + length ((take_continuation n s).rest) ≡ length s
unfolding take_continuation
length-take_continuation zero s = omega arith
length-take_continuation (suc n) [] = omega arith
length-take_continuation (suc n) (c ∷ s) = elim (Bool-cases (is_continuation c)) [
  | inl more ↦ rw more (omega (arith, length-take_continuation n s))
  | inr other ↦ rw other (omega arith)
]

length-scan_csi :
    (param : ℕ) (has_param : Bool) (s : Bytes)
    → length ((scan_csi param has_param s).rest) ≤ length s
unfolding scan_csi
length-scan_csi param has_param [] = omega arith
length-scan_csi param has_param (c ∷ s) =
    let number = length-scan_csi ((param * 10 + (c - b'0')) % 2 ^ 32) true s in
    let several = length-scan_csi param false s in
    let other = length-scan_csi param has_param s in
    elim (Bool-cases (within 0x40 0x7e c)) [
      | inl final ↦ rw final (omega arith)
      | inr inner ↦ rw inner (elim (Bool-cases (is_digit c)) [
        | inl digit ↦ rw digit (omega (arith, number))
        | inr no_digit ↦ rw no_digit (elim (Bool-cases (c == b';')) [
          | inl semicolon ↦ rw semicolon (omega (arith, several))
          | inr plain ↦ rw plain (omega (arith, other))
        ])
      ])
    ]

length-spaces : (n : ℕ) → length (spaces n) ≡ n
unfolding spaces
length-spaces zero = refl
length-spaces (suc n) = omega (arith, length-spaces n)

space_count-le : (r : Csi) (gap : ℕ) → space_count r gap ≤ gap
unfolding space_count
space_count-le r gap = omega arith

if_length :
    (b : Bool) (x y : Bytes) (n : ℕ) → length x ≤ n → length y ≤ n → length (if b then x else y) ≤ n
if_length true x y n hx hy = hx
if_length false x y n hx hy = hy

end_csi-IsStep :
    (total : ℕ) (start s out : Bytes) (r : Csi)
    → length out + length s ≤ total
    → IsStep total s (end_csi total start r s out)
unfolding end_csi
end_csi-IsStep total start [] out r fits = (omega arith, omega arith)
end_csi-IsStep total start (c ∷ s) out r fits =
    let gap = total - length s - length out in
    let n = space_count r gap in
    let wide : length (out ++ spaces n) ≤ total - length s =
      omega (arith, length-append out (spaces n), length-spaces n, space_count-le r gap) in
    let whole =
      if_length (c == b'C' && (r.has_param || length r.rest == length start)) (out ++ spaces n) out
        (total - length s) wide (omega arith) in
    (omega arith, omega (arith, whole))

length-skip_osc : (s : Bytes) → length (skip_osc s) ≤ length s
unfolding skip_osc
length-skip_osc [] = omega arith
length-skip_osc (c ∷ []) = omega arith
length-skip_osc (c ∷ d ∷ s) =
    let further = length-skip_osc (d ∷ s) in
    if_length (c == 0x07) (d ∷ s) _ _ (omega arith) (
      if_length (c == 0x1b && d == b'\\') s (skip_osc (d ∷ s)) _ (omega arith)
        (omega (arith, further)))

after_escape-IsStep :
    (total : ℕ) (s out : Bytes)
    → length out + length s ≤ total
    → IsStep total s (after_escape total s out)
unfolding after_escape
after_escape-IsStep total [] out fits = (omega arith, omega arith)
after_escape-IsStep total (d ∷ t) out fits = elim (Bool-cases (d == b'[')) [
  | inl bracket ↦
      let r = scan_csi 0 false t in
      let shorter = length-scan_csi 0 false t in
      let p = end_csi-IsStep total t r.rest out r (omega (arith, shorter)) in
      rw bracket (omega (arith, p.0, shorter), p.1)
  | inr other ↦ rw other (elim (Bool-cases (d == b']')) [
    | inl command ↦ rw command (omega (arith, length-skip_osc t), omega (arith, length-skip_osc t))
    | inr single ↦ rw single (elim (Bool-cases (within 0x20 0x7e d)) [
      | inl simple ↦ rw simple (omega arith, omega arith)
      | inr kept ↦ rw kept (omega arith, omega arith)
    ])
  ])
]

pub strip_step-IsStep :
    (total c : ℕ) (s out : Bytes)
    → length out + length (c ∷ s) ≤ total
    → IsStep total s (strip_step total c s out)
unfolding strip_step
strip_step-IsStep total c s out fits = elim (Bool-cases (c == 0x1b)) [
  | inl escaped ↦ rw escaped (after_escape-IsStep total s out (omega arith))
  | inr text ↦ rw text (elim (Bool-cases (is_control c)) [
    | inl control ↦ rw control (omega arith, omega arith)
    | inr shown ↦ rw shown (elim (Bool-cases (is_leading c)) [
      | inl leading ↦
          let size = length-take_continuation (expected c) s in
          let wide = length-append out (c ∷ (take_continuation (expected c) s).copied) in
          rw leading (omega (arith, size), omega (arith, size, wide))
      | inr single ↦ rw single (elim (Bool-cases (within 0x80 0x9f c)) [
        | inl stray ↦ rw stray (omega arith, omega arith)
        | inr plain ↦ rw plain (omega arith, omega (arith, length-append out (c ∷ [])))
      ])
    ])
  ])
]

strip_loop-total :
    (fuel total : ℕ) (rest out : Bytes)
    → length rest ≤ fuel
    → length out + length rest ≤ total
    → (stripped : Bytes) × (strip_loop fuel total rest out ≡ ok stripped)
      × (length stripped ≤ total)
unfolding strip_loop
strip_loop-total fuel total [] out enough fits = (out, refl, omega arith)
strip_loop-total zero total (c ∷ s) out enough fits = absurd (omega arith)
strip_loop-total (suc fuel) total (c ∷ s) out enough fits =
    let p = strip_step total c s out in
    let (shorter, room) = strip_step-IsStep total c s out fits in
    let behind : leb (length out) (total - length (c ∷ s)) ≡ true = le→leb _ _ (omega arith) in
    let (stripped, returned, small) =
      strip_loop-total fuel total p.unread p.out (omega (arith, shorter)) room in
    (stripped, rw behind returned, small)

-- On every text the call returns: the loop ends, no assertion on its pointers fails, and the
-- stripped text is not longer than the text.
pub strip_ansi_total :
    (text : Bytes) → (out : Bytes) × (strip_ansi text ≡ ok out) × (length out ≤ length text)
unfolding strip_ansi
strip_ansi_total text =
    let (out, returned, small) =
      strip_loop-total (length text) (length text) text [] (omega arith) (omega arith) in
    (out, rw returned (rw (le→leb (length out) (length text) small) refl), small)
