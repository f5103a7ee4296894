-- ===== src/StripAnsi.antt =====
-- src/nbs-sidecar/strip_ansi.c: taking terminal escape sequences out of a text, in its own buffer.
-- The read pointer is the text still unread, the write pointer the bytes written.
pub mod Shrink
pub mod Clean
use nbs_framework.Common.{
  ℕ, zero, suc, ◌+◌, ◌-◌, ◌*◌, ◌/◌, ◌%◌, ◌^◌, ◌≤◌, ◌<◌, min, ◌≡◌, refl, sym, ap, ◌∙◌, subst, ◌≢◌,
  ◌↔◌, ◌⊎◌, inl, inr, Bool, true, false, not, ◌&&◌, ◌||◌, Option, none, some, List, [], ◌∷◌, ◌++◌,
  map, append-nil, append_assoc, arith, ltb, leb, ◌==◌, if◌then◌else◌, within, ltb→lt, lt→ltb,
  leb→le, le→leb, ==_iff, Bool-cases, Option-cases, length, get_or, take, drop, length-append,
  length-take, length-drop, take-append-drop, take-length, map-take, map-drop, length-map, All,
  All-append, All-append_left, All-append_right, All-map,
}
use nbs_framework.Common.Outcome.{
  Outcome, ok, fail, abort, ◌>>=◌, ◌>>◌, assert, require, bind-eq-ok, ok_inj, assert-eq-ok,
}
use nbs_framework.Common.Text.{
  Bytes, codes, IsByte, Lacks, is_digit, is_alnum, is_space, str_eq, str_eq_iff,
}

abbrev pub escape : ℕ
escape = 0x1b

abbrev pub bell : ℕ
bell = 0x07

-- A control character other than the end of a line and a tab, or DEL.
unfoldable pub is_control : ℕ → Bool
is_control c = ltb c 0x20 && not (c == b'\n') && not (c == b'\t') || c == 0x7f

-- `(c & 0xC0) == 0x80`, for a byte.
unfoldable pub is_continuation : ℕ → Bool
is_continuation c = within 0x80 0xbf c

unfoldable pub is_leading : ℕ → Bool
is_leading c = within 0xc2 0xf4 c

-- The continuation bytes that follow a leading byte.
unfoldable pub expected : ℕ → ℕ
expected c = if leb c 0xdf then 1 else if leb c 0xef then 2 else 3

-- What a loop copies, and what is left to read.
pub record Split : Type 0 where
  pub copied : Bytes
  pub rest : Bytes

unfoldable pub take_continuation : ℕ → Bytes → Split
take_continuation zero s = record { copied = []; rest = s }
take_continuation (suc n) [] = record { copied = []; rest = [] }
take_continuation (suc n) (c ∷ s) =
    let r = take_continuation n s in
    if is_continuation c
    then record { copied = c ∷ r.copied; rest = r.rest }
    else record { copied = []; rest = c ∷ s }

-- The parameter of a control sequence, a 32-bit int that wraps, and the text from the final byte on.
pub record Csi : Type 0 where
  pub param : ℕ
  pub has_param : Bool
  pub rest : Bytes

unfoldable pub scan_csi : ℕ → Bool → Bytes → Csi
scan_csi param has_param [] = record { param = param; has_param = has_param; rest = [] }
scan_csi param has_param (c ∷ s) =
    let number = scan_csi ((param * 10 + (c - b'0')) % 2 ^ 32) true s in
    let several = scan_csi param false s in
    let other = scan_csi param has_param s in
    if within 0x40 0x7e c
    then record { param = param; has_param = has_param; rest = c ∷ s }
    else if is_digit c
    then number
    else if c == b';'
    then several
    else other

-- The spaces for a parameter, at most 8 and at most the bytes read; none where it is negative.
unfoldable pub space_count : Csi → ℕ → ℕ
space_count r gap =
    let spaces = if r.has_param then (if ltb r.param (2 ^ 31) then r.param else 0) else 1 in
    min 8 (min gap spaces)

unfoldable pub spaces : ℕ → Bytes
spaces zero = []
spaces (suc n) = b' ' ∷ spaces n

-- The text unread and the bytes written behind one round of the loop.
pub record Position : Type 0 where
  pub unread : Bytes
  pub out : Bytes

-- The end of a control sequence of which `start` was the text behind the bracket; a cursor movement to the
-- right leaves spaces. `total` is the length of the whole text.
unfoldable pub end_csi : ℕ → Bytes → Csi → Bytes → Bytes → Position
unfolding space_count spaces
end_csi total start r [] out = record { unread = []; out = out }
end_csi total start r (c ∷ s) out =
    let is_right = c == b'C' && (r.has_param || length r.rest == length start) in
    let gap = total - length s - length out in
    record { unread = s; out = if is_right then out ++ spaces (space_count r gap) else out }

-- An operating system command, up to BEL or ESC and a backslash.
unfoldable pub skip_osc : Bytes → Bytes
skip_osc [] = []
skip_osc (c ∷ []) = []
skip_osc (c ∷ d ∷ s) =
    let further = skip_osc (d ∷ s) in
    if c == bell then d ∷ s else if c == escape && d == b'\\' then s else further

unfoldable pub after_escape : ℕ → Bytes → Bytes → Position
unfolding scan_csi end_csi skip_osc
after_escape total [] out = record { unread = []; out = out }
after_escape total (d ∷ t) out =
    let r = scan_csi 0 false t in
    if d == b'['
    then end_csi total t r r.rest out
    else if d == b']'
    then record { unread = skip_osc t; out = out }
    else record { unread = if within 0x20 0x7e d then t else d ∷ t; out = out }

-- One round on the byte `c` and the text `s` behind it.
unfoldable pub strip_step : ℕ → ℕ → Bytes → Bytes → Position
unfolding after_escape is_control is_leading take_continuation expected is_continuation
strip_step total c s out =
    let r = take_continuation (expected c) s in
    if c == escape
    then after_escape total s out
    else if is_control c
    then record { unread = s; out = out }
    else if is_leading c
    then record { unread = r.rest; out = out ++ c ∷ r.copied }
    else if within 0x80 0x9f c
    then record { unread = s; out = out }
    else record { unread = s; out = out ++ c ∷ [] }

-- The loop, with fuel; none left is `fail 0`, which the source has not.
unfoldable pub strip_loop : ℕ → ℕ → Bytes → Bytes → Outcome Bytes
unfolding strip_step
strip_loop fuel total [] out = ok out
strip_loop zero total (c ∷ s) out = fail 0
strip_loop (suc fuel) total (c ∷ s) out = do
  assert (leb (length out) (total - length (c ∷ s)))
  let p = strip_step total c s out
  strip_loop fuel total p.unread p.out

-- The stripped text, whose length the call returns.
unfoldable pub strip_ansi : Bytes → Outcome Bytes
unfolding strip_loop
strip_ansi text = do
  out ← strip_loop (length text) (length text) text []
  assert (leb (length out) (length text))
  ok out
