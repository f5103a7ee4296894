-- ===== src/ChatFile/Cursors/Keys.antt =====
-- What the lines of a cursor file, whatever its bytes, give for keys.
use nbs_framework.Common.{
  not, ◌∙◌, ltb→lt, ℕ, zero, suc, ◌+◌, ◌<◌, ◌≡◌, ◌≢◌, ◌⊎◌, inl, inr, refl, sym, subst, ap, true,
  false, ◌||◌, Option, none, some, List, [], ◌∷◌, ◌++◌, ltb, ◌==◌, length, All, All-append, arith,
  Option-cases, Bool-cases,
}
use nbs_framework.Common.Decimal.{ℤ, pos, negsuc, strtol}
use nbs_framework.Common.Text.{Bytes, Lacks}
use nbs_framework.ChatFile.Cursors.{
  Cursor, split_equals, short_key, split_line, value_or_zero, collect_cursors,
}
use nbs_framework.ChatFile.Lines.{fgets_lines}
use nbs_framework.ChatFile.Message.{c_string, is_nul}
use nbs_framework.ChatFile.Number.{int_max, safe_parse_int, in_int_range, at_line_end}
use nbs_framework.ChatFile.Participants.{max_handle_len, before_stop}

-- A line end stands at the end only.
abbrev pub EndsOnce : Bytes → Type 0
EndsOnce [] = Unit
EndsOnce (c ∷ s) = ((c ≢ b'\n') ⊎ (s ≡ [])) × EndsOnce s

abbrev pub NotComment : Bytes → Type 0
NotComment [] = Unit
NotComment (c ∷ s) = c ≢ b'#'

-- A key that is read again from a line that is written with it.
abbrev pub IsKey : Bytes → Type 0
IsKey k = Lacks b'=' k × Lacks 0 k × Lacks b'\n' k × NotComment k × (length k < max_handle_len)

abbrev pub InInt : ℤ → Type 0
InInt (pos n) = n < int_max + 1
InInt (negsuc n) = n < int_max + 1

EndsOnce-append : (l : Bytes) (c : ℕ) → Lacks b'\n' l → EndsOnce (l ++ c ∷ [])
EndsOnce-append [] c h = (inr refl, tt)
EndsOnce-append (x ∷ l) c h = (inl h.0, EndsOnce-append l c h.1)

Lacks-EndsOnce : (l : Bytes) → Lacks b'\n' l → EndsOnce l
Lacks-EndsOnce [] h = tt
Lacks-EndsOnce (x ∷ l) h = (inl h.0, Lacks-EndsOnce l h.1)

no_end : (c n size : ℕ) → (c == b'\n' || n == size) ≡ false → c ≢ b'\n'
no_end c n size h e = ground arith

pub fgets_lines-EndsOnce :
    (size : ℕ) (s cur : Bytes) → Lacks b'\n' cur → All EndsOnce (fgets_lines size s cur)
unfolding fgets_lines
fgets_lines-EndsOnce size [] [] h = tt
fgets_lines-EndsOnce size [] (c ∷ cur) h =
    let some_left : (length (c ∷ cur) == 0) ≡ false = ground arith in
    rw some_left (Lacks-EndsOnce (c ∷ cur) h, tt)
fgets_lines-EndsOnce size (c ∷ s) cur h =
    let piece = cur ++ c ∷ [] in
    elim (Bool-cases (c == b'\n' || length piece == size)) [
      | inl full ↦
          let whole : fgets_lines size (c ∷ s) cur ≡ piece ∷ fgets_lines size s [] = ground arith in
          subst (All EndsOnce) (sym whole)
            (EndsOnce-append cur c h, fgets_lines-EndsOnce size s [] tt)
      | inr partial ↦
          let longer : fgets_lines size (c ∷ s) cur ≡ fgets_lines size s piece = ground arith in
          subst (All EndsOnce) (sym longer) (
            fgets_lines-EndsOnce size s piece (
              All-append (λ x. x ≢ b'\n') cur (c ∷ []) h
                (no_end c (length piece) size partial, tt)))
    ]

c_string-EndsOnce : (s : Bytes) → EndsOnce s → EndsOnce (c_string s)
unfolding c_string is_nul before_stop
c_string-EndsOnce [] h = tt
c_string-EndsOnce (c ∷ s) h =
    let rest : EndsOnce (before_stop is_nul s) = c_string-EndsOnce s h.1 in
    let short : s ≡ [] → before_stop is_nul s ≡ [] = (λ e. rw e refl) in
    elim (Bool-cases (c == 0)) [
      | inl nul ↦ rw nul tt
      | inr other ↦ rw other (elim h.0 [ inl n ↦ (inl n, rest) | inr e ↦ (inr (short e), rest) ])
    ]

c_string-clean : (s : Bytes) → Lacks 0 (c_string s)
unfolding c_string is_nul before_stop
c_string-clean [] = tt
c_string-clean (c ∷ s) = ground (arith, c_string-clean s)

not_found_twice : {o : Option (Bytes × Bytes)} {p : Bytes × Bytes} → o ≡ none → o ≡ some p → ⊥
not_found_twice e f = cc

-- The key that a line is split into has neither the sign, nor a NUL, nor a line end.
split_equals_lem :
    (s k v : Bytes)
    → EndsOnce s
    → Lacks 0 s
    → split_equals s ≡ some (k, v)
    → Lacks b'=' k × Lacks 0 k × Lacks b'\n' k
unfolding split_equals
split_equals_lem [] k v e n h = cc
split_equals_lem (c ∷ s) k v e n h = elim (Bool-cases (c == b'=')) [
  | inl sign ↦
      let empty_key : split_equals (c ∷ s) ≡ some ([], s) = rw sign refl in
      let here : k ≡ [] = cc in rw here (tt, tt, tt)
  | inr other ↦ elim (Option-cases (split_equals s)) [
    | inl lost ↦ let none_found : split_equals (c ∷ s) ≡ none = rw other (rw lost refl) in absurd cc
    | inr ((k', v'), found) ↦
        let longer : split_equals (c ∷ s) ≡ some (c ∷ k', v') = rw other (rw found refl) in
        let here : k ≡ c ∷ k' = cc in
        let (signs, nuls, ends) = split_equals_lem s k' v' e.1 n.1 found in
        let not_sign : c ≢ b'=' = ground arith in
        let not_end : c ≢ b'\n' = elim e.0 [
          | inl ne ↦ ne
          | inr last ↦ absurd (not_found_twice (ap split_equals last) found)
        ] in
        rw here ((not_sign, signs), (n.0, nuls), (not_end, ends))
  ]
]

split_equals_head :
    (c : ℕ) (s k v : Bytes) → c ≢ b'#' → split_equals (c ∷ s) ≡ some (k, v) → NotComment k
unfolding split_equals
split_equals_head c s [] v n h = tt
split_equals_head c s (x ∷ k) v n h = elim (Bool-cases (c == b'=')) [
  | inl sign ↦ let empty_key : split_equals (c ∷ s) ≡ some ([], s) = rw sign refl in absurd cc
  | inr other ↦ elim (Option-cases (split_equals s)) [
    | inl lost ↦ let none_found : split_equals (c ∷ s) ≡ none = rw other (rw lost refl) in absurd cc
    | inr ((k', v'), found) ↦
        let longer : split_equals (c ∷ s) ≡ some (c ∷ k', v') = rw other (rw found refl) in
        let same : x ≡ c = cc in rw same n
  ]
]

short_key_lem :
    (o : Option (Bytes × Bytes)) (k v : Bytes)
    → short_key o ≡ some (k, v)
    → (o ≡ some (k, v)) × (length k < max_handle_len)
unfolding short_key
short_key_lem none k v h = cc
short_key_lem (some (k', v')) k v h = elim (Bool-cases (ltb (length k') max_handle_len)) [
  | inl short ↦
      let kept : short_key (some (k', v')) ≡ some (k', v') = rw short refl in
      let whole : some (k', v') ≡ some (k, v) = sym kept ∙ h in
      let same : k ≡ k' = cc in (whole, rw same (ltb→lt (length k') max_handle_len short))
  | inr long ↦ let lost : short_key (some (k', v')) ≡ none = rw long refl in absurd cc
]

-- A line that is split, as the string functions see it, has a key that can be written again.
split_line-IsKey : (s k v : Bytes) → EndsOnce s → Lacks 0 s → split_line s ≡ some (k, v) → IsKey k
unfolding split_line
split_line-IsKey [] k v e n h = cc
split_line-IsKey (c ∷ s) k v e n h = elim (Bool-cases (c == b'#' || c == b'\n')) [
  | inl skipped ↦ let lost : split_line (c ∷ s) ≡ none = rw skipped refl in absurd cc
  | inr entry ↦
      let split : split_line (c ∷ s) ≡ short_key (split_equals (c ∷ s)) = rw entry refl in
      let (found, short) = short_key_lem (split_equals (c ∷ s)) k v (sym split ∙ h) in
      let (signs, nuls, ends) = split_equals_lem (c ∷ s) k v e n found in
      let shown : c ≢ b'#' = ground arith in
      (signs, nuls, ends, split_equals_head c s k v shown found, short)
]

in_int_range-InInt : (v : ℤ) → in_int_range v ≡ true → InInt v
unfolding in_int_range
in_int_range-InInt (pos n) h = ground arith
in_int_range-InInt (negsuc n) h = ground arith

safe_parse_int-InInt : (s : Bytes) (v : ℤ) → safe_parse_int s ≡ some v → InInt v
unfolding safe_parse_int
safe_parse_int-InInt s v h =
    let r = strtol s in
    elim (Bool-cases (r.erange || not r.converted || not (at_line_end r.rest))) [
      | inl bad ↦ let lost : safe_parse_int s ≡ none = rw bad refl in absurd cc
      | inr good ↦ elim (Bool-cases (in_int_range r.value)) [
        | inl inside ↦
            let read : safe_parse_int s ≡ some r.value = rw good (rw inside refl) in
            let same : v ≡ r.value = cc in rw same (in_int_range-InInt r.value inside)
        | inr outside ↦ let lost : safe_parse_int s ≡ none = rw good (rw outside refl) in absurd cc
      ]
    ]

value_or_zero-InInt : (s : Bytes) → InInt (value_or_zero s)
unfolding value_or_zero
value_or_zero-InInt s = elim (Option-cases (safe_parse_int s)) [
  | inl lost ↦
      let same : value_or_zero s ≡ pos 0 = ground (arith, lost) in
      subst InInt (sym same) (omega arith)
  | inr (v, found) ↦
      let same : value_or_zero s ≡ v = ground (arith, found) in
      subst InInt (sym same) (safe_parse_int-InInt s v found)
]

-- The cursors that are read from any file have keys that can be written again; `P` is what the change
-- makes of every index.
pub collect_cursors_lem :
    (P : Cursor → Type 0) (change : Bytes → ℤ → ℤ) (room : ℕ) (lines : List Bytes)
    → ((k : Bytes) (v : ℤ) → IsKey k → InInt v → P (record { handle = k; index = change k v }))
    → All EndsOnce lines
    → All P (collect_cursors change room lines)
unfolding collect_cursors
collect_cursors_lem P change room [] made h = tt
collect_cursors_lem P change zero (raw ∷ lines) made h = tt
collect_cursors_lem P change (suc room) (raw ∷ lines) made h =
    elim (Option-cases (split_line (c_string raw))) [
      | inl skipped ↦
          let same : collect_cursors change (suc room) (raw ∷ lines)
              ≡ collect_cursors change (suc room) lines =
            ground (arith, skipped) in
          subst (All P) (sym same) (collect_cursors_lem P change (suc room) lines made h.1)
      | inr ((k, v), found) ↦
          let old = value_or_zero v in
          let entry : Cursor = record { handle = k; index = change k old } in
          let same : collect_cursors change (suc room) (raw ∷ lines)
              ≡ entry ∷ collect_cursors change room lines =
            ground (arith, found) in
          let key =
            split_line-IsKey (c_string raw) k v (c_string-EndsOnce raw h.0) (c_string-clean raw)
              found in
          subst (All P) (sym same) (
            made k old key (value_or_zero-InInt v),
            collect_cursors_lem P change room lines made h.1,
          )
    ]
