-- ===== src/Mentions/Escape.antt =====
-- What is escaped or sanitised mentions nobody.
use nbs_framework.Common.{
  ℕ, zero, suc, ◌+◌, ◌<◌, ◌≡◌, ◌≢◌, ◌⊎◌, inl, inr, refl, sym, subst, ◌∙◌, true, false, ◌&&◌, Option,
  none, some, List, [], ◌∷◌, ◌==◌, ==_iff, length, arith, Bool-cases,
}
use nbs_framework.Common.Outcome.{ok, ◌>>=◌}
use nbs_framework.Common.Text.{Bytes}
use nbs_framework.Mentions.{
  is_handle_char, Mention, handle_at, begins_handle, scan_step, scan_mentions, bus_extract_mentions,
  replace_at_signs, no_at_sign, sanitise_at_signs, extra_bytes, escape_bytes, escape_mentions,
}

-- No at sign stands before a character of a handle.
abbrev pub IsQuiet : Bytes → Type 0
IsQuiet [] = Unit
IsQuiet (c ∷ s) = ((c ≢ b'@') ⊎ (begins_handle s ≡ false)) × IsQuiet s

handle_at_none : (s : Bytes) → begins_handle s ≡ false → length (handle_at s) ≡ 0
unfolding handle_at begins_handle
handle_at_none [] h = refl
handle_at_none (c ∷ s) h = rw h refl

-- A round on such text goes to the next character.
scan_step-quiet :
    (prev : Option ℕ) (c : ℕ) (s : Bytes) (found : List Mention)
    → (c ≢ b'@') ⊎ (begins_handle s ≡ false)
    → scan_step prev c s found ≡ record { prev = some c; text = s; found = found }
unfolding scan_step
scan_step-quiet prev c s found (inl h) = ground arith
scan_step-quiet prev c s found (inr h) = ground (arith, handle_at_none s h)

scan_mentions-IsQuiet :
    (fuel max_handles : ℕ) (prev : Option ℕ) (s : Bytes)
    → IsQuiet s
    → scan_mentions fuel max_handles (record { prev = prev; text = s; found = [] }) ≡ []
unfolding scan_mentions
scan_mentions-IsQuiet zero max_handles prev s h = refl
scan_mentions-IsQuiet (suc fuel) max_handles prev [] h = refl
scan_mentions-IsQuiet (suc fuel) max_handles prev (c ∷ s) h =
    rw (scan_step-quiet prev c s [] h.0)
      (rw (scan_mentions-IsQuiet fuel max_handles (some c) s h.1) (ground arith))

bus_extract_mentions-IsQuiet :
    (s : Bytes) (max_handles : ℕ)
    → 0 < max_handles
    → IsQuiet s
    → bus_extract_mentions s max_handles ≡ ok []
unfolding bus_extract_mentions
bus_extract_mentions-IsQuiet s max_handles some_room h =
    rw (scan_mentions-IsQuiet (length s) max_handles none s h) (ground arith)

escape_bytes-begins_handle : (s : Bytes) → begins_handle (escape_bytes s) ≡ begins_handle s
unfolding escape_bytes begins_handle
escape_bytes-begins_handle [] = refl
escape_bytes-begins_handle (c ∷ s) = refl

backslash_ends : (s : Bytes) → begins_handle (b'\\' ∷ s) ≡ false
unfolding begins_handle is_handle_char
backslash_ends s = refl

no_mention :
    (c : ℕ) (s : Bytes)
    → (c == b'@' && begins_handle s) ≡ false
    → (c ≢ b'@') ⊎ (begins_handle (escape_bytes s) ≡ false)
no_mention c s h = elim (Bool-cases (begins_handle s)) [
  | inl begins ↦ inl (λ e. ground arith)
  | inr not_handle ↦ inr (escape_bytes-begins_handle s ∙ not_handle)
]

escape_bytes-IsQuiet : (s : Bytes) → IsQuiet (escape_bytes s)
unfolding escape_bytes
escape_bytes-IsQuiet [] = tt
escape_bytes-IsQuiet (c ∷ s) =
    let rest = escape_bytes s in
    elim (Bool-cases (c == b'@' && begins_handle s)) [
      | inl mention ↦
          let whole : escape_bytes (c ∷ s) ≡ c ∷ b'\\' ∷ rest = rw mention refl in
          subst IsQuiet (sym whole)
            (inr (backslash_ends rest), (inl (omega arith), escape_bytes-IsQuiet s))
      | inr other ↦
          let whole : escape_bytes (c ∷ s) ≡ c ∷ rest = rw other refl in
          subst IsQuiet (sym whole) (no_mention c s other, escape_bytes-IsQuiet s)
    ]

length-escape_bytes : (s : Bytes) → length (escape_bytes s) ≡ length s + extra_bytes s
unfolding escape_bytes extra_bytes
length-escape_bytes [] = refl
length-escape_bytes (c ∷ s) = ground (arith, length-escape_bytes s)

-- Escaping any text passes its assertion, and in what it returns no mention is found.
pub bus_extract_mentions-escape_mentions :
    (s : Bytes) (max_handles : ℕ)
    → 0 < max_handles
    → (do out ← escape_mentions s; bus_extract_mentions out max_handles) ≡ ok []
unfolding escape_mentions
bus_extract_mentions-escape_mentions s max_handles some_room =
    let sized =
      (==_iff (length (escape_bytes s)) (length s + extra_bytes s)).1 (length-escape_bytes s) in
    rw sized
      (bus_extract_mentions-IsQuiet (escape_bytes s) max_handles some_room (escape_bytes-IsQuiet s))

replace_at_signs-IsQuiet :
    (s : Bytes) → IsQuiet (replace_at_signs s) × (no_at_sign (replace_at_signs s) ≡ true)
unfolding replace_at_signs no_at_sign
replace_at_signs-IsQuiet [] = (tt, refl)
replace_at_signs-IsQuiet (c ∷ s) =
    let (quiet, none_left) = replace_at_signs-IsQuiet s in
    elim (Bool-cases (c == b'@')) [
      | inl sign ↦ rw sign ((inl (omega arith), quiet), none_left)
      | inr other ↦ rw other ((inl (λ e. ground arith), quiet), rw other none_left)
    ]

-- Sanitising any text passes its assertion, and in what it returns no mention is found.
pub bus_extract_mentions-sanitise_at_signs :
    (s : Bytes) (max_handles : ℕ)
    → 0 < max_handles
    → (do out ← sanitise_at_signs s; bus_extract_mentions out max_handles) ≡ ok []
unfolding sanitise_at_signs
bus_extract_mentions-sanitise_at_signs s max_handles some_room =
    let (quiet, none_left) = replace_at_signs-IsQuiet s in
    rw none_left (bus_extract_mentions-IsQuiet (replace_at_signs s) max_handles some_room quiet)
