-- ===== src/StripAnsi/Clean.antt =====
-- What `strip_ansi` of src/nbs-sidecar/strip_ansi.c leaves in a text, and which texts it leaves as they are.
use nbs_framework.Common.{
  ℕ, zero, suc, ◌+◌, ◌-◌, ◌≤◌, ◌≡◌, refl, sym, ap, ◌∙◌, inl, inr, Bool, true, false, not, ◌&&◌, [],
  ◌∷◌, ◌++◌, append-nil, append_assoc, arith, ltb, leb, ◌==◌, if◌then◌else◌, within, lt→ltb, le→leb,
  Bool-cases, length,
}
use nbs_framework.Common.Outcome.{ok, bind-eq-ok, ok_inj, assert-eq-ok}
use nbs_framework.Common.Text.{Bytes}
use nbs_framework.StripAnsi.{
  is_continuation, take_continuation, Csi, scan_csi, space_count, spaces, end_csi, after_escape,
  strip_step, strip_loop, strip_ansi, is_control, is_leading, expected,
}
use nbs_framework.StripAnsi.Shrink.{strip_step-IsStep}

-- No control character, no ESC, and no 8-bit control (0x80 to 0x9F) but as one of the `n` bytes that may continue a leading byte.
unfoldable pub is_clean : ℕ → Bytes → Bool
is_clean n [] = true
is_clean n (c ∷ s) =
    let first = is_clean (expected c) s in
    let further = is_clean (n - 1) s in
    let other = is_clean 0 s in
    if is_control c
    then false
    else if is_leading c
    then first
    else if is_continuation c && ltb 0 n
    then further
    else not (within 0x80 0x9f c) && other

-- What is clean stays so behind a leading byte.
is_clean-more : (n : ℕ) (s : Bytes) → is_clean 0 s ≡ true → is_clean n s ≡ true
unfolding is_clean
is_clean-more n [] h = refl
is_clean-more n (c ∷ s) h = let more = is_clean-more (n - 1) s in ground (arith, more, h)

is_clean-append :
    (n : ℕ) (a b : Bytes) → is_clean n a ≡ true → is_clean 0 b ≡ true → is_clean n (a ++ b) ≡ true
unfolding is_clean
is_clean-append n [] b ha hb = is_clean-more n b hb
is_clean-append n (c ∷ a) b ha hb =
    let first = is_clean-append (expected c) a b in
    let further = is_clean-append (n - 1) a b in
    let other = is_clean-append 0 a b in ground (arith, first, further, other, ha, hb)

is_clean-continuation :
    (n c : ℕ) (s : Bytes) → is_continuation c ≡ true → is_clean (suc n) (c ∷ s) ≡ is_clean n s
unfolding is_clean is_control is_leading
is_clean-continuation n c s h =
    let shown : is_control c ≡ false = unfold is_control is_continuation in ground (arith, h) in
    let single : is_leading c ≡ false = unfold is_leading is_continuation in ground (arith, h) in
    let more : ltb 0 (suc n) ≡ true = lt→ltb 0 (suc n) (omega arith) in
    let less : suc n - 1 ≡ n = omega arith in rw shown (rw single (rw h (rw more (rw less refl))))

is_clean-other :
    (n c : ℕ) (s : Bytes) → is_continuation c ≡ false → is_clean n (c ∷ s) ≡ is_clean 0 (c ∷ s)
unfolding is_clean
is_clean-other n c s h = rw h refl

take_continuation-clean :
    (n : ℕ) (s : Bytes)
    → (is_clean n ((take_continuation n s).copied) ≡ true)
      × (is_clean n s ≡ true
          → ((take_continuation n s).copied ++ (take_continuation n s).rest ≡ s)
            × (is_clean 0 ((take_continuation n s).rest) ≡ true))
unfolding take_continuation
take_continuation-clean zero s = (unfold is_clean in refl, λ h. (refl, h))
take_continuation-clean (suc n) [] = (unfold is_clean in refl, λ h. (refl, unfold is_clean in refl))
take_continuation-clean (suc n) (c ∷ s) =
    let (copied, back) = take_continuation-clean n s in
    elim (Bool-cases (is_continuation c)) [
      | inl more ↦ rw more (
        is_clean-continuation n c _ more ∙ copied,
        λ h.
            let (whole, left) = back (sym (is_clean-continuation n c s more) ∙ h) in
            (ap (◌∷◌ c) whole, left),
      )
      | inr other ↦
          rw other
            (unfold is_clean in refl, λ h. (refl, sym (is_clean-other (suc n) c s other) ∙ h))
    ]

spaces-clean : (n : ℕ) → is_clean 0 (spaces n) ≡ true
unfolding spaces is_clean is_control is_leading is_continuation
spaces-clean zero = refl
spaces-clean (suc n) = ground (arith, spaces-clean n)

if_clean :
    (b : Bool) (x y : Bytes)
    → is_clean 0 x ≡ true
    → is_clean 0 y ≡ true
    → is_clean 0 (if b then x else y) ≡ true
if_clean true x y hx hy = hx
if_clean false x y hx hy = hy

end_csi-clean :
    (total : ℕ) (start s out : Bytes) (r : Csi)
    → is_clean 0 out ≡ true
    → is_clean 0 ((end_csi total start r s out).out) ≡ true
unfolding end_csi
end_csi-clean total start [] out r h = h
end_csi-clean total start (c ∷ s) out r h =
    if_clean _ _ _
      (is_clean-append 0 out _ h (spaces-clean (space_count r (total - length s - length out)))) h

after_escape-clean :
    (total : ℕ) (s out : Bytes)
    → is_clean 0 out ≡ true
    → is_clean 0 ((after_escape total s out).out) ≡ true
unfolding after_escape
after_escape-clean total [] out h = h
after_escape-clean total (d ∷ t) out h = elim (Bool-cases (d == b'[')) [
  | inl bracket ↦ let r = scan_csi 0 false t in rw bracket (end_csi-clean total t r.rest out r h)
  | inr other ↦
      rw other
        (elim (Bool-cases (d == b']')) [ inl command ↦ rw command h | inr single ↦ rw single h ])
]

single-clean :
    (c : ℕ)
    → is_control c ≡ false
    → is_leading c ≡ false
    → within 0x80 0x9f c ≡ false
    → is_clean 0 (c ∷ []) ≡ true
unfolding is_clean
single-clean c shown single plain = ground (arith, shown, single, plain)

leading-clean :
    (c : ℕ) (s : Bytes)
    → is_control c ≡ false
    → is_leading c ≡ true
    → is_clean (expected c) s ≡ true
    → is_clean 0 (c ∷ s) ≡ true
unfolding is_clean
leading-clean c s shown leading h = rw shown (rw leading h)

strip_step-clean :
    (total c : ℕ) (s out : Bytes)
    → is_clean 0 out ≡ true
    → is_clean 0 ((strip_step total c s out).out) ≡ true
unfolding strip_step
strip_step-clean total c s out h = elim (Bool-cases (c == 0x1b)) [
  | inl escaped ↦ rw escaped (after_escape-clean total s out h)
  | inr text ↦ rw text (elim (Bool-cases (is_control c)) [
    | inl control ↦ rw control h
    | inr shown ↦ rw shown (elim (Bool-cases (is_leading c)) [
      | inl leading ↦
          let piece = leading-clean c _ shown leading (take_continuation-clean (expected c) s).0 in
          rw leading (is_clean-append 0 out _ h piece)
      | inr single ↦ rw single (elim (Bool-cases (within 0x80 0x9f c)) [
        | inl stray ↦ rw stray h
        | inr plain ↦ rw plain (is_clean-append 0 out _ h (single-clean c shown single plain))
      ])
    ])
  ])
]

strip_loop-clean :
    (fuel total : ℕ) (rest out stripped : Bytes)
    → is_clean 0 out ≡ true
    → strip_loop fuel total rest out ≡ ok stripped
    → is_clean 0 stripped ≡ true
unfolding strip_loop
strip_loop-clean fuel total [] out stripped h returned = rw (ok_inj returned) at h
strip_loop-clean zero total (c ∷ s) out stripped h returned = cc
strip_loop-clean (suc fuel) total (c ∷ s) out stripped h returned =
    let p = strip_step total c s out in
    let (behind, later) = assert-eq-ok (leb (length out) (total - length (c ∷ s))) _ returned in
    strip_loop-clean fuel total p.unread p.out stripped (strip_step-clean total c s out h) later

-- A stripped text has no control character but ends of lines and tabs, no ESC and no DEL, and no 8-bit control (0x80 to 0x9F) but
-- as a continuation behind a leading byte of UTF-8.
pub strip_ansi-clean : (text out : Bytes) → strip_ansi text ≡ ok out → is_clean 0 out ≡ true
unfolding strip_ansi
strip_ansi-clean text out returned =
    let (stripped, looped, later) =
      bind-eq-ok (strip_loop (length text) (length text) text []) _ returned in
    let (short, same) = assert-eq-ok (leb (length stripped) (length text)) _ later in
    rw (ok_inj same) at (
      strip_loop-clean (length text) (length text) text [] stripped (unfold is_clean in refl)
        looped)

clean-shown :
    (c : ℕ) (s : Bytes) → is_clean 0 (c ∷ s) ≡ true → (is_control c ≡ false) × ((c == 0x1b) ≡ false)
unfolding is_clean is_control
clean-shown c s h = ground (arith, h)

clean-leading :
    (c : ℕ) (s : Bytes)
    → is_leading c ≡ true
    → is_clean 0 (c ∷ s) ≡ true
    → is_clean (expected c) s ≡ true
unfolding is_clean
clean-leading c s leading h = ground (arith, leading, h)

clean-single :
    (c : ℕ) (s : Bytes)
    → is_leading c ≡ false
    → is_clean 0 (c ∷ s) ≡ true
    → (within 0x80 0x9f c ≡ false) × (is_clean 0 s ≡ true)
unfolding is_clean
clean-single c s single h = ground (arith, single, h)

-- One round on a clean text copies what it reads.
strip_step-copies :
    (total c : ℕ) (s out : Bytes)
    → is_clean 0 (c ∷ s) ≡ true
    → ((strip_step total c s out).out ++ (strip_step total c s out).unread ≡ out ++ c ∷ s)
      × (is_clean 0 ((strip_step total c s out).unread) ≡ true)
unfolding strip_step
strip_step-copies total c s out h =
    let (shown, text) = clean-shown c s h in
    rw text (
      rw shown (elim (Bool-cases (is_leading c)) [
        | inl leading ↦
            let (whole, left) =
              (take_continuation-clean (expected c) s).1 (clean-leading c s leading h) in
            rw leading (append_assoc out _ _ ∙ ap (λ l. out ++ c ∷ l) whole, left)
        | inr single ↦
            let (plain, left) = clean-single c s single h in
            rw single (rw plain (append_assoc out (c ∷ []) s, left))
      ]))

strip_loop-copies :
    (fuel total : ℕ) (rest out : Bytes)
    → length rest ≤ fuel
    → length out + length rest ≤ total
    → is_clean 0 rest ≡ true
    → strip_loop fuel total rest out ≡ ok (out ++ rest)
unfolding strip_loop
strip_loop-copies fuel total [] out enough fits h = ap ok (sym (append-nil out))
strip_loop-copies zero total (c ∷ s) out enough fits h = absurd (omega arith)
strip_loop-copies (suc fuel) total (c ∷ s) out enough fits h =
    let p = strip_step total c s out in
    let (shorter, room) = strip_step-IsStep total c s out fits in
    let (whole, left) = strip_step-copies total c s out h in
    let behind : leb (length out) (total - length (c ∷ s)) ≡ true = le→leb _ _ (omega arith) in
    rw behind
      (strip_loop-copies fuel total p.unread p.out (omega (arith, shorter)) room left ∙ ap ok whole)

-- A text with none of the characters that are stripped is left as it is.
pub strip_ansi-id : (text : Bytes) → is_clean 0 text ≡ true → strip_ansi text ≡ ok text
unfolding strip_ansi
strip_ansi-id text h =
    rw (strip_loop-copies (length text) (length text) text [] (omega arith) (omega arith) h)
      (rw (le→leb (length text) (length text) (omega arith)) refl)

-- Stripping a stripped text changes nothing.
pub strip_ansi-strip_ansi : (text out : Bytes) → strip_ansi text ≡ ok out → strip_ansi out ≡ ok out
strip_ansi-strip_ansi text out returned = strip_ansi-id out (strip_ansi-clean text out returned)
