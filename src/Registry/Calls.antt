-- ===== src/Registry/Calls.antt =====
-- What a call on the text of the control inbox of src/nbs-sidecar/registry.c returns, and the inbox up to its first NUL.
use nbs_framework.Common.{
  ℕ, ◌-◌, ◌≤◌, ◌≡◌, refl, sym, ap, ◌∙◌, ◌⊎◌, true, inl, inr, Option, [], ◌∷◌, ◌++◌, arith, leb,
  ◌==◌, leb→le, le→leb, Bool-cases,
}
use nbs_framework.Common.Outcome.{ok, bind-eq-ok, ok_inj, assert-eq-ok}
use nbs_framework.Common.Text.{Bytes}
use nbs_framework.ChatFile.Message.{is_nul, c_string}
use nbs_framework.ChatFile.Number.{int_max}
use nbs_framework.ChatFile.Participants.{before_stop}
use nbs_framework.Registry.{line_total, count_lines}
use nbs_framework.Registry.Watch.{process_lines, process_text}

-- A call that returns has counted no more lines than an `int` holds.
pub process_text-few :
    (buf : Bytes) (file : Option Bytes) (inbox_line : ℕ) (r : Option Bytes × ℕ × ℕ)
    → process_text buf file inbox_line ≡ ok r
    → leb (line_total buf) int_max ≡ true
unfolding process_text count_lines
process_text-few buf file inbox_line r returned =
    let (total, counted, rest) = bind-eq-ok (count_lines buf) _ returned in
    (assert-eq-ok (leb (line_total buf) int_max) _ counted).0

-- What a call on an inbox that has grown returns, from the lines that it processes.
pub inbox_lines :
    (buf : Bytes) (file file' : Option Bytes) (inbox_line n : ℕ)
    → leb (line_total buf) int_max ≡ true
    → inbox_line ≤ line_total buf
    → process_lines (line_total buf - inbox_line) buf inbox_line file 0 ≡ ok (file', n)
    → process_text buf file inbox_line ≡ ok (file', line_total buf, n)
unfolding process_text count_lines
inbox_lines buf file file' inbox_line n few ahead run =
    rw few (elim (Bool-cases (leb (line_total buf) inbox_line)) [
      | inl old ↦
          let all_read : line_total buf - inbox_line ≡ 0 =
            omega (arith, leb→le (line_total buf) inbox_line old) in
          let at_end : inbox_line ≡ line_total buf =
            omega (arith, leb→le (line_total buf) inbox_line old) in
          let nothing : process_lines 0 buf inbox_line file 0 ≡ ok (file', n) =
            rw all_read at run in
          let done : ok (file, 0) ≡ ok (file', n) = unfold process_lines in nothing in
          rw old
            (ap (λ r. ok (r.0, inbox_line, r.1)) (ok_inj done) ∙ ap (λ l. ok (file', l, n)) at_end)
      | inr new ↦ rw new (rw run (rw (le→leb inbox_line (line_total buf) ahead) refl))
    ])

-- What the lines are, from what a call returns.
pub lines_inbox :
    (buf : Bytes) (file file' : Option Bytes) (inbox_line inbox_line' n : ℕ)
    → inbox_line ≤ line_total buf
    → process_text buf file inbox_line ≡ ok (file', inbox_line', n)
    → (process_lines (line_total buf - inbox_line) buf inbox_line file 0 ≡ ok (file', n))
      × (inbox_line' ≡ line_total buf)
unfolding process_text count_lines
lines_inbox buf file file' inbox_line inbox_line' n ahead returned =
    let few = process_text-few buf file inbox_line (file', inbox_line', n) returned in
    let run_it = rw few at returned in
    elim (Bool-cases (leb (line_total buf) inbox_line)) [
      | inl old ↦
          let all_read : line_total buf - inbox_line ≡ 0 =
            omega (arith, leb→le (line_total buf) inbox_line old) in
          let at_end : inbox_line ≡ line_total buf =
            omega (arith, leb→le (line_total buf) inbox_line old) in
          let same = ok_inj (rw old at run_it) in
          (
            rw all_read (unfold process_lines in ap (λ r. ok (r.0, r.2)) same),
            sym (ap (λ r. r.1) same) ∙ at_end,
          )
      | inr new ↦
          let ((next, m), run, rest) =
            bind-eq-ok (process_lines (line_total buf - inbox_line) buf inbox_line file 0) _
              (rw new at run_it) in
          let same = ok_inj ((assert-eq-ok (leb inbox_line (line_total buf)) _ rest).1) in
          (run ∙ ap (λ r. ok (r.0, r.2)) same, sym (ap (λ r. r.1) same))
    ]

-- A call that returns goes on from the end of the inbox, or from a line behind it.
pub process_text-end :
    (buf : Bytes) (file file' : Option Bytes) (inbox_line inbox_line' n : ℕ)
    → process_text buf file inbox_line ≡ ok (file', inbox_line', n)
    → line_total buf ≤ inbox_line'
unfolding process_text count_lines
process_text-end buf file file' inbox_line inbox_line' n returned =
    elim (Bool-cases (leb (line_total buf) inbox_line)) [
      | inl old ↦
          let few = process_text-few buf file inbox_line (file', inbox_line', n) returned in
          let stays = ok_inj (rw old at (rw few at returned)) in
          let same : inbox_line ≡ inbox_line' = ap (λ r. r.1) stays in
          omega (arith, leb→le (line_total buf) inbox_line old, same)
      | inr new ↦
          let ahead : inbox_line ≤ line_total buf = ground (arith, new) in
          omega (arith, (lines_inbox buf file file' inbox_line inbox_line' n ahead returned).1)
    ]

-- A call at the end of the inbox, or behind it, does nothing.
pub process_text-read :
    (buf : Bytes) (file : Option Bytes) (inbox_line : ℕ)
    → leb (line_total buf) int_max ≡ true
    → line_total buf ≤ inbox_line
    → process_text buf file inbox_line ≡ ok (file, inbox_line, 0)
unfolding process_text count_lines
process_text-read buf file inbox_line few read =
    rw few (rw (le→leb (line_total buf) inbox_line read) refl)

-- The text before the first NUL either is all of `a` and what is behind it, or does not reach what is behind `a`.
pub c_string-append :
    (a : Bytes)
    → ((t : Bytes) → c_string (a ++ t) ≡ a ++ c_string t)
      ⊎ ((t : Bytes) → c_string (a ++ t) ≡ c_string a)
unfolding c_string is_nul before_stop
c_string-append [] = inl (λ t. refl)
c_string-append (c ∷ a) = elim (Bool-cases (c == 0)) [
  | inl nul ↦ inr (λ t. rw nul refl)
  | inr other ↦ elim (c_string-append a) [
    | inl whole ↦ inl (λ t. rw other (ap (◌∷◌ c) (whole t)))
    | inr short ↦ inr (λ t. rw other (ap (◌∷◌ c) (short t)))
  ]
]
