-- ===== src/Registry/Unfinished.antt =====
-- What the control inbox of src/nbs-sidecar/registry.c loses: the rest of a line that was read before its end was there.
use nbs_framework.Common.{
  ℕ, ◌+◌, ◌≡◌, refl, sym, ap, ◌∙◌, ◌≢◌, inl, inr, true, Option, some, [], ◌∷◌, ◌++◌, arith, leb,
  ◌==◌, Bool-cases,
}
use nbs_framework.Common.Outcome.{ok}
use nbs_framework.Common.Text.{Bytes, Lacks}
use nbs_framework.ChatFile.Message.{is_nul, c_string}
use nbs_framework.ChatFile.Number.{int_max}
use nbs_framework.ChatFile.Participants.{before_stop}
use nbs_framework.Registry.{count_from, line_total}
use nbs_framework.Registry.Calls.{
  process_text-few, process_text-end, process_text-read, c_string-append,
}
use nbs_framework.Registry.Pieces.{newlines}
use nbs_framework.Registry.Watch.{registry_process_inbox}

-- The rest of a line, up to its end or a NUL, adds no line.
count_from_rest :
    (last : ℕ) (b : Bytes)
    → last ≢ b'\n'
    → Lacks b'\n' b
    → count_from last (c_string (b ++ b'\n' ∷ [])) ≡ 1
unfolding count_from c_string is_nul before_stop
count_from_rest last [] other h = ground arith
count_from_rest last (c ∷ b) other (other', h) =
    ground (arith, count_from_rest c b other' h, other, other')

count_from-append :
    (last : ℕ) (s : Bytes) (c : ℕ) (t : Bytes)
    → c ≢ b'\n'
    → count_from last (s ++ c ∷ t) ≡ newlines s + count_from c t
unfolding count_from
count_from-append last [] c t other = ground (arith, other)
count_from-append last (d ∷ s) c t other = omega (arith, count_from-append d s c t other)

line_total-append :
    (s : Bytes) (c : ℕ) (t : Bytes)
    → c ≢ b'\n'
    → line_total (s ++ c ∷ t) ≡ newlines s + count_from c t
unfolding line_total
line_total-append [] c t other = ground (arith, other)
line_total-append (d ∷ s) c t other = omega (arith, count_from-append d s c t other)

last_line :
    (s : Bytes) (c : ℕ) (b : Bytes)
    → c ≢ b'\n'
    → Lacks b'\n' b
    → line_total (s ++ c_string (c ∷ (b ++ b'\n' ∷ []))) ≡ line_total (s ++ c_string (c ∷ []))
unfolding c_string is_nul before_stop
last_line s c b other h = elim (Bool-cases (c == 0)) [
  | inl nul ↦ rw nul refl
  | inr more ↦
      let open_line : count_from c [] ≡ 1 = unfold count_from in ground (arith, other) in
      let with_rest = line_total-append s c (c_string (b ++ b'\n' ∷ [])) other in
      let alone = line_total-append s c [] other in
      rw more (omega (arith, with_rest, count_from_rest c b other h, alone, open_line))
]

-- The lines are as many with the rest of the last one as without it.
line_total_open :
    (s : Bytes) (c : ℕ) (b : Bytes)
    → c ≢ b'\n'
    → Lacks b'\n' b
    → line_total (c_string (s ++ c ∷ (b ++ b'\n' ∷ []))) ≡ line_total (c_string (s ++ c ∷ []))
line_total_open s c b other h = elim (c_string-append s) [
  | inr short ↦ ap line_total (short (c ∷ (b ++ b'\n' ∷ [])) ∙ sym (short (c ∷ [])))
  | inl whole ↦ rw (whole (c ∷ (b ++ b'\n' ∷ []))) (rw (whole (c ∷ [])) (last_line s c b other h))
]

-- Where the inbox was read with an unfinished last line, the rest of that line is never looked at:
-- when it is there with its end, the next call on that inbox does nothing and goes on from the same
-- line.
pub registry_process_inbox_unfinished :
    (s : Bytes) (c : ℕ) (b : Bytes) (file mid : Option Bytes) (start inbox_line n : ℕ)
    → c ≢ b'\n'
    → Lacks b'\n' b
    → registry_process_inbox (some (s ++ c ∷ [])) file start ≡ ok (mid, inbox_line, n)
    → registry_process_inbox (some (s ++ c ∷ (b ++ b'\n' ∷ []))) mid inbox_line
      ≡ ok (mid, inbox_line, 0)
unfolding registry_process_inbox
registry_process_inbox_unfinished s c b file mid start inbox_line n other h returned =
    let short = c_string (s ++ c ∷ []) in
    let long = c_string (s ++ c ∷ (b ++ b'\n' ∷ [])) in
    let same = line_total_open s c b other h in
    let few : leb (line_total long) int_max ≡ true =
      rw same (process_text-few short file start (mid, inbox_line, n) returned) in
    process_text-read long mid inbox_line few
      (omega (arith, same, process_text-end short file mid start inbox_line n returned))
