-- ===== src/Registry/Pieces.antt =====
-- The control inbox of src/nbs-sidecar/registry.c read in pieces, as it grows.
use mathlib.Core.Path.{ap₂}
use nbs_framework.Common.{
  ℕ, zero, suc, ◌+◌, ◌-◌, ◌≤◌, ◌<◌, ◌≡◌, refl, sym, ap, ◌∙◌, subst, inl, inr, false, Option, some,
  [], ◌∷◌, ◌++◌, append_assoc, arith, ◌==◌, if◌then◌else◌, Bool-cases, length,
}
use nbs_framework.Common.Outcome.{Outcome, ok, fail, abort, ◌>>=◌, bind-eq-ok, ok_inj}
use nbs_framework.Common.Text.{Bytes}
use nbs_framework.ChatFile.Message.{is_nul, c_string}
use nbs_framework.ChatFile.Participants.{before_stop}
use nbs_framework.Registry.{nbs_max_path, count_from, line_total, skip_lines, copy_line, get_line_n}
use nbs_framework.Registry.Watch.{process_line, process_lines, process_text, registry_process_inbox}
use nbs_framework.Registry.Calls.{
  process_text-few, process_text-end, process_text-read, inbox_lines, lines_inbox, c_string-append,
}

-- The line ends of a text.
abbrev pub newlines : Bytes → ℕ
newlines [] = 0
newlines (c ∷ s) = (if c == b'\n' then 1 else 0) + newlines s

count_from-line :
    (last : ℕ) (s rest : Bytes)
    → count_from last (s ++ b'\n' ∷ rest) ≡ newlines s + 1 + line_total rest
unfolding count_from line_total
count_from-line last [] [] = omega arith
count_from-line last [] (c ∷ rest) = omega arith
count_from-line last (c ∷ s) rest = omega (arith, count_from-line c s rest)

line_total-line :
    (s rest : Bytes) → line_total (s ++ b'\n' ∷ rest) ≡ newlines s + 1 + line_total rest
unfolding line_total count_from
line_total-line [] [] = omega arith
line_total-line [] (c ∷ rest) = omega arith
line_total-line (c ∷ s) rest = omega (arith, count_from-line c s rest)

newlines-append : (a b : Bytes) → newlines (a ++ b) ≡ newlines a + newlines b
newlines-append [] b = omega arith
newlines-append (c ∷ a) b = omega (arith, newlines-append a b)

-- Skipping fewer line ends than there are stops before the next one, wherever the text ends.
skip_lines-append :
    (n : ℕ) (a b : Bytes)
    → n < newlines a
    → (p : Bytes) × (0 < newlines p)
      × (skip_lines n a ≡ (n, p))
      × (skip_lines n (a ++ b) ≡ (n, p ++ b))
unfolding skip_lines
skip_lines-append zero a b h = (a, h, refl, refl)
skip_lines-append (suc n) [] b h = absurd (omega arith)
skip_lines-append (suc n) (c ∷ a) b h = elim (Bool-cases (c == b'\n')) [
  | inl end ↦
      let fewer : n < newlines a = ground (arith, end, h) in
      let (p, some_end, whole, longer) = skip_lines-append n a b fewer in
      let count : n + 1 ≡ suc n = omega arith in
      (p, some_end, rw end (rw whole (rw count refl)), rw end (rw longer (rw count refl)))
  | inr other ↦
      let same : suc n < newlines a = ground (arith, other, h) in
      let (p, some_end, whole, longer) = skip_lines-append (suc n) a b same in
      (p, some_end, rw other whole, rw other longer)
]

copy_line-append :
    (room : ℕ) (p b : Bytes) → 0 < newlines p → copy_line room (p ++ b) ≡ copy_line room p
unfolding copy_line
copy_line-append zero p b h = refl
copy_line-append (suc room) [] b h = absurd (omega arith)
copy_line-append (suc room) (c ∷ p) b h = elim (Bool-cases (c == b'\n')) [
  | inl end ↦ rw end refl
  | inr other ↦
      let later : 0 < newlines p = ground (arith, other, h) in
      rw other (ap (◌∷◌ c) (copy_line-append room p b later))
]

-- A line that has its end is the same when the text grows.
get_line_n-append :
    (a b : Bytes) (n out_size : ℕ)
    → n < newlines a
    → get_line_n (a ++ b) n out_size ≡ get_line_n a n out_size
unfolding get_line_n
get_line_n-append a b n out_size h =
    let (p, some_end, whole, longer) = skip_lines-append n a b h in
    let filled : (length p == 0) ≡ false = not_empty p some_end in
    let filled_too : (length (p ++ b) == 0) ≡ false =
      not_empty (p ++ b) (omega (arith, newlines-append p b, some_end)) in
    rw whole (
      rw longer
        (rw filled (rw filled_too (rw (copy_line-append (out_size - 1) p b some_end) refl))))
  where
    not_empty : (s : Bytes) → 0 < newlines s → (length s == 0) ≡ false
    not_empty [] k = absurd (omega arith)
    not_empty (c ∷ s) k = ground arith

process_lines-append :
    (count : ℕ) (a b : Bytes) (i : ℕ) (file : Option Bytes) (processed : ℕ)
    → i + count ≤ newlines a
    → process_lines count (a ++ b) i file processed ≡ process_lines count a i file processed
unfolding process_lines
process_lines-append zero a b i file processed h = refl
process_lines-append (suc count) a b i file processed h =
    rw (get_line_n-append a b i nbs_max_path (omega arith)) (
      bind_same (process_line file (get_line_n a i nbs_max_path)) _ _
        (λ r. process_lines-append count a b (i + 1) r.0 (processed + r.1) (omega arith)))
  where
    bind_same :
        (o : Outcome (Option Bytes × ℕ)) (f g : Option Bytes × ℕ → Outcome (Option Bytes × ℕ))
        → ((r : Option Bytes × ℕ) → f r ≡ g r)
        → (o >>= f) ≡ (o >>= g)
    bind_same (ok r) f g h = h r
    bind_same (fail k) f g h = refl
    bind_same abort f g h = refl

process_lines-later :
    (count : ℕ) (buf : Bytes) (i : ℕ) (file file' : Option Bytes) (processed start n : ℕ)
    → process_lines count buf i file start ≡ ok (file', n)
    → process_lines count buf i file (processed + start) ≡ ok (file', processed + n)
unfolding process_lines
process_lines-later zero buf i file file' processed start n h =
    ap₂ (λ f m. ok (f, processed + m)) (ap (λ r. r.0) (ok_inj h)) (ap (λ r. r.1) (ok_inj h))
process_lines-later (suc count) buf i file file' processed start n h =
    let ((next, one), run, rest) =
      bind-eq-ok (process_line file (get_line_n buf i nbs_max_path)) _ h in
    let regroup : processed + start + one ≡ processed + (start + one) = omega arith in
    rw run
      (rw regroup (process_lines-later count buf (i + 1) next file' processed (start + one) n rest))

process_lines-split :
    (first second : ℕ) (buf : Bytes) (i : ℕ) (file mid file' : Option Bytes) (start n m : ℕ)
    → process_lines first buf i file start ≡ ok (mid, n)
    → process_lines second buf (i + first) mid 0 ≡ ok (file', m)
    → process_lines (first + second) buf i file start ≡ ok (file', n + m)
unfolding process_lines
process_lines-split zero second buf i file mid file' start n m h k =
    let here : mid ≡ file = ap (λ r. r.0) (ok_inj (sym h)) in
    let count : n + 0 ≡ start = omega (arith, ap (λ r. r.1) (ok_inj h)) in
    let none_first : 0 + second ≡ second = omega arith in
    let at_start : i + 0 ≡ i = omega arith in
    let again : process_lines second buf i file 0 ≡ ok (file', m) =
      subst (λ j. process_lines second buf j file 0 ≡ ok (file', m)) at_start
        (subst (λ f. process_lines second buf (i + 0) f 0 ≡ ok (file', m)) here k) in
    rw none_first (
      subst (λ p. process_lines second buf i file p ≡ ok (file', n + m)) count
        (process_lines-later second buf i file file' n 0 m again))
process_lines-split (suc first) second buf i file mid file' start n m h k =
    let ((next, one), run, rest) =
      bind-eq-ok (process_line file (get_line_n buf i nbs_max_path)) _ h in
    let one_more : suc first + second ≡ suc (first + second) = omega arith in
    let moved : i + suc first ≡ i + 1 + first = omega arith in
    let k' : process_lines second buf (i + 1 + first) mid 0 ≡ ok (file', m) =
      subst (λ j. process_lines second buf j mid 0 ≡ ok (file', m)) moved k in
    rw one_more (
      rw run
        (process_lines-split first second buf (i + 1) next mid file' (start + one) n m rest k'))

process_text-append :
    (a b : Bytes) (file mid file' : Option Bytes) (inbox_line inbox_line' n m : ℕ)
    → process_text (a ++ b'\n' ∷ []) file 0 ≡ ok (mid, inbox_line, n)
    → process_text (a ++ b'\n' ∷ b) mid inbox_line ≡ ok (file', inbox_line', m)
    → process_text (a ++ b'\n' ∷ b) file 0 ≡ ok (file', inbox_line', n + m)
process_text-append a b file mid file' inbox_line inbox_line' n m first second =
    let part = a ++ b'\n' ∷ [] in
    let whole = a ++ b'\n' ∷ b in
    let ends = newlines-append a (b'\n' ∷ []) in
    let none_left : line_total [] ≡ 0 = unfold line_total in refl in
    let size : line_total part ≡ newlines a + 1 = omega (arith, line_total-line a [], none_left) in
    let total : line_total whole ≡ newlines a + 1 + line_total b = line_total-line a b in
    let (run, stopped) = lines_inbox part file mid 0 inbox_line n (omega arith) first in
    let (run', stopped') =
      lines_inbox whole mid file' inbox_line inbox_line' m (omega (arith, stopped, size, total))
        second in
    let few = process_text-few whole mid inbox_line (file', inbox_line', m) second in
    let from_zero : line_total part - 0 ≡ newlines a + 1 = omega (arith, size) in
    let old_lines : process_lines (newlines a + 1) part 0 file 0 ≡ ok (mid, n) =
      subst (λ k. process_lines k part 0 file 0 ≡ ok (mid, n)) from_zero run in
    let old_in_whole : process_lines (newlines a + 1) whole 0 file 0 ≡ ok (mid, n) =
      subst (λ t. process_lines (newlines a + 1) t 0 file 0 ≡ ok (mid, n))
        (append_assoc a (b'\n' ∷ []) b)
        (process_lines-append (newlines a + 1) part b 0 file 0 (omega (arith, ends)) ∙ old_lines) in
    let left : line_total whole - inbox_line ≡ line_total b = omega (arith, stopped, size, total) in
    let here : inbox_line ≡ 0 + (newlines a + 1) = omega (arith, stopped, size) in
    let new_lines : process_lines (line_total b) whole (0 + (newlines a + 1)) mid 0
        ≡ ok (file', m) =
      subst (λ j. process_lines (line_total b) whole j mid 0 ≡ ok (file', m)) here
        (subst (λ k. process_lines k whole inbox_line mid 0 ≡ ok (file', m)) left run') in
    let all_lines : newlines a + 1 + line_total b ≡ line_total whole - 0 = omega (arith, total) in
    let both : process_lines (line_total whole - 0) whole 0 file 0 ≡ ok (file', n + m) =
      subst (λ k. process_lines k whole 0 file 0 ≡ ok (file', n + m)) all_lines
        (process_lines-split (newlines a + 1) (line_total b) whole 0 file mid file' 0 n m
          old_in_whole new_lines) in
    inbox_lines whole file file' 0 (n + m) few (omega arith) both
    ∙ ap (λ l. ok (file', l, n + m)) (sym stopped')

-- Two calls on the same text, the first one from its beginning, do what the first one does.
process_text-again :
    (buf : Bytes) (file mid file' : Option Bytes) (inbox_line inbox_line' n m : ℕ)
    → process_text buf file 0 ≡ ok (mid, inbox_line, n)
    → process_text buf mid inbox_line ≡ ok (file', inbox_line', m)
    → process_text buf file 0 ≡ ok (file', inbox_line', n + m)
process_text-again buf file mid file' inbox_line inbox_line' n m first second =
    let few = process_text-few buf file 0 (mid, inbox_line, n) first in
    let read = process_text-end buf file mid 0 inbox_line n first in
    let same = ok_inj (sym (process_text-read buf mid inbox_line few read) ∙ second) in
    let none_left : n ≡ n + m = omega (arith, ap (λ r. r.2) same) in
    first ∙ ap (λ r. ok (r.0, r.1, n)) same ∙ ap (λ k. ok (file', inbox_line', k)) none_left

-- Processing an inbox that ends with a line end, and processing it again from there after it has grown, has the
-- result of processing it once when it has grown: the same registry, the same line to go on from, and as many commands.
pub registry_process_inbox-append :
    (a b : Bytes) (file mid file' : Option Bytes) (inbox_line inbox_line' n m : ℕ)
    → registry_process_inbox (some (a ++ b'\n' ∷ [])) file 0 ≡ ok (mid, inbox_line, n)
    → registry_process_inbox (some (a ++ b'\n' ∷ b)) mid inbox_line ≡ ok (file', inbox_line', m)
    → registry_process_inbox (some (a ++ b'\n' ∷ b)) file 0 ≡ ok (file', inbox_line', n + m)
unfolding registry_process_inbox
registry_process_inbox-append a b file mid file' inbox_line inbox_line' n m first second =
    elim (c_string-append a) [
      | inl whole ↦
          let ends : c_string (b'\n' ∷ []) ≡ b'\n' ∷ [] =
            unfold c_string is_nul before_stop in refl in
          let goes_on : c_string (b'\n' ∷ b) ≡ b'\n' ∷ c_string b =
            unfold c_string is_nul before_stop in refl in
          let part : c_string (a ++ b'\n' ∷ []) ≡ a ++ b'\n' ∷ [] =
            whole (b'\n' ∷ []) ∙ ap (λ t. a ++ t) ends in
          let all : c_string (a ++ b'\n' ∷ b) ≡ a ++ b'\n' ∷ c_string b =
            whole (b'\n' ∷ b) ∙ ap (λ t. a ++ t) goes_on in
          rw all (
            process_text-append a (c_string b) file mid file' inbox_line inbox_line' n m
              (rw part at first) (rw all at second))
      | inr short ↦ rw (short (b'\n' ∷ b)) (
          process_text-again (c_string a) file mid file' inbox_line inbox_line' n m
            (rw (short (b'\n' ∷ [])) at first) (rw (short (b'\n' ∷ b)) at second))
    ]
