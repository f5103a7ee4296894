-- ===== src/ChatFile/Participants/RoundTrip.antt =====
-- Reading the participants header that `format_participants` wrote.
use nbs_framework.Common.{
  ℕ, zero, suc, ◌+◌, ◌-◌, ◌<◌, ◌≤◌, ◌≡◌, ◌≢◌, refl, sym, ap, Bool, true, false, List, [], ◌∷◌, ◌++◌,
  append_assoc, append-nil, arith, length, length-append, All,
}
use nbs_framework.Common.Decimal.{pos, show_nat, show_int}
use nbs_framework.Common.Decimal.RoundTrip.{All-show_nat}
use nbs_framework.Common.Decimal.Size.{show_nat-le}
use nbs_framework.Common.Outcome.{ok, ◌>>=◌}
use nbs_framework.Common.Text.{Bytes}
use nbs_framework.ChatFile.Length.{show_nat_pos}
use nbs_framework.ChatFile.Number.{int_max, safe_parse_int-show_nat}
use nbs_framework.ChatFile.Participants.{
  Participant, max_handle_len, skip_separators, ends_handle, before_stop, from_stop, is_close,
  count_text, count_at, skip_close, after_count, at_end, parse_entries, parse_participants,
  entry_text, separator, format_entries, format_participants,
}

-- A handle that stands in the header: not empty, short enough, with no character that ends it, and
-- with no space in front.
pub record IsHeaderHandle (h : Bytes) : Type 0 where
  pub first : ℕ
  pub others : Bytes
  pub splits : h ≡ first ∷ others
  pub no_space : first ≢ b' '
  pub short : length h < max_handle_len
  pub clear : All (λ c. ends_handle c ≡ false) h

pub record IsEntry (p : Participant) : Type 0 where
  pub legal : IsHeaderHandle p.handle
  pub number : ℕ
  pub counted : p.count ≡ pos number
  pub in_range : number ≤ int_max

-- The text of the header, with no buffer.
abbrev pub render : Bool → List Participant → Bytes
render first [] = []
render first (p ∷ ps) = separator first ++ (entry_text p ++ render false ps)

format_entries-render :
    (first : Bool) (size : ℕ) (out : Bytes) (ps : List Participant)
    → length out + length (render first ps) < size
    → format_entries first size out ps ≡ out ++ render first ps
unfolding format_entries
format_entries-render first size out [] h = sym (append-nil out)
format_entries-render first size out (p ∷ ps) h =
    let one = length-append (separator first) (entry_text p ++ render false ps) in
    let two = length-append (entry_text p) (render false ps) in
    let three = length-append out (separator first) in
    let four = length-append (out ++ separator first) (entry_text p) in
    let later =
      format_entries-render false size ((out ++ separator first) ++ entry_text p) ps
        (omega arith) in
    let joined : ((out ++ separator first) ++ entry_text p) ++ render false ps
        ≡ out ++ (separator first ++ (entry_text p ++ render false ps)) =
      simp append_assoc in
    ground (arith, later, joined)

pub before_stop-append :
    (stop : ℕ → Bool) (h : Bytes) (d : ℕ) (s : Bytes)
    → All (λ c. stop c ≡ false) h
    → stop d ≡ true
    → before_stop stop (h ++ d ∷ s) ≡ h
unfolding before_stop
before_stop-append stop [] d s hs hd = rw hd
before_stop-append stop (c ∷ h) d s hs hd = rw (hs.0, before_stop-append stop h d s hs.1 hd)

pub before_stop-All :
    (stop : ℕ → Bool) (h : Bytes) → All (λ c. stop c ≡ false) h → before_stop stop h ≡ h
unfolding before_stop
before_stop-All stop [] hs = refl
before_stop-All stop (c ∷ h) hs = rw (hs.0, before_stop-All stop h hs.1)

pub from_stop-append :
    (stop : ℕ → Bool) (h : Bytes) (d : ℕ) (s : Bytes)
    → All (λ c. stop c ≡ false) h
    → stop d ≡ true
    → from_stop stop (h ++ d ∷ s) ≡ d ∷ s
unfolding from_stop
from_stop-append stop [] d s hs hd = rw hd
from_stop-append stop (c ∷ h) d s hs hd = rw hs.0 (from_stop-append stop h d s hs.1 hd)

-- The separator is skipped, and a legal handle is not.
skip_separators-handle :
    (first : Bool) (h s : Bytes)
    → IsHeaderHandle h
    → skip_separators (separator first ++ (h ++ s)) ≡ h ++ s
unfolding skip_separators separator ends_handle
skip_separators-handle true h s v = rw v.splits (ground (arith, rw v.splits at v.clear))
skip_separators-handle false h s v = rw v.splits (ground (arith, rw v.splits at v.clear))

digits_no_close : (n : ℕ) → All (λ c. is_close c ≡ false) (show_nat n)
unfolding is_close
digits_no_close n = All-show_nat (λ c. is_close c ≡ false) n (λ c h. ground arith)

count_text-show_nat : (n : ℕ) → n ≤ int_max → count_text (show_nat n) ≡ pos n
unfolding count_text
count_text-show_nat n h =
    let short = show_nat-le n 10 (omega arith) (omega arith) in
    rw (safe_parse_int-show_nat n h) (ground (arith, short, show_nat_pos n))

-- What stands behind a handle.
abbrev counted_text : ℕ → Bytes → Bytes
counted_text n rest = b'(' ∷ (show_nat n ++ b')' ∷ rest)

count_at-counted : (n : ℕ) (rest : Bytes) → n ≤ int_max → count_at (counted_text n rest) ≡ pos n
unfolding count_at
count_at-counted n rest h =
    rw
      (before_stop-append is_close (show_nat n) b')' rest (digits_no_close n)
        (unfold is_close in refl))
      (count_text-show_nat n h)

after_count-counted : (n : ℕ) (rest : Bytes) → after_count (counted_text n rest) ≡ rest
unfolding after_count skip_close
after_count-counted n rest =
    rw (
      from_stop-append is_close (show_nat n) b')' rest (digits_no_close n)
        (unfold is_close in refl))

entry_text-append :
    (p : Participant) (n : ℕ) (rest : Bytes)
    → p.count ≡ pos n
    → entry_text p ++ rest ≡ p.handle ++ counted_text n rest
unfolding entry_text show_int
entry_text-append p n rest e = rw e (simp append_assoc)

at_end-handle : (h s : Bytes) → IsHeaderHandle h → at_end (h ++ s) ≡ false
unfolding at_end ends_handle
at_end-handle h s v = rw v.splits (ground (arith, rw v.splits at v.clear))

length_handle : (h : Bytes) → IsHeaderHandle h → 0 < length h
length_handle h v = omega (arith, ap length v.splits)

-- One round of the parser reads one entry.
parse_entries_step :
    (fuel room : ℕ) (first : Bool) (p : Participant) (rest : Bytes)
    → IsEntry p
    → parse_entries (suc fuel) (suc room) (separator first ++ (entry_text p ++ rest))
      ≡ p ∷ parse_entries fuel room rest
unfolding parse_entries
parse_entries_step fuel room first p rest v =
    let tail = counted_text v.number rest in
    let opens : ends_handle b'(' ≡ true = unfold ends_handle in refl in
    let one_less : suc room - 1 ≡ room = omega arith in
    rw (entry_text-append p v.number rest v.counted) (
      rw (skip_separators-handle first p.handle tail v.legal) (
        rw
          (
            before_stop-append ends_handle p.handle b'(' (show_nat v.number ++ b')' ∷ rest)
                v.legal.clear opens,
            from_stop-append ends_handle p.handle b'(' (show_nat v.number ++ b')' ∷ rest)
                v.legal.clear opens,
          )
          (rw
            (
              at_end-handle p.handle tail v.legal,
              count_at-counted v.number rest v.in_range,
              after_count-counted v.number rest,
              one_less,
            )
            (ground (arith, length_handle p.handle v.legal, v.legal.short, v.counted)))))

parse_entries-render :
    (fuel room : ℕ) (first : Bool) (ps : List Participant)
    → length ps < fuel
    → length ps ≤ room
    → All IsEntry ps
    → parse_entries fuel room (render first ps) ≡ ps
parse_entries-render zero room first ps h r v = absurd (omega arith)
parse_entries-render (suc fuel) room first [] h r v =
    unfold parse_entries skip_separators at_end in ground arith
parse_entries-render (suc fuel) zero first (p ∷ ps) h r v = absurd (omega arith)
parse_entries-render (suc fuel) (suc room) first (p ∷ ps) h r v =
    rw (parse_entries_step fuel room first p (render false ps) v.0)
      (ap (◌∷◌ p) (parse_entries-render fuel room false ps (omega arith) (omega arith) v.1))

length-le-render : (first : Bool) (ps : List Participant) → length ps ≤ length (render first ps)
unfolding entry_text
length-le-render first [] = omega arith
length-le-render first (p ∷ ps) = omega (
  arith,
  length-le-render false ps,
  length-append (separator first) (entry_text p ++ render false ps),
  length-append (entry_text p) (render false ps),
  length-append p.handle (b'(' ∷ (show_int p.count ++ b')' ∷ [])),
)

pub parse_participants-render :
    (ps : List Participant) (max_parts : ℕ)
    → All IsEntry ps
    → length ps ≤ max_parts
    → parse_participants (render true ps) max_parts ≡ ps
unfolding parse_participants
parse_participants-render ps max_parts v r =
    parse_entries-render (suc (length (render true ps))) max_parts true ps
      (omega (arith, length-le-render true ps)) r v

pub format_participants-render :
    (ps : List Participant) (size : ℕ)
    → length (render true ps) < size
    → format_participants ps size ≡ ok (render true ps)
unfolding format_participants
format_participants-render ps size h =
    rw (format_entries-render true size [] ps (omega arith)) (ground arith)

-- Participants with legal handles and counts in the range of `int`, as many as the reader takes, are
-- read back from the header that is written for them into a buffer with room for it.
pub parse-format :
    (ps : List Participant) (max_parts size : ℕ)
    → All IsEntry ps
    → length ps ≤ max_parts
    → length (render true ps) < size
    → (do line ← format_participants ps size; ok (parse_participants line max_parts)) ≡ ok ps
parse-format ps max_parts size v r h =
    rw (format_participants-render ps size h) (ap ok (parse_participants-render ps max_parts v r))
