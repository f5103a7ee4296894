-- ===== src/ChatFile/Log/Header.antt =====
-- The header of a file that holds a log, line by line, under any of the loops over it.
use nbs_framework.Common.{
  ℕ, ◌-◌, ◌<◌, ◌≤◌, ◌≡◌, ◌≢◌, ap, ◌∙◌, true, ◌∷◌, ◌++◌, map, append_assoc, arith, length,
  length-append, All-append,
}
use nbs_framework.Common.Decimal.{long_max, show_nat}
use nbs_framework.Common.Decimal.RoundTrip.{All-show_nat}
use nbs_framework.Common.Decimal.Size.{show_nat-le}
use nbs_framework.Common.Outcome.{Outcome, ok}
use nbs_framework.Common.Text.{Bytes, codes}
use nbs_framework.ChatFile.File.{marker, delimiter, lines_text, header_top, header_bottom}
use nbs_framework.ChatFile.Length.{length_line}
use nbs_framework.ChatFile.Lines.{IsPlain, fold_file, fold_file-line, max_message_len}
use nbs_framework.ChatFile.Log.{Log, IsLog, line_of, top_of, bottom_of}
use nbs_framework.ChatFile.Participants.RoundTrip.{render}

-- The lines of the header.
abbrev pub writer_line : Log → Bytes
writer_line g = codes "last-writer: " ++ g.writer

abbrev pub stamp_line : Log → Bytes
stamp_line g = codes "last-write: " ++ g.stamp

abbrev pub size_line : ℕ → Bytes
size_line n = codes "file-length: " ++ show_nat n

abbrev pub parts_line : Log → Bytes
parts_line g = codes "participants: " ++ render true g.participants

header_lines :
    (g : Log) (n : ℕ)
    → top_of g ++ (length_line n ++ bottom_of g)
      ≡ marker
        ++ b'\n'
          ∷ (writer_line g
              ++ b'\n'
                ∷ (stamp_line g
                    ++ b'\n'
                      ∷ (size_line n
                          ++ b'\n'
                            ∷ (parts_line g
                                ++ b'\n'
                                  ∷ (delimiter ++ b'\n' ∷ lines_text (map line_of g.entries))))))
unfolding header_top header_bottom length_line
header_lines g n = simp append_assoc

one_round {ℓ} :
    {S : Type ℓ} (step : S → Bytes → Outcome S) (s s' : S) (l rest : Bytes)
    → IsPlain l
    → length l < max_message_len - 1
    → step s l ≡ ok s'
    → fold_file step s (l ++ b'\n' ∷ rest) ≡ fold_file step s' rest
one_round step s s' l rest h lt e = fold_file-line step s l rest h lt ∙ rw e

-- A label and a plain text behind it are plain.
IsPlain-append : (t w : Bytes) → IsPlain t → IsPlain w → IsPlain (t ++ w)
IsPlain-append = All-append (λ c. (c ≢ 0) × (c ≢ b'\n') × (c ≢ b'\r'))

marker-IsPlain : IsPlain marker
marker-IsPlain = omega arith

delimiter-IsPlain : IsPlain delimiter
delimiter-IsPlain = omega arith

writer_label : IsPlain (codes "last-writer: ")
writer_label = omega arith

stamp_label : IsPlain (codes "last-write: ")
stamp_label = omega arith

size_label : IsPlain (codes "file-length: ")
size_label = omega arith

parts_label : IsPlain (codes "participants: ")
parts_label = omega arith

digits-IsPlain : (n : ℕ) → IsPlain (show_nat n)
digits-IsPlain n =
    All-show_nat (λ c. (c ≢ 0) × (c ≢ b'\n') × (c ≢ b'\r')) n
      (λ c d. (λ e. ground arith, λ e. ground arith, λ e. ground arith))

-- The six lines of the header are six rounds of the loop.
pub fold_header {ℓ} :
    {S : Type ℓ} (step : S → Bytes → Outcome S) (g : Log) (n : ℕ) (s s1 s2 s3 s4 s5 s6 : S)
    → IsLog g
    → n ≤ long_max
    → step s marker ≡ ok s1
    → step s1 (writer_line g) ≡ ok s2
    → step s2 (stamp_line g) ≡ ok s3
    → step s3 (size_line n) ≡ ok s4
    → step s4 (parts_line g) ≡ ok s5
    → step s5 delimiter ≡ ok s6
    → fold_file step s (top_of g ++ (length_line n ++ bottom_of g))
      ≡ fold_file step s6 (lines_text (map line_of g.entries))
fold_header step g n s s1 s2 s3 s4 s5 s6 v fits e1 e2 e3 e4 e5 e6 =
    let digits = show_nat-le n 19 (omega arith) (omega arith) in
    ap (fold_file step s) (header_lines g n)
    ∙ one_round step s s1 marker _ marker-IsPlain (omega arith) e1
    ∙ one_round step s1 s2 (writer_line g) _
        (IsPlain-append (codes "last-writer: ") g.writer writer_label v.writer_plain)
        (omega (arith, length-append (codes "last-writer: ") g.writer, v.writer_short)) e2
    ∙ one_round step s2 s3 (stamp_line g) _
        (IsPlain-append (codes "last-write: ") g.stamp stamp_label v.stamp_plain)
        (omega (arith, length-append (codes "last-write: ") g.stamp, v.stamp_short)) e3
    ∙ one_round step s3 s4 (size_line n) _
        (IsPlain-append (codes "file-length: ") (show_nat n) size_label (digits-IsPlain n))
        (omega (arith, length-append (codes "file-length: ") (show_nat n), digits)) e4
    ∙ one_round step s4 s5 (parts_line g) _
        (IsPlain-append (codes "participants: ") (render true g.participants) parts_label
          v.participants_plain)
        (omega (
          arith,
          length-append (codes "participants: ") (render true g.participants),
          v.participants_short,
        ))
        e5
    ∙ one_round step s5 s6 delimiter _ delimiter-IsPlain (omega arith) e6
