-- ===== src/ChatFile/Truncate/Keep.antt =====
-- The lines that `chat_truncate` keeps of a file that holds a log.
use nbs_framework.Base64.Encode.{length-encode_groups}
use nbs_framework.Common.{
  ℕ, zero, suc, ◌+◌, ◌<◌, ◌≤◌, ◌≡◌, refl, sym, ap, ◌∙◌, true, false, List, [], ◌∷◌, ◌++◌, map, ◌==◌,
  length, length-append, append_assoc, append-nil, take, All, arith,
}
use nbs_framework.Common.Outcome.{ok}
use nbs_framework.Common.Decimal.{long_max}
use nbs_framework.Common.Text.{Bytes, str_eq}
use nbs_framework.ChatFile.File.{marker, delimiter, lines_text}
use nbs_framework.ChatFile.Lines.{fold_file, fold_file-line, fold_file-nil}
use nbs_framework.ChatFile.Log.{Entry, Log, IsLegal, IsLog, Holds, wire_of, line_of}
use nbs_framework.ChatFile.Log.Header.{fold_header, writer_line, stamp_line, size_line, parts_line}
use nbs_framework.ChatFile.Log.Lines.{length-line_of, line_of-IsPlain, wire_pos}
use nbs_framework.ChatFile.Truncate.{Kept, keep_line, nothing_kept}

-- Some lines counted, the first of them kept.
abbrev pub counted : ℕ → List Bytes → Kept
counted total lines = record {
  seen_header_marker = true;
  past_delim = true;
  encoded_lines = lines;
  total_line_count = total;
}

line_some : (e : Entry) → (length (line_of e) == 0) ≡ false
line_some e = ground (arith, length-encode_groups (wire_of e), wire_pos e)

keep_line-more :
    (keep total : ℕ) (lines : List Bytes) (e : Entry)
    → length lines < keep
    → keep_line keep (counted total lines) (line_of e)
      ≡ ok (counted (total + 1) (lines ++ line_of e ∷ []))
unfolding keep_line
keep_line-more keep total lines e h = rw (line_some e) (ground arith)

keep_line-full :
    (keep total : ℕ) (lines : List Bytes) (e : Entry)
    → keep ≤ length lines
    → keep_line keep (counted total lines) (line_of e) ≡ ok (counted (total + 1) lines)
unfolding keep_line
keep_line-full keep total lines e h = rw (line_some e) (ground arith)

keep_full :
    (keep total : ℕ) (lines : List Bytes) (es : List Entry)
    → All IsLegal es
    → keep ≤ length lines
    → fold_file (keep_line keep) (counted total lines) (lines_text (map line_of es))
      ≡ ok (counted (total + length es) lines)
unfolding lines_text
keep_full keep total lines [] v h =
    fold_file-nil (keep_line keep) (counted total lines)
    ∙ ap (λ n. ok (counted n lines)) (omega arith)
keep_full keep total lines (e ∷ es) v h =
    fold_file-line (keep_line keep) (counted total lines) (line_of e) (lines_text (map line_of es))
      (line_of-IsPlain e) (length-line_of e v.0)
    ∙ rw (keep_line-full keep total lines e h)
        (keep_full keep (total + 1) lines es v.1 h ∙ ap (λ n. ok (counted n lines)) (omega arith))

-- With room for `more` lines, the first `more` are kept.
keep_entries :
    (keep more total : ℕ) (lines : List Bytes) (es : List Entry)
    → All IsLegal es
    → length lines + more ≡ keep
    → fold_file (keep_line keep) (counted total lines) (lines_text (map line_of es))
      ≡ ok (counted (total + length es) (lines ++ map line_of (take more es)))
unfolding lines_text
keep_entries keep zero total lines es v h =
    keep_full keep total lines es v (omega arith)
    ∙ ap (λ l. ok (counted (total + length es) l)) (sym (append-nil lines))
keep_entries keep (suc more) total lines [] v h =
    fold_file-nil (keep_line keep) (counted total lines)
    ∙ rw (append-nil lines) (ap (λ n. ok (counted n lines)) (omega arith))
keep_entries keep (suc more) total lines (e ∷ es) v h =
    let longer = lines ++ line_of e ∷ [] in
    fold_file-line (keep_line keep) (counted total lines) (line_of e) (lines_text (map line_of es))
      (line_of-IsPlain e) (length-line_of e v.0)
    ∙ rw (keep_line-more keep total lines e (omega arith)) (
        keep_entries keep more (total + 1) longer es v.1
          (omega (arith, length-append lines (line_of e ∷ [])))
        ∙ rw (append_assoc lines (line_of e ∷ []) (map line_of (take more es))) (
            ap (λ n. ok (counted n (lines ++ line_of e ∷ map line_of (take more es))))
              (omega arith)))

seen : Kept
seen = record nothing_kept { seen_header_marker = true }

keep_header :
    (g : Log) (n keep : ℕ)
    → (keep_line keep nothing_kept marker ≡ ok seen)
      × (keep_line keep seen (writer_line g) ≡ ok seen)
      × (keep_line keep seen (stamp_line g) ≡ ok seen)
      × (keep_line keep seen (size_line n) ≡ ok seen)
      × (keep_line keep seen (parts_line g) ≡ ok seen)
      × (keep_line keep seen delimiter ≡ ok (counted 0 []))
unfolding keep_line str_eq seen
keep_header g n keep = (refl, refl, refl, refl, refl, refl)

pub keep_log :
    (file : Bytes) (g : Log) (keep : ℕ)
    → Holds file g
    → IsLog g
    → length file ≤ long_max
    → fold_file (keep_line keep) nothing_kept file
      ≡ ok (counted (length g.entries) (map line_of (take keep g.entries)))
keep_log file g keep held v fits =
    let (e1, e2, e3, e4, e5, e6) = keep_header g (length file) keep in
    ap (fold_file (keep_line keep) nothing_kept) held.shape
    ∙ fold_header (keep_line keep) g (length file) nothing_kept seen seen seen seen seen
        (counted 0 []) v fits e1 e2 e3 e4 e5 e6
    ∙ keep_entries keep keep 0 [] g.entries v.entries_legal (omega arith)
    ∙ ap (λ n. ok (counted n (map line_of (take keep g.entries)))) (omega arith)
