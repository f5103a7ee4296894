-- ===== src/ChatFile/Log/Read.antt =====
-- `chat_read` on a file that holds a log.
use nbs_framework.Common.{
  ℕ, suc, ◌+◌, ◌-◌, ◌≤◌, ◌≡◌, refl, ap, ◌∙◌, true, false, some, List, [], ◌∷◌, ◌++◌, map,
  append_assoc, append-nil, arith, length, length-append, take, All,
}
use nbs_framework.Common.Decimal.{pos, long_max, show_nat}
use nbs_framework.Common.Outcome.{ok}
use nbs_framework.Common.Text.{Bytes, codes, str_eq}
use nbs_framework.ChatFile.File.{
  ChatState, Reader, marker, delimiter, start, no_state, read_field, read_line, lines_text,
  chat_read, max_messages,
}
use nbs_framework.ChatFile.Length.{length_line}
use nbs_framework.ChatFile.Lines.{fold_file, fold_file-line, fold_file-nil}
use nbs_framework.ChatFile.Log.{
  Entry, Log, IsLegal, IsLog, Holds, message_of, line_of, top_of, bottom_of,
}
use nbs_framework.ChatFile.Log.Header.{fold_header}
use nbs_framework.ChatFile.Log.Lines.{read_line-line_of, length-line_of, line_of-IsPlain}
use nbs_framework.ChatFile.Number.{safe_parse_int64-show_nat}
use nbs_framework.ChatFile.Participants.{max_handle_len, parse_participants}
use nbs_framework.ChatFile.Participants.RoundTrip.{render, parse_participants-render}
use nbs_framework.ChatFile.Participants.Update.{take_all}

-- The loop over the lines of messages.
fold_entries :
    (r : Reader) (es : List Entry)
    → All IsLegal es
    → r.in_header ≡ false
    → r.past_header ≡ true
    → length r.state.messages + length es ≤ max_messages
    → fold_file read_line r (lines_text (map line_of es))
      ≡ ok (record r {
        state = record (r.state) { messages = r.state.messages ++ map message_of es };
      })
unfolding lines_text
fold_entries r [] v hi hp few = fold_file-nil read_line r ∙ rw append-nil
fold_entries r (e ∷ es) v hi hp few =
    let st = r.state in
    let next : Reader = record r {
      state = record st { messages = st.messages ++ message_of e ∷ [] };
    } in
    fold_file-line read_line r (line_of e) (lines_text (map line_of es)) (line_of-IsPlain e)
      (length-line_of e v.0)
    ∙ rw (read_line-line_of r e v.0 hi hp (omega arith)) (
        fold_entries next es v.1 hi hp
          (omega (arith, length-append st.messages (message_of e ∷ [])))
        ∙ rw (append_assoc st.messages (message_of e ∷ []) (map message_of es)))

-- Each header line, with what it sets.
in_header : ChatState → Reader
in_header st = record { in_header = true; past_header = false; state = st }

read_marker : read_line start marker ≡ ok (in_header no_state)
unfolding read_line str_eq in_header
read_marker = refl

module _ (st : ChatState) where
  read_writer :
      (w : Bytes)
      → read_line (in_header st) (codes "last-writer: " ++ w)
        ≡ ok (in_header (record st { last_writer = take (max_handle_len - 1) w }))
  unfolding read_line str_eq in_header read_field
  read_writer w = refl

  read_stamp :
      (w : Bytes)
      → read_line (in_header st) (codes "last-write: " ++ w)
        ≡ ok (in_header (record st { last_write = take 63 w }))
  unfolding read_line str_eq in_header read_field
  read_stamp w = refl

  read_size :
      (n : ℕ)
      → n ≤ long_max
      → read_line (in_header st) (codes "file-length: " ++ show_nat n)
        ≡ ok (in_header (record st { file_length = pos n }))
  unfolding read_line str_eq in_header read_field
  read_size n h = rw (safe_parse_int64-show_nat n h)

  read_parts :
      (w : Bytes)
      → read_line (in_header st) (codes "participants: " ++ w)
        ≡ ok (in_header (record st { participants = parse_participants w 256 }))
  unfolding read_line str_eq in_header read_field
  read_parts w = refl

  read_delimiter :
      read_line (in_header st) delimiter
      ≡ ok (record { in_header = false; past_header = true; state = st })
  unfolding read_line str_eq in_header
  read_delimiter = refl

-- The state that `chat_read` returns for a log in a file of `n` bytes.
abbrev pub state_of : Log → ℕ → ChatState
state_of g n = record {
  last_writer = g.writer;
  last_write = g.stamp;
  file_length = pos n;
  participants = g.participants;
  messages = map message_of g.entries;
  skipped_count = 0;
}

length-map-message_of : (es : List Entry) → length (map message_of es) ≡ length es
length-map-message_of [] = refl
length-map-message_of (e ∷ es) = ap suc (length-map-message_of es)

fold_log :
    (g : Log) (n : ℕ)
    → IsLog g
    → n ≤ long_max
    → fold_file read_line start (top_of g ++ (length_line n ++ bottom_of g))
      ≡ ok (record { in_header = false; past_header = true; state = state_of g n })
fold_log g n v fits =
    let st1 : ChatState = record no_state { last_writer = take (max_handle_len - 1) g.writer } in
    let st2 : ChatState = record st1 { last_write = take 63 g.stamp } in
    let st3 : ChatState = record st2 { file_length = pos n } in
    let st4 : ChatState = record st3 {
      participants = parse_participants (render true g.participants) 256;
    } in
    let r : Reader = record { in_header = false; past_header = true; state = st4 } in
    let writer = take_all (max_handle_len - 1) g.writer (omega (arith, v.writer_short)) in
    let stamp = take_all 63 g.stamp (omega (arith, v.stamp_short)) in
    let parts =
      parse_participants-render g.participants 256 v.participants_legal v.participants_few in
    fold_header read_line g n start (in_header no_state) (in_header st1) (in_header st2)
      (in_header st3) (in_header st4) r v fits read_marker (read_writer no_state g.writer)
      (read_stamp st1 g.stamp) (read_size st2 n fits) (read_parts st3 (render true g.participants))
      (read_delimiter st4)
    ∙ fold_entries r g.entries v.entries_legal refl refl (omega (arith, v.entries_few))
    ∙ cc (writer, stamp, parts)

-- A file that holds a legal log, and that a 64-bit length can describe, is read without a failed
-- assertion into that log: its writer, its time, its participants and its messages in order, with
-- no line skipped.
pub chat_read-Holds :
    (file : Bytes) (g : Log)
    → Holds file g
    → IsLog g
    → length file ≤ long_max
    → chat_read (some file) ≡ ok (state_of g (length file))
unfolding chat_read
chat_read-Holds file g held v fits =
    let read : fold_file read_line start file
        ≡ ok (record { in_header = false; past_header = true; state = state_of g (length file) }) =
      ap (fold_file read_line start) held.shape ∙ fold_log g (length file) v fits in
    rw read (ground (arith, length-map-message_of g.entries, v.entries_few))
