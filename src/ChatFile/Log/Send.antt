-- ===== src/ChatFile/Log/Send.antt =====
-- `chat_send` on a file that holds a log appends one entry to the log.
use nbs_framework.Base64.{encode, encoded_size, int_max}
use nbs_framework.Base64.Encode.{encode-encode_groups}
use mathlib.Core.List.{map-append}
use nbs_framework.Common.{
  ℕ, ◌+◌, ◌*◌, ◌/◌, ◌<◌, ◌≤◌, ◌≡◌, refl, sym, ap, ◌∙◌, Bool, true, false, Option, some, List, [],
  ◌∷◌, ◌++◌, map, append_assoc, append-nil, arith, ltb, length, length-append, All,
}
use nbs_framework.Common.Decimal.{pos, long_max}
use nbs_framework.ChatFile.Message.{wire_text}
use nbs_framework.Common.Outcome.{ok_inj, ok, abort, assert}
use nbs_framework.Common.Text.{Bytes, str_eq}
use nbs_framework.ChatFile.File.{
  ChatState, Collector, marker, delimiter, no_lines, lines_text, header_top, header_bottom,
  write_file, chat_read, chat_send, Sent, collect_line, max_messages,
}
use nbs_framework.ChatFile.Length.{length_line, compute_file_length_total}
use nbs_framework.ChatFile.Lines.{fold_file, fold_file-line, fold_file-nil}
use nbs_framework.ChatFile.Log.{
  Entry, Log, IsLegal, IsLog, Holds, message_of, wire_of, line_of, top_of, bottom_of,
}
use nbs_framework.ChatFile.Log.Header.{fold_header, writer_line, stamp_line, size_line, parts_line}
use nbs_framework.ChatFile.Log.Lines.{collect_line-line_of, length-line_of, line_of-IsPlain}
use nbs_framework.ChatFile.Log.Read.{state_of, chat_read-Holds}
use nbs_framework.ChatFile.Participants.{max_handle_len, max_participants, update_participants}
use nbs_framework.ChatFile.Participants.RoundTrip.{render, format_participants-render}
use nbs_framework.ChatFile.Participants.Update.{take_all}

-- The log with one more entry, sent by the entry's handle.
abbrev pub append : Log → Entry → Bytes → Log
append g e stamp = record {
  writer = e.handle;
  stamp = stamp;
  participants = update_participants g.participants e.handle max_participants;
  entries = g.entries ++ e ∷ [];
}

collect_entries :
    (k : Collector) (es : List Entry)
    → All IsLegal es
    → k.past_delim ≡ true
    → length k.encoded_lines + length es ≤ max_messages
    → fold_file collect_line k (lines_text (map line_of es))
      ≡ ok (record k { encoded_lines = k.encoded_lines ++ map line_of es })
unfolding lines_text
collect_entries k [] v hp few = fold_file-nil collect_line k ∙ rw append-nil
collect_entries k (e ∷ es) v hp few =
    let next : Collector = record k { encoded_lines = k.encoded_lines ++ line_of e ∷ [] } in
    fold_file-line collect_line k (line_of e) (lines_text (map line_of es)) (line_of-IsPlain e)
      (length-line_of e v.0)
    ∙ rw (collect_line-line_of k e hp (omega arith)) (
        collect_entries next es v.1 hp
          (omega (arith, length-append k.encoded_lines (line_of e ∷ [])))
        ∙ rw (append_assoc k.encoded_lines (line_of e ∷ []) (map line_of es)))

seen : Collector
seen = record { seen_header_marker = true; past_delim = false; encoded_lines = [] }

past : Collector
past = record { seen_header_marker = true; past_delim = true; encoded_lines = [] }

collect_header :
    (g : Log) (n : ℕ)
    → (collect_line no_lines marker ≡ ok seen)
      × (collect_line seen (writer_line g) ≡ ok seen)
      × (collect_line seen (stamp_line g) ≡ ok seen)
      × (collect_line seen (size_line n) ≡ ok seen)
      × (collect_line seen (parts_line g) ≡ ok seen)
      × (collect_line seen delimiter ≡ ok past)
unfolding collect_line str_eq seen past
collect_header g n = (refl, refl, refl, refl, refl, refl)

-- The second pass over the file collects the lines of the entries.
collect_log :
    (file : Bytes) (g : Log)
    → Holds file g
    → IsLog g
    → length file ≤ long_max
    → fold_file collect_line no_lines file
      ≡ ok (record past { encoded_lines = map line_of g.entries })
unfolding past
collect_log file g held v fits =
    let (e1, e2, e3, e4, e5, e6) = collect_header g (length file) in
    ap (fold_file collect_line no_lines) held.shape
    ∙ fold_header collect_line g (length file) no_lines seen seen seen seen seen past v fits e1 e2
        e3 e4 e5 e6
    ∙ collect_entries past g.entries v.entries_legal refl (omega (arith, v.entries_few))

-- A file is written with its own length in the header.
pub write_file_total :
    (top bottom : Bytes)
    → (file : Bytes) × (write_file top bottom ≡ ok file)
      × (file ≡ top ++ (length_line (length file) ++ bottom))
write_file_total top bottom =
    let (n, computed, exact) = compute_file_length_total top bottom in
    let file = top ++ (length_line n ++ bottom) in
    (
      file,
      unfold write_file in rw computed (ground (arith, exact)),
      ap (λ (m : ℕ). top ++ (length_line m ++ bottom)) (sym exact),
    )

pub length_header :
    (w t p : Bytes)
    → length (header_top w t ++ header_bottom p []) ≡ length w + length t + length p + 63
unfolding header_top header_bottom lines_text
length_header w t p = simp length-append (omega arith)

encoded_size_small : (n : ℕ) → n ≤ int_max / 4 * 3 → encoded_size n ≡ ok ((n + 2) / 3 * 4 + 1)
unfolding encoded_size
encoded_size_small n h = ground arith

encode_wire :
    (e : Entry)
    → IsLegal e
    → encode (wire_of e) ((length (wire_of e) + 2) / 3 * 4 + 1) ≡ ok (line_of e)
encode_wire e v =
    encode-encode_groups (wire_of e) ((length (wire_of e) + 2) / 3 * 4 + 1) (omega (arith, v.fits))
      (omega arith)

assert_passes : {b : Bool} → b ≡ true → assert b ≡ ok tt
assert_passes h = rw h

header_fits :
    (w t p : Bytes)
    → length w < 64
    → length t < 64
    → length p < 4096
    → ltb (length (header_top w t ++ header_bottom p [])) 8192 ≡ true
header_fits w t p hw ht hp = ground (arith, length_header w t p)

-- Sending a legal entry to a file that holds a legal log, of a length that fits a long, succeeds, where
-- the new log is legal again and has at most 52 participants, which pass the test on the header's buffer. The new file holds the log
-- with the entry at its end, its sender counted and its header renewed, and the lines handed on
-- for archiving are those of all entries.
pub chat_send-Holds :
    (file : Bytes) (g : Log) (e : Entry) (stamp : Bytes)
    → Holds file g
    → IsLog g
    → length file ≤ long_max
    → IsLegal e
    → IsLog (append g e stamp)
    → length (append g e stamp).participants ≤ 52
    → (s : Sent) × (chat_send e.time stamp (some file) e.handle e.content ≡ ok s)
      × Holds s.file (append g e stamp)
      × (s.all_lines ≡ map line_of (g.entries ++ e ∷ []))
unfolding chat_send
chat_send-Holds file g e stamp held v fits legal v' few =
    let g' = append g e stamp in
    let (written, wrote, shape) = write_file_total (top_of g') (bottom_of g') in
    let state : ChatState = record (state_of g (length file)) {
      last_writer = e.handle;
      last_write = stamp;
      participants = g'.participants;
    } in
    let lines = map-append line_of g.entries (e ∷ []) in
    (
      record { file = written; state = state; all_lines = map line_of (g.entries ++ e ∷ []) },
      rw (chat_read-Holds file g held v fits) (
          rw (encoded_size_small (length (wire_of e)) (omega (arith, legal.fits))) (
            rw (encode_wire e legal) (
              rw (format_participants-render g'.participants 4096 v'.participants_short) (
                rw (collect_log file g held v fits) (
                  rw (take_all 63 stamp (omega (arith, v'.stamp_short))) (
                    rw
                      (header_fits e.handle stamp (render true g'.participants) v'.writer_short
                        v'.stamp_short v'.participants_short)
                      (rw (sym lines) (
                        rw wrote
                          (ground (arith, legal.sender.not_empty, legal.sender.short)))))))))),
      record { shape = shape },
      refl,
    )

-- When a legal entry was sent to a file that holds a legal log, where the file's length and the new
-- file's fit a long, and the new log is legal with at most 52 participants, `chat_read` finds in the
-- new file all messages from before, in order, then the new one, and the header that the send wrote.
pub chat_read-chat_send :
    (file : Bytes) (g : Log) (e : Entry) (stamp : Bytes) (s : Sent)
    → Holds file g
    → IsLog g
    → length file ≤ long_max
    → IsLegal e
    → IsLog (append g e stamp)
    → length (append g e stamp).participants ≤ 52
    → chat_send e.time stamp (some file) e.handle e.content ≡ ok s
    → length s.file ≤ long_max
    → chat_read (some s.file)
      ≡ ok (record {
        last_writer = e.handle;
        last_write = stamp;
        file_length = pos (length s.file);
        participants = update_participants g.participants e.handle max_participants;
        messages = map message_of g.entries ++ message_of e ∷ [];
        skipped_count = 0;
      })
chat_read-chat_send file g e stamp s held v fits legal v' few sent fits' =
    let (s', sent', held', lines) = chat_send-Holds file g e stamp held v fits legal v' few in
    let same : s ≡ s' = ok_inj (sym sent ∙ sent') in
    let holds : Holds s.file (append g e stamp) = rw same held' in
    chat_read-Holds s.file (append g e stamp) holds v' fits'
    ∙ rw (map-append message_of g.entries (e ∷ []))

-- A readable chat that has, with the sender, 53 or more participants cannot be sent to: for a handle
-- of legal length and a message within the encoder's limit, `chat_send` aborts at its test on the
-- header's buffer.
pub chat_send_crowded :
    (now : ℕ) (stamp : Bytes) (file : Option Bytes) (handle message : Bytes) {state : ChatState}
    → 0 < length handle
    → length handle < max_handle_len
    → chat_read file ≡ ok state
    → length (wire_text handle now message) ≤ int_max / 4 * 3
    → 53 ≤ length (update_participants state.participants handle max_participants)
    → chat_send now stamp file handle message ≡ abort
unfolding chat_send
chat_send_crowded now stamp file handle message low high read small crowd =
    let raw = wire_text handle now message in
    rw (read, encoded_size_small (length raw) small)
      (rw (encode-encode_groups raw ((length raw + 2) / 3 * 4 + 1) small (omega arith))
        (ground arith))
