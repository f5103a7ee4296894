-- ===== src/ChatFile/File.antt =====
-- Reading and sending, of src/nbs-chat/chat_file.c. A file is its bytes, or `none` where it cannot be
-- opened. Locks, `malloc` and the writes are taken to succeed; the clock's answers are arguments.
use nbs_framework.Common.{
  ℕ, ◌+◌, ◌-◌, ◌*◌, ◌%◌, Bool, true, false, not, ◌&&◌, Option, none, some, List, [], ◌∷◌, ◌++◌, ltb,
  leb, ◌==◌, if◌then◌else◌, length, take,
}
use nbs_framework.Base64.{encode, encoded_size, decode, decoded_size}
use nbs_framework.Common.Decimal.{ℤ, pos}
use nbs_framework.Common.Outcome.{Outcome, ok, fail, abort, ◌>>=◌, ◌>>◌, assert}
use nbs_framework.Common.Text.{Bytes, codes, str_eq}
use nbs_framework.ChatFile.Length.{compute_file_length, length_line}
use nbs_framework.ChatFile.Lines.{fold_file}
use nbs_framework.ChatFile.Message.{Message, parse_wire, wire_text}
use nbs_framework.ChatFile.Number.{safe_parse_int64}
use nbs_framework.ChatFile.Participants.{
  Participant, max_handle_len, max_participants, parse_participants, format_participants,
  update_participants,
}

abbrev pub max_messages : ℕ
max_messages = 10000

-- `chat_state_t`
pub record ChatState : Type 0 where
  pub last_writer : Bytes
  pub last_write : Bytes
  pub file_length : ℤ
  pub participants : List Participant
  pub messages : List Message
  pub skipped_count : ℕ

-- The variables of the loop of `chat_read`.
pub record Reader : Type 0 where
  pub in_header : Bool
  pub past_header : Bool
  pub state : ChatState

abbrev pub marker : Bytes
marker = codes "=== nbs-chat ==="

abbrev pub delimiter : Bytes
delimiter = codes "---"

-- `strncmp(line, prefix, n) == 0`, with what stands behind the prefix.
unfoldable pub strip_prefix : Bytes → Bytes → Option Bytes
strip_prefix [] line = some line
strip_prefix (c ∷ prefix) [] = none
strip_prefix (c ∷ prefix) (d ∷ line) = if c == d then strip_prefix prefix line else none

unfoldable pub all_spaces : Bytes → Bool
all_spaces [] = true
all_spaces (c ∷ s) = c == b' ' && all_spaces s

unfoldable pub set_file_length : ChatState → Option ℤ → ChatState
set_file_length st none = st
set_file_length st (some v) = record st { file_length = v }

unfoldable pub read_participants : ChatState → Bytes → ChatState
read_participants st line = elim (strip_prefix (codes "participants: ") line) [
  | some v ↦ record st { participants = parse_participants v max_participants }
  | none ↦ st
]

unfoldable pub read_length : ChatState → Bytes → ChatState
read_length st line = elim (strip_prefix (codes "file-length: ") line) [
  | some v ↦ set_file_length st (safe_parse_int64 v)
  | none ↦ read_participants st line
]

unfoldable pub read_time : ChatState → Bytes → ChatState
read_time st line = elim (strip_prefix (codes "last-write: ") line) [
  | some v ↦ record st { last_write = take 63 v }
  | none ↦ read_length st line
]

-- The chain of tests on a header line.
unfoldable pub read_field : ChatState → Bytes → ChatState
unfolding strip_prefix set_file_length read_participants read_length read_time
read_field st line = elim (strip_prefix (codes "last-writer: ") line) [
  | some v ↦ record st { last_writer = take (max_handle_len - 1) v }
  | none ↦ read_time st line
]

abbrev pub skip : ChatState → ChatState
skip st = record st { skipped_count = st.skipped_count + 1 }

unfoldable pub store : ChatState → Option Message → ChatState
store st none = st
store st (some m) = record st { messages = st.messages ++ m ∷ [] }

unfoldable pub read_decoded : ChatState → Outcome Bytes → Outcome ChatState
read_decoded st (ok decoded) = do m ← parse_wire decoded; ok (store st m)
read_decoded st (fail k) = ok (skip st)
read_decoded st abort = abort

-- A line behind the header that is not empty.
unfoldable pub read_body : ChatState → Bytes → Outcome ChatState
read_body st line =
    let decoded = do
      decoded_max ← decoded_size (length line)
      read_decoded st (decode line decoded_max)
    in if all_spaces line
      then ok st
      else if not (length line % 4 == 0)
      then ok (skip st)
      else decoded

unfoldable pub read_line : Reader → Bytes → Outcome Reader
read_line r line =
    if str_eq line marker
    then ok (record r { in_header = true })
    else if r.in_header && str_eq line delimiter
    then ok (record r { in_header = false; past_header = true })
    else if r.in_header
    then ok (record r { state = read_field r.state line })
    else if r.past_header && ltb 0 (length line) && ltb (length r.state.messages) max_messages
    then (read_body r.state line >>= λ st. ok (record r { state = st }))
    else ok r

abbrev pub no_state : ChatState
no_state = record {
  last_writer = [];
  last_write = [];
  file_length = pos 0;
  participants = [];
  messages = [];
  skipped_count = 0;
}

abbrev pub start : Reader
start = record { in_header = false; past_header = false; state = no_state }

unfoldable pub chat_read : Option Bytes → Outcome ChatState
unfolding strip_prefix all_spaces set_file_length read_participants read_length read_time read_field
    store read_decoded read_body read_line
chat_read none = fail 1
chat_read (some file) = do
  r ← fold_file read_line start file
  assert (leb (length r.state.messages) max_messages)
  ok r.state

-- The second pass of `chat_send` over the file: the encoded lines behind the delimiter.
pub record Collector : Type 0 where
  pub seen_header_marker : Bool
  pub past_delim : Bool
  pub encoded_lines : List Bytes

unfoldable pub collect_line : Collector → Bytes → Outcome Collector
collect_line k line =
    let kept = do
      assert (ltb (length k.encoded_lines) max_messages)
      ok (record k { encoded_lines = k.encoded_lines ++ line ∷ [] })
    in if not k.past_delim
      then (if str_eq line marker
          then ok (record k { seen_header_marker = true })
          else if str_eq line delimiter && k.seen_header_marker
          then ok (record k { past_delim = true })
          else ok k)
      else if all_spaces line
      then ok k
      else kept

abbrev pub no_lines : Collector
no_lines = record { seen_header_marker = false; past_delim = false; encoded_lines = [] }

-- The header before and behind the "file-length" line, and the lines of messages.
unfoldable pub header_top : Bytes → Bytes → Bytes
header_top writer stamp =
    marker
    ++ (b'\n'
        ∷ (codes "last-writer: "
            ++ (writer ++ (b'\n' ∷ (codes "last-write: " ++ (stamp ++ b'\n' ∷ []))))))

unfoldable pub lines_text : List Bytes → Bytes
lines_text [] = []
lines_text (l ∷ lines) = l ++ b'\n' ∷ lines_text lines

unfoldable pub header_bottom : Bytes → List Bytes → Bytes
header_bottom parts lines =
    codes "participants: " ++ (parts ++ (b'\n' ∷ (delimiter ++ (b'\n' ∷ lines_text lines))))

-- A file with its length in the header, checked against the size as `stat` reports it.
unfoldable pub write_file : Bytes → Bytes → Outcome Bytes
write_file top bottom = do
  file_len ← compute_file_length (top ++ bottom)
  let file = top ++ (length_line file_len ++ bottom)
  assert (length file == file_len)
  ok file

-- What `chat_send` leaves: the file, the header it wrote and all encoded lines, the new one last.
pub record Sent : Type 0 where
  pub file : Bytes
  pub state : ChatState
  pub all_lines : List Bytes

-- The part of `chat_send` up to the rename; `now` and `stamp` are the clock's epoch and its text.
unfoldable pub chat_send : ℕ → Bytes → Option Bytes → Bytes → Bytes → Outcome Sent
unfolding collect_line write_file
chat_send now stamp file handle message = do
  assert (ltb 0 (length handle))
  assert (ltb (length handle) max_handle_len)
  state ← chat_read file
  let raw = wire_text handle now message
  size ← encoded_size (length raw)
  encoded ← encode raw size
  let parts = update_participants state.participants handle max_participants
  assert (ltb (length parts * (max_handle_len + 14)) 4096)
  parts_str ← format_participants parts 4096
  let sent = record state { participants = parts; last_writer = handle; last_write = take 63 stamp }
  k ← fold_file collect_line no_lines (elim file [ none ↦ [] | some text ↦ text ])
  let all_lines = k.encoded_lines ++ encoded ∷ []
  let top = header_top sent.last_writer sent.last_write
  assert (ltb (length (top ++ header_bottom parts_str [])) 8192)
  written ← write_file top (header_bottom parts_str all_lines)
  ok (record { file = written; state = sent; all_lines = all_lines })
