-- ===== src/ChatFile/Log.antt =====
-- What a chat file stands for: a log of messages with its header, and the files that hold it.
pub mod Lines
pub mod Header
pub mod Read
pub mod Send
use nbs_framework.Base64.{encode_groups}
use nbs_framework.Common.{
  ℕ, ◌+◌, ◌*◌, ◌/◌, ◌-◌, ◌<◌, ◌≤◌, ◌≡◌, true, List, [], ◌∷◌, ◌++◌, map, length, All,
}
use nbs_framework.Common.Decimal.{ℤ, pos, long_max}
use nbs_framework.Common.Text.{Bytes, IsByte, Lacks}
use nbs_framework.ChatFile.File.{header_top, header_bottom, max_messages}
use nbs_framework.ChatFile.Length.{length_line}
use nbs_framework.ChatFile.Lines.{IsPlain, max_message_len}
use nbs_framework.ChatFile.Message.{Message, wire_text}
use nbs_framework.ChatFile.Message.RoundTrip.{IsSender}
use nbs_framework.ChatFile.Participants.{Participant, max_handle_len, max_participants}
use nbs_framework.ChatFile.Participants.RoundTrip.{IsEntry, render}

pub record Entry : Type 0 where
  pub handle : Bytes
  pub time : ℕ
  pub content : Bytes

pub record Log : Type 0 where
  pub writer : Bytes
  pub stamp : Bytes
  pub participants : List Participant
  pub entries : List Entry

abbrev pub message_of : Entry → Message
message_of e = record { handle = e.handle; content = e.content; timestamp = pos e.time }

abbrev pub wire_of : Entry → Bytes
wire_of e = wire_text e.handle e.time e.content

-- The line of the file that holds an entry.
abbrev pub line_of : Entry → Bytes
line_of e = encode_groups (wire_of e)

-- An entry that can be sent: bytes without NUL from a legal handle, and a line that `fgets` reads whole.
pub record IsLegal (e : Entry) : Type 0 where
  pub sender : IsSender e.handle
  pub clean : Lacks 0 e.content
  pub bytes : All IsByte (wire_of e)
  pub in_time : e.time ≤ long_max
  pub fits : (length (wire_of e) + 2) / 3 * 4 < max_message_len - 1

pub record IsLog (g : Log) : Type 0 where
  pub writer_plain : IsPlain g.writer
  pub writer_short : length g.writer < max_handle_len
  pub stamp_plain : IsPlain g.stamp
  pub stamp_short : length g.stamp < 64
  pub participants_legal : All IsEntry g.participants
  pub participants_few : length g.participants ≤ max_participants
  pub participants_plain : IsPlain (render true g.participants)
  pub participants_short : length (render true g.participants) < 4096
  pub entries_legal : All IsLegal g.entries
  pub entries_few : length g.entries ≤ max_messages

abbrev pub top_of : Log → Bytes
top_of g = header_top g.writer g.stamp

abbrev pub bottom_of : Log → Bytes
bottom_of g = header_bottom (render true g.participants) (map line_of g.entries)

-- The file holds the log, and states its own length.
pub record Holds (file : Bytes) (g : Log) : Type 0 where
  pub shape : file ≡ top_of g ++ (length_line (length file) ++ bottom_of g)
