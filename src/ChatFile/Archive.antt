-- ===== src/ChatFile/Archive.antt =====
-- Archiving, of src/nbs-chat/chat_file.c: when a send leaves more than 2000 messages, the first 1000 go to
-- a new file and the cursors move back by as much. The names of the files are left out, and the
-- system calls are taken to succeed; `stamp` is the clock's text.
pub mod Conserve
pub mod Whole
use nbs_framework.Common.{
  ℕ, ◌-◌, ◌+◌, Bool, true, false, Option, none, some, List, [], ◌∷◌, ◌++◌, ltb, if◌then◌else◌,
  length, take, drop,
}
use nbs_framework.Common.Decimal.{ℤ, pos, negsuc}
use nbs_framework.Common.Outcome.{Outcome, ok, ◌>>=◌, ◌>>◌, assert}
use nbs_framework.Common.Text.{Bytes, codes}
use nbs_framework.ChatFile.Cursors.{collect_cursors, cursor_lines, cursor_file, chat_cursor_write}
use nbs_framework.ChatFile.File.{ChatState, Sent, header_top, header_bottom, chat_send}
use nbs_framework.ChatFile.Length.{compute_file_length, length_line}
use nbs_framework.ChatFile.Participants.{max_participants, format_participants}

abbrev pub archive_threshold : ℕ
archive_threshold = 2000

abbrev pub archive_cleave : ℕ
archive_cleave = 1000

-- The files of one chat: itself, its cursors, and its archives, the newest first.
pub record Files : Type 0 where
  pub chat : Bytes
  pub cursors : Option Bytes
  pub archives : List Bytes

-- A cursor moved back, never below 0. (The source's subtraction overflows for cursors near INT_MIN,
-- which no write makes.)
unfoldable pub decrement : ℕ → Bytes → ℤ → ℤ
decrement k key (pos n) = pos (n - k)
decrement k key (negsuc n) = pos 0

unfoldable pub adjust_cursors : Option Bytes → Option Bytes
adjust_cursors none = none
adjust_cursors (some text) = some (
    cursor_file
      (collect_cursors (decrement archive_cleave) max_participants (cursor_lines (some text))))

-- A file of the lines, with its length in the header. It is not checked against `stat` here.
unfoldable pub with_length : Bytes → Bytes → Outcome Bytes
with_length top bottom = do
  n ← compute_file_length (top ++ bottom)
  ok (top ++ (length_line n ++ bottom))

unfoldable pub archive_file : Bytes → List Bytes → Outcome Bytes
unfolding with_length
archive_file stamp lines =
    with_length (header_top (codes "system") stamp) (header_bottom (codes "(archived)") lines)

-- What the rewrite of the chat and its cursors leaves; `false` where the header does not fit its buffer.
unfoldable pub rewrite_main : List Bytes → ChatState → Files → Outcome (Files × Bool)
unfolding with_length adjust_cursors
rewrite_main remaining state files = do
  parts_str ← format_participants state.participants 4096
  let top = header_top state.last_writer state.last_write
  let rewritten = do
    main ← with_length top (header_bottom parts_str remaining)
    ok (record files { chat = main; cursors = adjust_cursors files.cursors }, true)
  (if ltb (length (top ++ header_bottom parts_str [])) 4096 then rewritten else ok (files, false))

-- The files afterwards, and whether the archiving succeeded.
unfoldable pub chat_auto_archive : Bytes → List Bytes → ChatState → Files → Outcome (Files × Bool)
unfolding archive_file rewrite_main
chat_auto_archive stamp all_lines state files = do
  let total_count = length all_lines
  assert (ltb archive_threshold total_count)
  assert (ltb 0 (total_count - archive_cleave))
  let header = header_top (codes "system") stamp ++ header_bottom (codes "(archived)") []
  let written = do
    archive ← archive_file stamp (take archive_cleave all_lines)
    rewrite_main (drop archive_cleave all_lines) state
        (record files { archives = archive ∷ files.archives })
  (if ltb (length header) 4096 then written else ok (files, false))

-- The archiving where the threshold is passed.
unfoldable pub archive_if_needed : Bytes → Sent → Files → Outcome (Files × Bool)
archive_if_needed stamp sent files =
    if ltb archive_threshold (length sent.all_lines)
    then chat_auto_archive stamp sent.all_lines sent.state files
    else ok (files, false)

-- The index of the message just written, which its sender has read.
unfoldable pub cursor_index : ℕ → Bool → ℕ
cursor_index before true = before - archive_cleave
cursor_index before false = before

-- The whole of `chat_send`: the write, the archiving, and the sender's cursor.
unfoldable pub chat_send_all : ℕ → Bytes → Files → Bytes → Bytes → Outcome Files
unfolding archive_if_needed cursor_index
chat_send_all now stamp files handle message = do
  sent ← chat_send now stamp (some files.chat) handle message
  (files', archived) ← archive_if_needed stamp sent (record files { chat = sent.file })
  let index = cursor_index (length sent.all_lines - 1) archived
  cursors ← chat_cursor_write files'.cursors handle index
  ok (record files' { cursors = some cursors })
