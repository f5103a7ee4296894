-- ===== src/Examples/ChatFile/Upkeep.antt =====
-- src/nbs-chat/chat_file.c: cursors, archiving, truncating and creating at concrete inputs.
use nbs_framework.Base64
use nbs_framework.Common.{
  ℕ, zero, suc, ◌<◌, ◌≤◌, ◌≡◌, inr, refl, ap, true, Option, none, some, List, [], ◌∷◌, ◌++◌, map,
  length, take, arith,
}
use nbs_framework.Common.Decimal
use nbs_framework.Common.Decimal.{pos}
use nbs_framework.Common.Outcome.{ok, ◌>>=◌}
use nbs_framework.Common.Text.{Bytes, codes, str_eq}
use nbs_framework.ChatFile.Archive.{Files, adjust_cursors, chat_auto_archive}
use nbs_framework.ChatFile.Archive.Conserve.{without_first, IsArchive, chat_auto_archive-Holds}
use nbs_framework.ChatFile.Cursors
use nbs_framework.ChatFile.Cursors.{
  set_index, collect_cursors, cursor_lines, chat_cursor_write, chat_cursor_read,
}
use nbs_framework.ChatFile.Cursors.ReadBack.{chat_cursor_read-chat_cursor_write}
use nbs_framework.ChatFile.File
use nbs_framework.ChatFile.File.{ChatState, header_bottom}
use nbs_framework.ChatFile.Length
use nbs_framework.ChatFile.Lines
use nbs_framework.ChatFile.Log.{Entry, Log, Holds, line_of, top_of}
use nbs_framework.ChatFile.Log.Send.{append}
use nbs_framework.ChatFile.Message
use nbs_framework.ChatFile.Participants
use nbs_framework.ChatFile.Participants.RoundTrip.{render}
use nbs_framework.ChatFile.Truncate.Tally
use nbs_framework.ChatFile.Truncate.Latest
use nbs_framework.Common.Distinct.{member, added}
use nbs_framework.ChatFile.Truncate.{chat_truncate, chat_create}
use nbs_framework.ChatFile.Truncate.Shorten.{shorten, chat_truncate-Holds, chat_create-Holds}
use nbs_framework.Examples.ChatFile.{alice}
use nbs_framework.Examples.ChatFile.Session.{
  first_entry, before, reply, stamp, chat_after, after-IsLog,
}

abbrev pub old_cursors : Bytes
old_cursors = codes "# comment\nbob=3\n"

room :
    length
      (collect_cursors (set_index (codes "alice") (pos 7)) 256 (cursor_lines (some old_cursors)))
    < 256
unfolding Cursors.collect_cursors Cursors.cursor_lines Cursors.split_line Cursors.split_equals
    Cursors.short_key Lines.fgets_lines Message.c_string Message.is_nul Participants.before_stop
room = omega arith

chat_cursor_read-chat_cursor_write_example :
    (do
      file ← chat_cursor_write (some old_cursors) (codes "alice") 7
      chat_cursor_read (some file) (codes "alice"))
    ≡ ok (pos 7)
chat_cursor_read-chat_cursor_write_example =
    chat_cursor_read-chat_cursor_write (some old_cursors) (codes "alice") 7 (omega arith)
      (omega arith) (omega arith) (inr room)

abbrev repeat : ℕ → Entry → List Entry
repeat zero e = []
repeat (suc n) e = e ∷ repeat n e

length-repeat : (n : ℕ) (e : Entry) → length (repeat n e) ≡ n
length-repeat zero e = refl
length-repeat (suc n) e = ap suc (length-repeat n e)

-- A log of 2001 entries.
abbrev many : List Entry
many = repeat 2001 first_entry

abbrev long_log : List Entry → Log
long_log es = record before { entries = es }

abbrev long_state : ChatState
long_state = record {
  last_writer = codes "alice";
  last_write = codes "2023-11-14T22:13:20+0000";
  file_length = pos 0;
  participants = alice ∷ [];
  messages = [];
  skipped_count = 0;
}

abbrev files : Files
files = record { chat = []; cursors = none; archives = [] }

short_parts : length (render true (alice ∷ [])) < 4096
unfolding Participants.entry_text Participants.separator Decimal.show_int Decimal.show_nat
short_parts = omega arith

short_header : length (top_of before ++ header_bottom (render true (alice ∷ [])) []) < 4096
unfolding File.header_top File.header_bottom File.lines_text Participants.entry_text
    Participants.separator Decimal.show_int Decimal.show_nat
short_header = omega arith

chat_auto_archive-Holds_example :
    (archive main : Bytes) × (chat_auto_archive stamp (map line_of many) long_state files
      ≡ ok (record { chat = main; cursors = adjust_cursors none; archives = archive ∷ [] }, true))
    × Holds main (without_first (long_log many))
    × IsArchive archive stamp (take 1000 many)
    × (take 1000 many ++ (without_first (long_log many)).entries ≡ many)
chat_auto_archive-Holds_example =
    chat_auto_archive-Holds stamp (long_log many) long_state files refl refl refl
      (omega (arith, length-repeat 2001 first_entry)) (omega arith) short_parts short_header

after-Holds : Holds chat_after (append before reply stamp)
unfolding File.header_top File.header_bottom File.lines_text Length.length_line
    Participants.entry_text Participants.separator Participants.update_participants
    Participants.incr str_eq Decimal.show_int Decimal.show_nat Message.wire_text
    Base64.encode_groups Base64.sextet_char Base64.encode_table Base64.join3
after-Holds = record { shape = refl }

abbrev no_time : ℕ → Option Bytes
no_time t = none

kept_parts :
    length (render true (shorten no_time stamp (append before reply stamp) 1).participants) < 4096
unfolding Tally.senders added member str_eq Participants.entry_text Participants.separator
    Decimal.show_int Decimal.show_nat
kept_parts = omega arith

kept_header :
    length (
      top_of (shorten no_time stamp (append before reply stamp) 1)
      ++ header_bottom
          (render true (shorten no_time stamp (append before reply stamp) 1).participants)
          [])
    < 8192
unfolding File.header_top File.header_bottom File.lines_text Tally.senders Latest.latest added
    member str_eq Participants.entry_text Participants.separator Decimal.show_int Decimal.show_nat
kept_header = omega arith

one_sender : length (Tally.senders [] (take 1 (append before reply stamp).entries)) ≤ 256
unfolding Tally.senders added member
one_sender = omega arith

chat_truncate-Holds_example :
    (file : Bytes) × (chat_truncate no_time stamp (some chat_after) 1 ≡ ok file)
    × Holds file (shorten no_time stamp (append before reply stamp) 1)
chat_truncate-Holds_example =
    chat_truncate-Holds no_time stamp chat_after (append before reply stamp) 1 after-Holds
      after-IsLog (omega arith) (omega arith) one_sender kept_parts kept_header

chat_create-Holds_example :
    (file : Bytes) × (chat_create stamp none ≡ ok file)
    × Holds file
        (record { writer = codes "system"; stamp = stamp; participants = []; entries = [] })
chat_create-Holds_example = chat_create-Holds stamp (omega arith)
