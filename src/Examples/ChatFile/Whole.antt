-- ===== src/Examples/ChatFile/Whole.antt =====
-- src/nbs-chat/chat_file.c: a reply sent to a chat, with its cursor.
use nbs_framework.Common.{◌<◌, ◌≡◌, inr, some, [], length, arith}
use nbs_framework.Common.Decimal.{pos}
use nbs_framework.Common.Outcome.{ok}
use nbs_framework.Common.Text.{codes}
use nbs_framework.ChatFile.Archive.{Files, chat_send_all}
use nbs_framework.ChatFile.Archive.Whole.{chat_send_all-Holds}
use nbs_framework.ChatFile.Cursors
use nbs_framework.ChatFile.Cursors.{chat_cursor_read, set_index, collect_cursors, cursor_lines}
use nbs_framework.ChatFile.Lines
use nbs_framework.ChatFile.Log.{Holds}
use nbs_framework.ChatFile.Log.Send.{append}
use nbs_framework.ChatFile.Message
use nbs_framework.ChatFile.Participants
use nbs_framework.Examples.ChatFile.Session.{
  before, chat, reply, stamp, before-Holds, before-IsLog, reply-IsLegal, after-IsLog, two_listed,
}
use nbs_framework.Examples.ChatFile.Upkeep.{old_cursors}

abbrev chat_files : Files
chat_files = record { chat = chat; cursors = some old_cursors; archives = [] }

room_for_bob :
    length (collect_cursors (set_index (codes "bob") (pos 1)) 256 (cursor_lines (some old_cursors)))
    < 256
unfolding Cursors.collect_cursors Cursors.cursor_lines Cursors.split_line Cursors.split_equals
    Cursors.short_key Lines.fgets_lines Message.c_string Message.is_nul Participants.before_stop
room_for_bob = omega arith

chat_send_all-Holds_example :
    (f : Files) × (chat_send_all 1700000060 stamp chat_files (codes "bob") (codes "hi") ≡ ok f)
    × Holds f.chat (append before reply stamp)
    × (f.archives ≡ [])
    × (chat_cursor_read f.cursors (codes "bob") ≡ ok (pos 1))
chat_send_all-Holds_example =
    chat_send_all-Holds chat_files before reply stamp before-Holds before-IsLog (omega arith)
      reply-IsLegal after-IsLog two_listed (omega arith) (omega arith) (inr room_for_bob)
