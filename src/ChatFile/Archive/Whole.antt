-- ===== src/ChatFile/Archive/Whole.antt =====
-- The whole of `chat_send` on a chat that stays below the threshold of archiving.
use nbs_framework.Common.{
  ◌+◌, ◌-◌, ◌<◌, ◌≤◌, ◌≡◌, ◌⊎◌, refl, ap, ◌∙◌, true, false, some, [], ◌∷◌, ◌++◌, length,
  length-append, length-map, arith,
}
use nbs_framework.Common.Decimal.{pos, long_max}
use nbs_framework.Common.Outcome.{ok}
use nbs_framework.Common.Text.{Bytes}
use nbs_framework.ChatFile.Archive.{
  Files, archive_threshold, archive_if_needed, cursor_index, chat_send_all,
}
use nbs_framework.ChatFile.Cursors.{has_cursor, chat_cursor_read}
use nbs_framework.ChatFile.Cursors.Keys.{IsKey}
use nbs_framework.ChatFile.Cursors.ReadBack.{kept_cursors, chat_cursor_write_lem}
use nbs_framework.ChatFile.File.{Sent}
use nbs_framework.ChatFile.Log.{Entry, Log, IsLegal, IsLog, Holds, line_of}
use nbs_framework.ChatFile.Log.Send.{append, chat_send-Holds}
use nbs_framework.ChatFile.Participants.{max_participants}

archive_if_needed-few :
    (stamp : Bytes) (s : Sent) (files : Files)
    → length s.all_lines ≤ archive_threshold
    → archive_if_needed stamp s files ≡ ok (files, false)
unfolding archive_if_needed
archive_if_needed-few stamp s files few = ground arith

-- Sending a legal entry to a chat that holds a legal log of fewer than 2000 entries, in a file whose
-- length fits a long, succeeds where the new log is legal with at most 52 participants, and the
-- sender can be a key of the cursor file and is in it or finds room. The chat then holds
-- the log with the entry at its end, the archives are as before, and the sender's cursor is at the
-- index of its own entry.
pub chat_send_all-Holds :
    (files : Files) (g : Log) (e : Entry) (stamp : Bytes)
    → Holds files.chat g
    → IsLog g
    → length files.chat ≤ long_max
    → IsLegal e
    → IsLog (append g e stamp)
    → length (append g e stamp).participants ≤ 52
    → length g.entries < archive_threshold
    → IsKey e.handle
    → (has_cursor e.handle (kept_cursors files.cursors e.handle (length g.entries)) ≡ true)
      ⊎ (length (kept_cursors files.cursors e.handle (length g.entries)) < max_participants)
    → (f : Files) × (chat_send_all e.time stamp files e.handle e.content ≡ ok f)
      × Holds f.chat (append g e stamp)
      × (f.archives ≡ files.archives)
      × (chat_cursor_read f.cursors e.handle ≡ ok (pos (length g.entries)))
unfolding chat_send_all cursor_index
chat_send_all-Holds files g e stamp held v fits legal v' few below key room =
    let (s, sent, held', lines) = chat_send-Holds files.chat g e stamp held v fits legal v' few in
    let count : length s.all_lines ≡ length g.entries + 1 =
      ap length lines
      ∙ length-map line_of (g.entries ++ e ∷ [])
      ∙ length-append g.entries (e ∷ []) in
    let (cursors, wrote, read) =
      chat_cursor_write_lem files.cursors e.handle (length g.entries) key legal.sender.not_empty
        (omega arith) room in
    let index : length s.all_lines - 1 ≡ length g.entries = omega (arith, count) in
    let kept =
      archive_if_needed-few stamp s (record files { chat = s.file }) (omega (arith, count)) in
    (
      record files { chat = s.file; cursors = some cursors },
      rw sent (rw kept (rw index (rw wrote refl))),
      held',
      refl,
      read,
    )
