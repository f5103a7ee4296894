-- ===== src/ChatFile/Archive/Conserve.antt =====
-- Archiving loses no message: the archive and the chat together hold all of them, in order.
use nbs_framework.Common.{
  map-take, map-drop, length-map, ℕ, ◌-◌, ◌<◌, ◌≡◌, refl, sym, ap, true, List, [], ◌∷◌, ◌++◌, map,
  lt→ltb, length, take, drop, take-append-drop, arith,
}
use nbs_framework.Common.Outcome.{ok}
use nbs_framework.Common.Text.{Bytes, codes}
use nbs_framework.ChatFile.Archive.{
  Files, archive_threshold, archive_cleave, adjust_cursors, with_length, archive_file, rewrite_main,
  chat_auto_archive,
}
use nbs_framework.ChatFile.File.{ChatState, header_top, header_bottom}
use nbs_framework.ChatFile.Length.{length_line, compute_file_length_total}
use nbs_framework.ChatFile.Log.{Entry, Log, Holds, line_of, top_of}
use nbs_framework.ChatFile.Log.Send.{length_header}
use nbs_framework.ChatFile.Participants.RoundTrip.{render, format_participants-render}

with_length_total :
    (top bottom : Bytes)
    → (file : Bytes) × (with_length top bottom ≡ ok file)
      × (file ≡ top ++ (length_line (length file) ++ bottom))
with_length_total top bottom =
    let (n, computed, exact) = compute_file_length_total top bottom in
    (
      top ++ (length_line n ++ bottom),
      unfold with_length in rw computed refl,
      ap (λ (m : ℕ). top ++ (length_line m ++ bottom)) (sym exact),
    )

-- The chat without its first messages, and the file that an archive of some messages is.
abbrev pub without_first : Log → Log
without_first g = record g { entries = drop archive_cleave g.entries }

abbrev pub IsArchive : Bytes → Bytes → List Entry → Type 0
IsArchive file stamp es =
    file
    ≡ header_top (codes "system") stamp
      ++ (length_line (length file) ++ header_bottom (codes "(archived)") (map line_of es))

rewrite_main-Holds :
    (g : Log) (state : ChatState) (files : Files)
    → state.participants ≡ g.participants
    → state.last_writer ≡ g.writer
    → state.last_write ≡ g.stamp
    → length (render true g.participants) < 4096
    → length (top_of g ++ header_bottom (render true g.participants) []) < 4096
    → (main : Bytes) × (rewrite_main (map line_of g.entries) state files
        ≡ ok (record files { chat = main; cursors = adjust_cursors files.cursors }, true))
      × Holds main g
unfolding rewrite_main
rewrite_main-Holds g state files parts writer stamp short fits =
    let (main, wrote, shape) =
      with_length_total (top_of g)
        (header_bottom (render true g.participants) (map line_of g.entries)) in
    (
      main,
      rw (parts, writer, stamp)
          (rw (format_participants-render g.participants 4096 short) (
            rw
              (lt→ltb (length (top_of g ++ header_bottom (render true g.participants) [])) 4096
                fits)
              (rw wrote refl))),
      record { shape = shape },
    )

-- On a chat of more than 2000 messages whose header fits its buffer and that was read before, with
-- a stamp below 64 bytes, archiving succeeds. The chat then holds the log without its first 1000
-- entries, under the header it had, with the counts of all messages that were sent. A new archive
-- holds those 1000, under a header of the system that says (archived) in place of participants. The
-- entries of the two together are all entries in order.
pub chat_auto_archive-Holds :
    (stamp : Bytes) (g : Log) (state : ChatState) (files : Files)
    → state.participants ≡ g.participants
    → state.last_writer ≡ g.writer
    → state.last_write ≡ g.stamp
    → archive_threshold < length g.entries
    → length stamp < 64
    → length (render true g.participants) < 4096
    → length (top_of g ++ header_bottom (render true g.participants) []) < 4096
    → (archive main : Bytes) × (chat_auto_archive stamp (map line_of g.entries) state files
        ≡ ok (
          record files {
            chat = main;
            cursors = adjust_cursors files.cursors;
            archives = archive ∷ files.archives;
          },
          true,
        ))
      × Holds main (without_first g)
      × IsArchive archive stamp (take archive_cleave g.entries)
      × (take archive_cleave g.entries ++ (without_first g).entries ≡ g.entries)
unfolding chat_auto_archive archive_file
chat_auto_archive-Holds stamp g state files parts writer time many short_stamp short fits =
    let top = header_top (codes "system") stamp in
    let moved = take archive_cleave g.entries in
    let (archive, archived, shape) =
      with_length_total top (header_bottom (codes "(archived)") (map line_of moved)) in
    let (main, rewritten, held) =
      rewrite_main-Holds (without_first g) state
        (record files { archives = archive ∷ files.archives }) parts writer time short fits in
    (
      archive,
      main,
      rw (length-map line_of g.entries) (
          rw (lt→ltb archive_threshold (length g.entries) many) (
            rw (lt→ltb 0 (length g.entries - archive_cleave) (omega arith)) (
              rw
                (lt→ltb (length (top ++ header_bottom (codes "(archived)") [])) 4096
                  (omega (arith, length_header (codes "system") stamp (codes "(archived)"))))
                (rw (map-take line_of archive_cleave g.entries)
                  (rw archived (rw (map-drop line_of archive_cleave g.entries) rewritten)))))),
      held,
      shape,
      take-append-drop archive_cleave g.entries,
    )
