-- ===== src/ChatFile/Truncate/Shorten.antt =====
-- `chat_truncate` on a file that holds a log keeps the first entries of it.
use nbs_framework.Common.{
  map-take, length-map, ℕ, zero, suc, List, ◌∷◌, refl, sym, subst, All, ◌<◌, ◌≤◌, ◌≡◌, ◌∙◌, true,
  false, Option, none, some, [], ◌++◌, map, leb, lt→ltb, le→leb, length, length-take, take, arith,
}
use nbs_framework.Common.Outcome.{ok}
use nbs_framework.Common.Decimal.{long_max}
use nbs_framework.Common.Text.{Bytes, codes}
use nbs_framework.ChatFile.File.{header_top, header_bottom}
use nbs_framework.ChatFile.Log.{
  Entry, IsLegal, Log, IsLog, Holds, line_of, message_of, top_of, bottom_of,
}
use nbs_framework.ChatFile.Log.Read.{chat_read-Holds}
use nbs_framework.ChatFile.Log.Send.{write_file_total, length_header}
use nbs_framework.ChatFile.Participants.{max_handle_len, max_participants}
use nbs_framework.ChatFile.Truncate.Latest.{
  latest, sender_of, time_text, last_writer_of-latest, last_write_of-latest,
}
use nbs_framework.ChatFile.Truncate.Tally.{senders, tally, recount-tally}
use nbs_framework.ChatFile.Participants.RoundTrip.{render, format_participants-render}
use nbs_framework.ChatFile.Truncate.{
  recount, last_message, last_writer_of, last_write_of, truncate_to, chat_truncate, chat_create,
}
use nbs_framework.ChatFile.Truncate.Keep.{keep_log}

-- The log with its first entries only: the last writer is the sender of the last one, the time is that entry's, and
-- the participants are the senders of the entries, each with the number of its entries.
abbrev pub shorten : (ℕ → Option Bytes) → Bytes → Log → ℕ → Log
shorten format_time stamp g keep =
    let kept = take keep g.entries in
    record {
      writer = sender_of (latest none kept);
      stamp = time_text format_time stamp (latest none kept);
      participants = tally kept;
      entries = kept;
    }

-- The same log, with the header as `chat_truncate` makes it.
abbrev recounted : (ℕ → Option Bytes) → Bytes → Log → ℕ → Log
recounted format_time stamp g keep =
    let kept = map message_of (take keep g.entries) in
    record {
      writer = last_writer_of (last_message kept);
      stamp = last_write_of format_time stamp (last_message kept);
      participants = recount [] kept;
      entries = take keep g.entries;
    }

All-take_handles :
    (n : ℕ) (es : List Entry)
    → All IsLegal es
    → All (λ e. length e.handle < max_handle_len) (take n es)
All-take_handles zero es h = tt
All-take_handles (suc n) [] h = tt
All-take_handles (suc n) (e ∷ es) (legal, h) = (legal.sender.short, All-take_handles n es h)

recounted-shorten :
    (format_time : ℕ → Option Bytes) (stamp : Bytes) (g : Log) (keep : ℕ)
    → IsLog g
    → length (senders [] (take keep g.entries)) ≤ max_participants
    → recounted format_time stamp g keep ≡ shorten format_time stamp g keep
recounted-shorten format_time stamp g keep v few =
    let kept = take keep g.entries in
    let counted =
      recount-tally kept (All-take_handles keep g.entries v.entries_legal)
        (omega (arith, length-take keep g.entries, v.entries_few)) few in
    rw (last_writer_of-latest kept)
      (rw (last_write_of-latest format_time stamp kept) (rw counted refl))

chat_truncate-recounted :
    (format_time : ℕ → Option Bytes) (stamp file : Bytes) (g : Log) (keep : ℕ)
    → Holds file g
    → IsLog g
    → length file ≤ long_max
    → keep < length g.entries
    → length (render true (recounted format_time stamp g keep).participants) < 4096
    → length (
        top_of (recounted format_time stamp g keep)
        ++ header_bottom (render true (recounted format_time stamp g keep).participants) [])
      < 8192
    → (file' : Bytes) × (chat_truncate format_time stamp (some file) keep ≡ ok file')
      × Holds file' (recounted format_time stamp g keep)
unfolding chat_truncate truncate_to
chat_truncate-recounted format_time stamp file g keep held v fits fewer short header =
    let g' = recounted format_time stamp g keep in
    let (written, wrote, shape) = write_file_total (top_of g') (bottom_of g') in
    let size = length-take keep g.entries in
    let lines = map line_of (take keep g.entries) in
    let size' : length lines ≡ keep =
      length-map line_of (take keep g.entries) ∙ omega (arith, size) in
    (
      written,
      rw (chat_read-Holds file g held v fits) (
          rw (length-map message_of g.entries) (
            rw (not_fewer (length g.entries) keep fewer) (
              rw (keep_log file g keep held v fits) (
                rw (le→leb (length lines) keep (omega (arith, size'))) (
                  rw (le→leb (length lines) (length g.entries) (omega (arith, size'))) (
                    rw (map-take message_of keep g.entries) (
                      rw (format_participants-render g'.participants 4096 short) (
                        rw
                          (lt→ltb
                            (length (top_of g' ++ header_bottom (render true g'.participants) []))
                            8192 header)
                          wrote)))))))),
      record { shape = shape },
    )
  where
    not_fewer : (n k : ℕ) → k < n → leb n k ≡ false
    not_fewer n k h = ground arith

-- Truncating a file that holds a legal log and whose length fits a long to fewer messages than it
-- has succeeds, where the messages that are kept have at most 256 different senders and the new
-- header fits its buffers. The new file holds the first messages, with the last one's sender and
-- time and with every sender counted from these messages.
pub chat_truncate-Holds :
    (format_time : ℕ → Option Bytes) (stamp file : Bytes) (g : Log) (keep : ℕ)
    → Holds file g
    → IsLog g
    → length file ≤ long_max
    → keep < length g.entries
    → length (senders [] (take keep g.entries)) ≤ max_participants
    → length (render true (shorten format_time stamp g keep).participants) < 4096
    → length (
        top_of (shorten format_time stamp g keep)
        ++ header_bottom (render true (shorten format_time stamp g keep).participants) [])
      < 8192
    → (file' : Bytes) × (chat_truncate format_time stamp (some file) keep ≡ ok file')
      × Holds file' (shorten format_time stamp g keep)
chat_truncate-Holds format_time stamp file g keep held v fits fewer few short header =
    let same = sym (recounted-shorten format_time stamp g keep v few) in
    let (file', run, holds) =
      chat_truncate-recounted format_time stamp file g keep held v fits fewer
        (subst (λ (h : Log). length (render true h.participants) < 4096) same short)
        (subst
          (λ (h : Log). length (top_of h ++ header_bottom (render true h.participants) []) < 8192)
          same header) in
    (file', run, subst (Holds file') (sym same) holds)

-- A new chat, whose stamp fits its buffer, holds the empty log of the system.
pub chat_create-Holds :
    (stamp : Bytes)
    → length stamp < 64
    → (file : Bytes) × (chat_create stamp none ≡ ok file)
      × Holds file
          (record { writer = codes "system"; stamp = stamp; participants = []; entries = [] })
unfolding chat_create
chat_create-Holds stamp short =
    let (written, wrote, shape) =
      write_file_total (header_top (codes "system") stamp) (header_bottom [] []) in
    (
      written,
      rw
          (lt→ltb (length (header_top (codes "system") stamp ++ header_bottom [] [])) 1024
            (omega (arith, length_header (codes "system") stamp [])))
          wrote,
      record { shape = shape },
    )
