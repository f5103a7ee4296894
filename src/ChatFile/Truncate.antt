-- ===== src/ChatFile/Truncate.antt =====
-- Truncating, creating, polling and checking a chat, of src/nbs-chat/chat_file.c.
mod Keep
pub mod Tally
pub mod Latest
pub mod Shorten
use nbs_framework.Common.{
  ℕ, zero, suc, ◌-◌, ◌+◌, Bool, true, false, not, ◌&&◌, ◌||◌, Option, none, some, List, [], ◌∷◌,
  ◌++◌, ltb, leb, ◌==◌, if◌then◌else◌, length, take, drop,
}
use nbs_framework.Common.Decimal.{ℤ, pos, negsuc}
use nbs_framework.Common.Outcome.{Outcome, ok, fail, ◌>>=◌, ◌>>◌, assert}
use nbs_framework.Common.Text.{Bytes, codes, str_eq}
use nbs_framework.ChatFile.File.{
  ChatState, marker, delimiter, header_top, header_bottom, write_file, chat_read, max_messages,
}
use nbs_framework.ChatFile.Lines.{fold_file}
use nbs_framework.ChatFile.Message.{Message}
use nbs_framework.ChatFile.Participants.{
  Participant, max_participants, format_participants, update_participants,
}

-- The variables of the loop of `chat_truncate` over the lines.
pub record Kept : Type 0 where
  pub seen_header_marker : Bool
  pub past_delim : Bool
  pub encoded_lines : List Bytes
  pub total_line_count : ℕ

abbrev pub nothing_kept : Kept
nothing_kept = record {
  seen_header_marker = false;
  past_delim = false;
  encoded_lines = [];
  total_line_count = 0;
}

-- Lines up to the count are kept, the others only counted.
unfoldable pub keep_line : ℕ → Kept → Bytes → Outcome Kept
keep_line keep_count k line =
    let counted = record k { total_line_count = k.total_line_count + 1 } in
    if not k.past_delim
    then (if str_eq line marker
        then ok (record k { seen_header_marker = true })
        else if str_eq line delimiter && k.seen_header_marker
        then ok (record k { past_delim = true })
        else ok k)
    else if length line == 0
    then ok k
    else if leb keep_count (length k.encoded_lines)
    then ok counted
    else ok (record counted { encoded_lines = k.encoded_lines ++ line ∷ [] })

-- The senders of the messages, counted again.
unfoldable pub recount : List Participant → List Message → List Participant
recount ps [] = ps
recount ps (m ∷ ms) = recount (update_participants ps m.handle max_participants) ms

unfoldable pub last_message : List Message → Option Message
last_message [] = none
last_message (m ∷ []) = some m
last_message (m ∷ m' ∷ ms) = last_message (m' ∷ ms)

unfoldable pub last_writer_of : Option Message → Bytes
last_writer_of none = []
last_writer_of (some m) = m.handle

-- The clock is used where the last message has no time, or none that can be formatted.
unfoldable pub last_write_of : (ℕ → Option Bytes) → Bytes → Option Message → Bytes
last_write_of format_time stamp none = stamp
last_write_of format_time stamp (some m) = elim m.timestamp [
  | pos (suc t) ↦ elim (format_time (suc t)) [ some text ↦ text | none ↦ stamp ]
  | pos zero ↦ stamp
  | negsuc t ↦ stamp
]

-- The part of `chat_truncate` behind the test on the count.
unfoldable pub truncate_to : (ℕ → Option Bytes) → Bytes → Bytes → ChatState → ℕ → Outcome Bytes
unfolding keep_line recount last_message last_writer_of last_write_of
truncate_to format_time stamp file state keep_count = do
  k ← fold_file (keep_line keep_count) nothing_kept file
  assert (leb (length k.encoded_lines) keep_count)
  assert (leb (length k.encoded_lines) k.total_line_count)
  let kept = take keep_count state.messages
  let top =
      header_top (last_writer_of (last_message kept))
        (last_write_of format_time stamp (last_message kept))
  parts_str ← format_participants (recount [] kept) 4096
  assert (ltb (length (top ++ header_bottom parts_str [])) 8192)
  write_file top (header_bottom parts_str k.encoded_lines)

-- The file afterwards. `format_time` stands for `localtime_r` with `strftime`, `stamp` for the clock.
unfoldable pub chat_truncate : (ℕ → Option Bytes) → Bytes → Option Bytes → ℕ → Outcome Bytes
unfolding truncate_to
chat_truncate format_time stamp none keep_count = fail 1
chat_truncate format_time stamp (some file) keep_count = do
  state ← chat_read (some file)
  (if leb (length state.messages) keep_count
      then ok file
      else truncate_to format_time stamp file state keep_count)

-- Creating the file where nothing stands at the path.
unfoldable pub create_at : Bytes → Bytes → Option Bytes → Outcome Bytes
create_at top bottom (some text) = fail 1
create_at top bottom none = write_file top bottom

-- `chat_create`, where `existing` is what stands at the path.
unfoldable pub chat_create : Bytes → Option Bytes → Outcome Bytes
unfolding create_at
chat_create stamp existing =
    let top = header_top (codes "system") stamp in
    let bottom = header_bottom [] [] in
    if ltb (length (top ++ bottom)) 1024 then create_at top bottom existing else fail 2

-- Whether a message is from somebody else.
unfoldable pub has_other : Bytes → List Message → Bool
has_other handle [] = false
has_other handle (m ∷ ms) = not (str_eq m.handle handle) || has_other handle ms

-- The rounds of `chat_poll`; each file is what a round finds. The result 3 is the timeout.
unfoldable pub poll_rounds : Bytes → ℕ → List (Option Bytes) → Outcome ℕ
unfolding has_other
poll_rounds handle initial_count [] = ok 3
poll_rounds handle initial_count (file ∷ files) = do
  state ← chat_read file
  let rest = poll_rounds handle initial_count files
  (if has_other handle (drop initial_count state.messages) then ok 0 else rest)

unfoldable pub chat_poll : Bytes → Option Bytes → List (Option Bytes) → Outcome ℕ
unfolding poll_rounds
chat_poll handle first rounds = do
  state ← chat_read first
  poll_rounds handle (length state.messages) rounds

-- `chat_state_check_invariants`; a list is never a NULL pointer.
unfoldable pub no_negative : List Participant → Bool
no_negative [] = true
no_negative (p ∷ ps) = elim p.count [ pos n ↦ no_negative ps | negsuc n ↦ false ]

unfoldable pub check_invariants : ChatState → Bool
unfolding no_negative
check_invariants state =
    if ltb max_messages (length state.messages)
    then false
    else if ltb max_participants (length state.participants)
    then false
    else no_negative state.participants
