-- ===== src/ChatFile/Truncate/Latest.antt =====
-- The last entry of a chat, and that `chat_truncate` of src/nbs-chat/chat_file.c takes its header from it.
use nbs_framework.Common.{
  ℕ, zero, suc, ◌≡◌, refl, false, Option, none, some, List, [], ◌∷◌, map, arith, ◌==◌,
  if◌then◌else◌,
}
use nbs_framework.Common.Decimal.{pos}
use nbs_framework.Common.Text.{Bytes}
use nbs_framework.ChatFile.Log.{Entry, message_of}
use nbs_framework.ChatFile.Truncate.{last_message, last_writer_of, last_write_of}

-- The last entry, and one of before where there is none.
unfoldable pub latest : Option Entry → List Entry → Option Entry
latest before [] = before
latest before (e ∷ es) = latest (some e) es

abbrev pub sender_of : Option Entry → Bytes
sender_of none = []
sender_of (some e) = e.handle

-- The time of an entry as a text, and the clock's text where it has none.
abbrev pub time_text : (ℕ → Option Bytes) → Bytes → Option Entry → Bytes
time_text format_time stamp none = stamp
time_text format_time stamp (some e) =
    if e.time == 0 then stamp else elim (format_time e.time) [ some text ↦ text | none ↦ stamp ]

last_message-latest :
    (e : Entry) (es : List Entry)
    → (d : Entry) × (latest (some e) es ≡ some d)
      × (last_message (map message_of (e ∷ es)) ≡ some (message_of d))
unfolding latest last_message
last_message-latest e [] = (e, refl, refl)
last_message-latest e (d ∷ es) = last_message-latest d es

pub last_writer_of-latest :
    (es : List Entry)
    → last_writer_of (last_message (map message_of es)) ≡ sender_of (latest none es)
unfolding last_writer_of
last_writer_of-latest [] = unfold last_message latest in refl
last_writer_of-latest (e ∷ es) =
    let (d, found, shown) = last_message-latest e es in rw shown (unfold latest in rw found refl)

last_write_of-time_text :
    (format_time : ℕ → Option Bytes) (stamp handle content : Bytes) (t : ℕ)
    → last_write_of format_time stamp
        (some (record { handle = handle; content = content; timestamp = pos t }))
      ≡ time_text format_time stamp (some (record { handle = handle; time = t; content = content }))
unfolding last_write_of
last_write_of-time_text format_time stamp handle content zero = refl
last_write_of-time_text format_time stamp handle content (suc t) =
    let some_time : (suc t == 0) ≡ false = ground arith in rw some_time refl

pub last_write_of-latest :
    (format_time : ℕ → Option Bytes) (stamp : Bytes) (es : List Entry)
    → last_write_of format_time stamp (last_message (map message_of es))
      ≡ time_text format_time stamp (latest none es)
last_write_of-latest format_time stamp [] = unfold last_write_of last_message latest in refl
last_write_of-latest format_time stamp (e ∷ es) =
    let (d, found, shown) = last_message-latest e es in
    rw shown (
      unfold latest in
      rw found (last_write_of-time_text format_time stamp d.handle d.content d.time))
