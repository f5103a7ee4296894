-- ===== src/ChatFile/Participants.antt =====
-- The participants header of src/nbs-chat/chat_file.c: `parse_participants`, `format_participants` and
-- `update_participants`. A handle is the text before the NUL of its 64-byte array, a count an `int`.
pub mod RoundTrip
pub mod Update
use nbs_framework.Common.{
  ℕ, zero, suc, ◌+◌, ◌-◌, Bool, true, false, ◌&&◌, ◌||◌, Option, none, some, List, [], ◌∷◌, ◌++◌,
  ltb, leb, ◌==◌, if◌then◌else◌, length, take,
}
use nbs_framework.Common.Decimal.{ℤ, pos, negsuc, show_int}
use nbs_framework.Common.Outcome.{Outcome, ok, ◌>>=◌, ◌>>◌, assert}
use nbs_framework.Common.Text.{Bytes, str_eq}
use nbs_framework.ChatFile.Number.{int_max, safe_parse_int}

abbrev pub max_handle_len : ℕ
max_handle_len = 64

abbrev pub max_participants : ℕ
max_participants = 256

-- `participant_t`
pub record Participant : Type 0 where
  pub handle : Bytes
  pub count : ℤ

-- Skip whitespace and commas.
unfoldable pub skip_separators : Bytes → Bytes
skip_separators [] = []
skip_separators (c ∷ s) = if c == b' ' || c == b',' then skip_separators s else c ∷ s

unfoldable pub ends_handle : ℕ → Bool
ends_handle c = c == b'(' || c == b',' || c == b'\n'

-- The text before the first character that `stop` accepts, and the text from there on.
unfoldable pub before_stop : (ℕ → Bool) → Bytes → Bytes
before_stop stop [] = []
before_stop stop (c ∷ s) = if stop c then [] else c ∷ before_stop stop s

unfoldable pub from_stop : (ℕ → Bool) → Bytes → Bytes
from_stop stop [] = []
from_stop stop (c ∷ s) = if stop c then c ∷ s else from_stop stop s

unfoldable pub is_close : ℕ → Bool
is_close c = c == b')'

-- The number between the parentheses, 0 where it is not read.
unfoldable pub count_text : Bytes → ℤ
count_text num =
    if ltb 0 (length num) && ltb (length num) 16
    then elim (safe_parse_int num) [ some v ↦ v | none ↦ pos 0 ]
    else pos 0

unfoldable pub count_at : Bytes → ℤ
count_at [] = pos 0
count_at (c ∷ s) = if c == b'(' then count_text (before_stop is_close s) else pos 0

unfoldable pub skip_close : Bytes → Bytes
skip_close [] = []
skip_close (c ∷ s) = if c == b')' then s else c ∷ s

unfoldable pub after_count : Bytes → Bytes
after_count [] = []
after_count (c ∷ s) = if c == b'(' then skip_close (from_stop is_close s) else c ∷ s

-- `*p == '\0' || *p == '\n'`
unfoldable pub at_end : Bytes → Bool
at_end [] = true
at_end (c ∷ s) = c == b'\n'

-- The loop of `parse_participants`. A round reads at least one character, so fuel for each is enough.
unfoldable pub parse_entries : ℕ → ℕ → Bytes → List Participant
parse_entries zero room p = []
parse_entries (suc fuel) room p =
    let q = skip_separators p in
    let handle = before_stop ends_handle q in
    let behind = from_stop ends_handle q in
    let later = parse_entries fuel (room - 1) (after_count behind) in
    if room == 0
    then []
    else if at_end q
    then []
    else if length handle == 0 || leb max_handle_len (length handle)
    then []
    else record { handle = handle; count = count_at behind } ∷ later

unfoldable pub parse_participants : Bytes → ℕ → List Participant
unfolding skip_separators ends_handle before_stop from_stop is_close count_text count_at skip_close
    after_count at_end parse_entries
parse_participants line max_parts = parse_entries (suc (length line)) max_parts line

-- `"%s(%d)"`
unfoldable pub entry_text : Participant → Bytes
entry_text p = p.handle ++ (b'(' ∷ (show_int p.count ++ b')' ∷ []))

unfoldable pub separator : Bool → Bytes
separator true = []
separator false = b',' ∷ b' ' ∷ []

-- The loop of `format_participants`, on what is in the buffer. A piece that does not fit with a NUL is
-- cut off there and ends the loop.
unfoldable pub format_entries : Bool → ℕ → Bytes → List Participant → Bytes
format_entries first buf_size out [] = out
format_entries first buf_size out (p ∷ ps) =
    let parted = out ++ separator first in
    let whole = parted ++ entry_text p in
    let later = format_entries false buf_size whole ps in
    if leb buf_size (length parted)
    then take (buf_size - 1) parted
    else if leb buf_size (length whole)
    then take (buf_size - 1) whole
    else later

unfoldable pub format_participants : List Participant → ℕ → Outcome Bytes
unfolding entry_text separator format_entries
format_participants parts buf_size = do
  assert (ltb 0 buf_size)
  let out = format_entries true buf_size [] parts
  assert (ltb (length out) buf_size)
  ok out

-- `count++` on an `int`, which wraps around from INT_MAX to INT_MIN.
unfoldable pub incr : ℤ → ℤ
incr (pos n) = if n == int_max then negsuc int_max else pos (n + 1)
incr (negsuc zero) = pos 0
incr (negsuc (suc n)) = negsuc n

-- Count a message of `handle`; `room` is what `max_parts` leaves behind the listed ones.
unfoldable pub update_entries : List Participant → Bytes → ℕ → List Participant
update_entries [] handle room =
    if room == 0
    then []
    else record { handle = take (max_handle_len - 1) handle; count = pos 1 } ∷ []
update_entries (p ∷ ps) handle room =
    if str_eq p.handle handle
    then record p { count = incr p.count } ∷ ps
    else p ∷ update_entries ps handle room

unfoldable pub update_participants : List Participant → Bytes → ℕ → List Participant
unfolding incr update_entries
update_participants parts handle max_parts = update_entries parts handle (max_parts - length parts)
