-- ===== src/ChatFile/Cursors.antt =====
-- Read cursors, of src/nbs-chat/chat_file.c: the file <chat>.cursors has, for each handle, the index of
-- the last message it has read. The file is its bytes, or `none` where there is none. Building the
-- path, the lock and the system calls are left out, and the writes are taken to succeed.
pub mod Keys
mod Lines
pub mod ReadBack
use nbs_framework.Common.{
  ℕ, zero, suc, ◌-◌, ◌+◌, Bool, true, false, not, ◌&&◌, ◌||◌, Option, none, some, List, [], ◌∷◌,
  ◌++◌, ltb, leb, ◌==◌, if◌then◌else◌, length, take,
}
use nbs_framework.Common.Decimal.{ℤ, pos, negsuc, show_int}
use nbs_framework.Common.Outcome.{Outcome, ok, ◌>>=◌, ◌>>◌, assert}
use nbs_framework.Common.Text.{Bytes, codes, str_eq}
use nbs_framework.ChatFile.Lines.{fgets_lines}
use nbs_framework.ChatFile.Message.{c_string}
use nbs_framework.ChatFile.Number.{safe_parse_int}
use nbs_framework.ChatFile.Participants.{max_handle_len, max_participants}

-- One entry of the arrays `handles` and `indices`.
pub record Cursor : Type 0 where
  pub handle : Bytes
  pub index : ℤ

-- `strchr(line, '=')`: the key before it and the value behind it.
unfoldable pub split_equals : Bytes → Option (Bytes × Bytes)
split_equals [] = none
split_equals (c ∷ s) =
    let later : Option (Bytes × Bytes) = elim (split_equals s) [
      | none ↦ none
      | some (k, v) ↦ some (c ∷ k, v)
    ] in
    if c == b'=' then some ([], s) else later

-- A key that fits the array of a handle.
unfoldable pub short_key : Option (Bytes × Bytes) → Option (Bytes × Bytes)
short_key none = none
short_key (some (key, value)) = if ltb (length key) max_handle_len then some (key, value) else none

-- Comments and blank lines are skipped, and lines with no key.
unfoldable pub split_line : Bytes → Option (Bytes × Bytes)
unfolding split_equals short_key
split_line [] = none
split_line (c ∷ s) = if c == b'#' || c == b'\n' then none else short_key (split_equals (c ∷ s))

-- The lines of the file, each at most 255 bytes, as the string functions see them.
unfoldable pub cursor_lines : Option Bytes → List Bytes
cursor_lines none = []
cursor_lines (some text) = fgets_lines 255 text []

-- The loop of `chat_cursor_read`: -1 where the handle is not found, -2 where its value is no number.
unfoldable pub find_cursor : Bytes → List Bytes → ℤ
find_cursor handle [] = negsuc 0
find_cursor handle (raw ∷ lines) =
    let rest = find_cursor handle lines in
    elim (split_line (c_string raw)) [
      | none ↦ rest
      | some (key, value) ↦
          if str_eq key handle
          then elim (safe_parse_int value) [ some index ↦ index | none ↦ negsuc 1 ]
          else rest
    ]

unfoldable pub chat_cursor_read : Option Bytes → Bytes → Outcome ℤ
unfolding find_cursor cursor_lines
chat_cursor_read file handle = do
  assert (ltb 0 (length handle))
  ok (find_cursor handle (cursor_lines file))

-- The value of a cursor that is read to be written again.
unfoldable pub value_or_zero : Bytes → ℤ
value_or_zero value = elim (safe_parse_int value) [ some index ↦ index | none ↦ pos 0 ]

-- The loop over the lines, with room for `room` entries, where `change` gives the new index of an entry.
unfoldable pub collect_cursors : (Bytes → ℤ → ℤ) → ℕ → List Bytes → List Cursor
unfolding value_or_zero
collect_cursors change room [] = []
collect_cursors change zero (raw ∷ lines) = []
collect_cursors change (suc room) (raw ∷ lines) = elim (split_line (c_string raw)) [
  | none ↦ collect_cursors change (suc room) lines
  | some (key, value) ↦
      record { handle = key; index = change key (value_or_zero value) }
      ∷ collect_cursors change room lines
]

unfoldable pub cursor_text : Cursor → Bytes
cursor_text c = c.handle ++ b'=' ∷ (show_int c.index ++ b'\n' ∷ [])

unfoldable pub cursors_text : List Cursor → Bytes
unfolding cursor_text
cursors_text [] = []
cursors_text (c ∷ cs) = cursor_text c ++ cursors_text cs

-- The first line of the file; its dash is the three bytes of U+2014.
abbrev pub comment_line : Bytes
comment_line =
    codes "# Read cursors " ++ (226 ∷ 128 ∷ 148 ∷ codes " last-read message index per handle\n")

unfoldable pub cursor_file : List Cursor → Bytes
unfolding cursors_text
cursor_file cs = comment_line ++ cursors_text cs

unfoldable pub set_index : Bytes → ℤ → Bytes → ℤ → ℤ
set_index handle index key old = if str_eq key handle then index else old

unfoldable pub has_cursor : Bytes → List Cursor → Bool
has_cursor handle [] = false
has_cursor handle (c ∷ cs) = str_eq c.handle handle || has_cursor handle cs

-- Add a new entry where the handle is not found and there is room.
unfoldable pub add_cursor : Bytes → ℤ → List Cursor → List Cursor
unfolding has_cursor
add_cursor handle index cs =
    if not (has_cursor handle cs) && ltb (length cs) max_participants
    then cs ++ record { handle = take (max_handle_len - 1) handle; index = index } ∷ []
    else cs

-- The new file.
unfoldable pub chat_cursor_write : Option Bytes → Bytes → ℕ → Outcome Bytes
unfolding collect_cursors set_index add_cursor cursor_lines cursor_file
chat_cursor_write file handle index = do
  assert (ltb 0 (length handle))
  let change = set_index handle (pos index)
  let read = collect_cursors change max_participants (cursor_lines file)
  ok (cursor_file (add_cursor handle (pos index) read))
