-- ===== src/ChatFile/Cursors/ReadBack.antt =====
-- Reading a cursor from the file that `chat_cursor_write` leaves.
use nbs_framework.Common.{
  ℕ, ◌-◌, ◌<◌, ◌≤◌, ◌≡◌, ◌⊎◌, inl, inr, refl, sym, subst, ap, ◌∙◌, true, Option, none, some, List,
  [], ◌∷◌, ◌++◌, map, ltb, length, take, All, All-append, All-map, arith, Bool-cases, lt→ltb,
}
use nbs_framework.Common.Decimal.{ℤ, pos}
use nbs_framework.Common.Outcome.{ok, ◌>>=◌}
use nbs_framework.Common.Text.{Bytes, codes, str_eq, str_eq_iff}
use nbs_framework.ChatFile.Cursors.{
  Cursor, cursor_lines, find_cursor, chat_cursor_read, collect_cursors, cursor_text, cursors_text,
  cursor_file, set_index, has_cursor, add_cursor, chat_cursor_write,
}
use nbs_framework.ChatFile.Cursors.Keys.{
  IsKey, InInt, EndsOnce, fgets_lines-EndsOnce, collect_cursors_lem,
}
use nbs_framework.ChatFile.Lines.{fgets_lines, fgets_lines-line}
use nbs_framework.ChatFile.Number.{int_max}
use nbs_framework.ChatFile.Participants.{max_handle_len, max_participants}
use nbs_framework.ChatFile.Participants.Update.{take_all}
use nbs_framework.ChatFile.Cursors.Lines.{
  IsCursor, HasIndex, fgets_lines-cursors_text, find_cursor-comment, find_cursor-map,
}

-- What the write keeps of the old file, and what it puts into the new one.
abbrev pub kept_cursors : Option Bytes → Bytes → ℕ → List Cursor
kept_cursors file handle index =
    collect_cursors (set_index handle (pos index)) max_participants (cursor_lines file)

abbrev IsWritten : Bytes → ℕ → Cursor → Type 0
IsWritten handle n c = IsCursor c × HasIndex handle n c

set_index_lem :
    (handle : Bytes) (n : ℕ) (k : Bytes) (v : ℤ)
    → n ≤ int_max
    → IsKey k
    → InInt v
    → IsWritten handle n (record { handle = k; index = set_index handle (pos n) k v })
unfolding set_index
set_index_lem handle n k v fits key inside = elim (Bool-cases (str_eq k handle)) [
  | inl same ↦
      let whole : set_index handle (pos n) k v ≡ pos n = rw same refl in
      ((key, subst InInt (sym whole) (omega arith)), (λ e. whole))
  | inr other ↦
      let whole : set_index handle (pos n) k v ≡ v = rw other refl in
      ((key, subst InInt (sym whole) inside), (λ e. absurd cc))
]

cursor_lines-EndsOnce : (file : Option Bytes) → All EndsOnce (cursor_lines file)
unfolding cursor_lines
cursor_lines-EndsOnce none = tt
cursor_lines-EndsOnce (some text) = fgets_lines-EndsOnce 255 text [] tt

kept_cursors-IsWritten :
    (file : Option Bytes) (handle : Bytes) (n : ℕ)
    → n ≤ int_max
    → All (IsWritten handle n) (kept_cursors file handle n)
kept_cursors-IsWritten file handle n fits =
    collect_cursors_lem (IsWritten handle n) (set_index handle (pos n)) max_participants
      (cursor_lines file) (λ k v key inside. set_index_lem handle n k v fits key inside)
      (cursor_lines-EndsOnce file)

has_cursor-append :
    (handle : Bytes) (cs : List Cursor) (c : Cursor)
    → str_eq c.handle handle ≡ true
    → has_cursor handle (cs ++ c ∷ []) ≡ true
unfolding has_cursor
has_cursor-append handle [] c h = rw h refl
has_cursor-append handle (d ∷ cs) c h = rw (has_cursor-append handle cs c h) (ground arith)

-- Adding leaves a list that has the handle, and entries that are all as written.
add_cursor_lem :
    (handle : Bytes) (n : ℕ) (cs : List Cursor)
    → n ≤ int_max
    → IsKey handle
    → All (IsWritten handle n) cs
    → (has_cursor handle cs ≡ true) ⊎ (length cs < max_participants)
    → All (IsWritten handle n) (add_cursor handle (pos n) cs)
      × (has_cursor handle (add_cursor handle (pos n) cs) ≡ true)
unfolding add_cursor
add_cursor_lem handle n cs fits key v room = elim (Bool-cases (has_cursor handle cs)) [
  | inl found ↦ let same : add_cursor handle (pos n) cs ≡ cs = rw found refl in rw same (v, found)
  | inr missing ↦
      let new : Cursor = record { handle = handle; index = pos n } in
      let free : ltb (length cs) max_participants ≡ true = elim room [
        | inl found ↦ absurd cc
        | inr less ↦ lt→ltb (length cs) max_participants less
      ] in
      let whole : take (max_handle_len - 1) handle ≡ handle =
        take_all (max_handle_len - 1) handle (omega (arith, key.4)) in
      let same : add_cursor handle (pos n) cs ≡ cs ++ new ∷ [] =
        rw missing (rw free (rw whole refl)) in
      let own : str_eq handle handle ≡ true = (str_eq_iff handle handle).1 refl in
      rw same (
        All-append (IsWritten handle n) cs (new ∷ []) v (((key, omega arith), (λ e. refl)), tt),
        has_cursor-append handle cs new own,
      )
]

abbrev comment_text : Bytes
comment_text =
    codes " Read cursors " ++ (226 ∷ 128 ∷ 148 ∷ codes " last-read message index per handle")

-- The lines of a written file.
fgets_lines-cursor_file :
    (cs : List Cursor)
    → All IsCursor cs
    → fgets_lines 255 (cursor_file cs) []
      ≡ (b'#' ∷ (comment_text ++ b'\n' ∷ [])) ∷ map cursor_text cs
unfolding cursor_file
fgets_lines-cursor_file cs v =
    fgets_lines-line 255 (b'#' ∷ comment_text) (cursors_text cs) [] (omega arith) (omega arith)
    ∙ rw (fgets_lines-cursors_text cs v) refl

-- The write returns, and the read of what it returns gives the index.
pub chat_cursor_write_lem :
    (file : Option Bytes) (handle : Bytes) (index : ℕ)
    → IsKey handle
    → 0 < length handle
    → index ≤ int_max
    → (has_cursor handle (kept_cursors file handle index) ≡ true)
      ⊎ (length (kept_cursors file handle index) < max_participants)
    → (file' : Bytes) × (chat_cursor_write file handle index ≡ ok file')
      × (chat_cursor_read (some file') handle ≡ ok (pos index))
unfolding chat_cursor_write chat_cursor_read
chat_cursor_write_lem file handle index key some_handle fits room =
    let (v, found) =
      add_cursor_lem handle index (kept_cursors file handle index) fits key
        (kept_cursors-IsWritten file handle index fits) room in
    let cs = add_cursor handle (pos index) (kept_cursors file handle index) in
    let cursors = All-map (λ c w. w.0) cs v in
    let set = All-map (λ c w. w.1) cs v in
    let read : find_cursor handle (cursor_lines (some (cursor_file cs))) ≡ pos index =
      ap (find_cursor handle) (unfold cursor_lines in fgets_lines-cursor_file cs cursors)
      ∙ find_cursor-comment handle (comment_text ++ b'\n' ∷ []) (map cursor_text cs) (omega arith)
      ∙ find_cursor-map handle index cs fits cursors set found in
    (
      cursor_file cs,
      rw (lt→ltb 0 (length handle) some_handle) refl,
      rw (lt→ltb 0 (length handle) some_handle) (ap ok read),
    )

-- The cursor that was written is read again, whatever the file was before: for a handle that can be
-- a key and is in the file already or finds room in it, and an index in the range of int.
pub chat_cursor_read-chat_cursor_write :
    (file : Option Bytes) (handle : Bytes) (index : ℕ)
    → IsKey handle
    → 0 < length handle
    → index ≤ int_max
    → (has_cursor handle (kept_cursors file handle index) ≡ true)
      ⊎ (length (kept_cursors file handle index) < max_participants)
    → (do file' ← chat_cursor_write file handle index; chat_cursor_read (some file') handle)
      ≡ ok (pos index)
chat_cursor_read-chat_cursor_write file handle index key some_handle fits room =
    let (file', wrote, read) = chat_cursor_write_lem file handle index key some_handle fits room in
    rw wrote read
