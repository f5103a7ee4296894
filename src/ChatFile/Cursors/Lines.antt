-- ===== src/ChatFile/Cursors/Lines.antt =====
-- The lines of a cursor file as they are read again.
use nbs_framework.Common.{
  ℕ, suc, ◌<◌, ◌≤◌, ◌≡◌, ◌≢◌, inl, inr, refl, sym, subst, ap, ◌∙◌, true, false, ◌||◌, none, some,
  List, [], ◌∷◌, ◌++◌, map, ◌==◌, length, length-append, append_assoc, append-nil, All, All-append,
  arith, Bool-cases,
}
use nbs_framework.Common.Decimal.{ℤ, pos, negsuc, show_nat, show_int}
use nbs_framework.Common.Decimal.RoundTrip.{All-show_nat, strtol-show_nat}
use nbs_framework.Common.Decimal.Size.{show_nat-le}
use nbs_framework.Common.Text.{Bytes, Lacks, str_eq, is_digit}
use nbs_framework.ChatFile.Cursors.{
  Cursor, split_equals, short_key, split_line, find_cursor, cursor_text, cursors_text, has_cursor,
}
use nbs_framework.ChatFile.Cursors.Keys.{IsKey, InInt}
use nbs_framework.ChatFile.Lines.{fgets_lines, fgets_lines-line}
use nbs_framework.ChatFile.Message.{c_string}
use nbs_framework.ChatFile.Message.RoundTrip.{c_string-Lacks}
use nbs_framework.ChatFile.Number.{int_max, safe_parse_int}
use nbs_framework.ChatFile.Participants.{max_handle_len}

-- A cursor that is read again from its line.
abbrev pub IsCursor : Cursor → Type 0
IsCursor c = IsKey c.handle × InInt c.index

All-show_int :
    (P : ℕ → Type 0) (v : ℤ) → P b'-' → ((c : ℕ) → is_digit c ≡ true → P c) → All P (show_int v)
unfolding show_int
All-show_int P (pos n) dash g = All-show_nat P n g
All-show_int P (negsuc n) dash g = (dash, All-show_nat P (suc n) g)

show_int-le : (v : ℤ) → InInt v → length (show_int v) ≤ 11
unfolding show_int
show_int-le (pos n) h = omega (arith, show_nat-le n 10)
show_int-le (negsuc n) h = omega (arith, show_nat-le (suc n) 10)

show_int-pos : (n : ℕ) → show_int (pos n) ≡ show_nat n
unfolding show_int
show_int-pos n = refl

-- The line of a cursor without its end.
abbrev line_of_cursor : Cursor → Bytes
line_of_cursor c = c.handle ++ b'=' ∷ show_int c.index

line_of_cursor-Lacks :
    (c : Cursor) (x : ℕ)
    → Lacks x c.handle
    → x ≢ b'='
    → x ≢ b'-'
    → is_digit x ≡ false
    → Lacks x (line_of_cursor c)
line_of_cursor-Lacks c x h sign dash digit =
    All-append (λ y. y ≢ x) c.handle (b'=' ∷ show_int c.index) h
      ((λ e. sign (sym e)), All-show_int (λ y. y ≢ x) c.index (λ e. dash (sym e)) (λ y d e. cc))

cursor_text-line :
    (c : Cursor) (rest : Bytes) → cursor_text c ++ rest ≡ line_of_cursor c ++ b'\n' ∷ rest
unfolding cursor_text
cursor_text-line c rest =
    rw (append_assoc c.handle (b'=' ∷ (show_int c.index ++ b'\n' ∷ [])) rest) (
      rw (append_assoc c.handle (b'=' ∷ show_int c.index) (b'\n' ∷ rest))
        (rw (append_assoc (show_int c.index) (b'\n' ∷ []) rest) refl))

pub fgets_lines-cursors_text :
    (cs : List Cursor) → All IsCursor cs → fgets_lines 255 (cursors_text cs) [] ≡ map cursor_text cs
unfolding cursors_text
fgets_lines-cursors_text [] h = unfold fgets_lines in refl
fgets_lines-cursors_text (c ∷ cs) (v, h) =
    let line = line_of_cursor c in
    let short : length line < 255 =
      omega
        (arith, length-append c.handle (b'=' ∷ show_int c.index), show_int-le c.index v.1, v.0.4) in
    let clean = line_of_cursor-Lacks c b'\n' v.0.2 (omega arith) (omega arith) refl in
    ap (λ t. fgets_lines 255 t []) (cursor_text-line c (cursors_text cs))
    ∙ fgets_lines-line 255 line (cursors_text cs) [] clean (omega (arith, short))
    ∙ rw (sym (cursor_text-line c []))
        (rw (append-nil (cursor_text c)) (ap (◌∷◌ (cursor_text c)) (fgets_lines-cursors_text cs h)))

split_equals-append : (k v : Bytes) → Lacks b'=' k → split_equals (k ++ b'=' ∷ v) ≡ some (k, v)
unfolding split_equals
split_equals-append [] v h = refl
split_equals-append (c ∷ k) v h = rw (split_equals-append k v h.1) (ground arith)

short_key_short : (k v : Bytes) → length k < max_handle_len → short_key (some (k, v)) ≡ some (k, v)
unfolding short_key
short_key_short k v h = ground arith

split_line-key : (k v : Bytes) → IsKey k → split_line (k ++ b'=' ∷ v) ≡ some (k, v)
unfolding split_line
split_line-key [] v h = rw (split_equals-append [] v tt) (short_key_short [] v (omega arith))
split_line-key (c ∷ k) v (signs, nuls, ends, shown, short) =
    let entry : (c == b'#' || c == b'\n') ≡ false = ground (arith, shown, ends.0) in
    rw entry (rw (split_equals-append (c ∷ k) v signs) (short_key_short (c ∷ k) v short))

All-cursor_text :
    (P : ℕ → Type 0) (c : Cursor) → All P (line_of_cursor c) → P b'\n' → All P (cursor_text c)
All-cursor_text P c h e =
    let split : cursor_text c ≡ line_of_cursor c ++ b'\n' ∷ [] =
      sym (append-nil (cursor_text c)) ∙ cursor_text-line c [] in
    subst (All P) (sym split) (All-append P (line_of_cursor c) (b'\n' ∷ []) h (e, tt))

split_line-cursor_text :
    (c : Cursor)
    → IsCursor c
    → split_line (c_string (cursor_text c)) ≡ some (c.handle, show_int c.index ++ b'\n' ∷ [])
unfolding cursor_text
split_line-cursor_text c h =
    let clean = line_of_cursor-Lacks c 0 h.0.1 (omega arith) (omega arith) refl in
    rw (c_string-Lacks (cursor_text c) (All-cursor_text (λ x. x ≢ 0) c clean (omega arith)))
      (split_line-key c.handle (show_int c.index ++ b'\n' ∷ []) h.0)

safe_parse_int-line :
    (n : ℕ) → n ≤ int_max → safe_parse_int (show_nat n ++ b'\n' ∷ []) ≡ some (pos n)
unfolding safe_parse_int
safe_parse_int-line n h = rw (strtol-show_nat n (b'\n' ∷ []) (omega arith) refl) (ground arith)

find_cursor-here :
    (handle raw k v : Bytes) (n : ℕ) (lines : List Bytes)
    → split_line (c_string raw) ≡ some (k, v)
    → str_eq k handle ≡ true
    → safe_parse_int v ≡ some (pos n)
    → find_cursor handle (raw ∷ lines) ≡ pos n
unfolding find_cursor
find_cursor-here handle raw k v n lines split same parsed = ground (arith, split, same, parsed)

find_cursor-other :
    (handle raw k v : Bytes) (lines : List Bytes)
    → split_line (c_string raw) ≡ some (k, v)
    → str_eq k handle ≡ false
    → find_cursor handle (raw ∷ lines) ≡ find_cursor handle lines
unfolding find_cursor
find_cursor-other handle raw k v lines split differs = ground (arith, split, differs)

pub find_cursor-comment :
    (handle s : Bytes) (lines : List Bytes)
    → Lacks 0 s
    → find_cursor handle ((b'#' ∷ s) ∷ lines) ≡ find_cursor handle lines
unfolding find_cursor
find_cursor-comment handle s lines clean =
    let skipped : split_line (c_string (b'#' ∷ s)) ≡ none =
      ap split_line (c_string-Lacks (b'#' ∷ s) (omega arith, clean)) ∙ unfold split_line in refl in
    ground (arith, skipped)

abbrev pub HasIndex : Bytes → ℕ → Cursor → Type 0
HasIndex handle n c = str_eq c.handle handle ≡ true → c.index ≡ pos n

-- Where every cursor of the handle has the index, the other entries do not matter.
pub find_cursor-map :
    (handle : Bytes) (n : ℕ) (cs : List Cursor)
    → n ≤ int_max
    → All IsCursor cs
    → All (HasIndex handle n) cs
    → has_cursor handle cs ≡ true
    → find_cursor handle (map cursor_text cs) ≡ pos n
unfolding has_cursor
find_cursor-map handle n [] fits v set found = cc
find_cursor-map handle n (c ∷ cs) fits v set found =
    let value = show_int c.index ++ b'\n' ∷ [] in
    let split = split_line-cursor_text c v.0 in
    let rest = map cursor_text cs in
    elim (Bool-cases (str_eq c.handle handle)) [
      | inl here ↦
          let text : show_int c.index ≡ show_nat n = ap show_int (set.0 here) ∙ show_int-pos n in
          let parsed : safe_parse_int value ≡ some (pos n) =
            ap (λ t. safe_parse_int (t ++ b'\n' ∷ [])) text ∙ safe_parse_int-line n fits in
          find_cursor-here handle (cursor_text c) c.handle value n rest split here parsed
      | inr other ↦
          find_cursor-other handle (cursor_text c) c.handle value rest split other
          ∙ find_cursor-map handle n cs fits v.1 set.1 (ground arith)
    ]
