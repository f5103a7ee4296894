-- ===== src/Registry.antt =====
-- src/nbs-sidecar/registry.c: the file that lists the chats and event queues a sidecar watches. A file is its
-- bytes, and a missing one is `none`; system calls succeed, and `exists` stands for access(2).
pub mod Watch
pub mod Entries
pub mod Inbox
pub mod Calls
pub mod Pieces
pub mod Unfinished
use nbs_framework.Common.{
  ℕ, zero, suc, ◌+◌, ◌-◌, ◌*◌, ◌/◌, ◌%◌, ◌^◌, ◌≤◌, ◌<◌, min, ◌≡◌, refl, sym, ap, ◌∙◌, subst, ◌≢◌,
  ◌↔◌, ◌⊎◌, inl, inr, Bool, true, false, not, ◌&&◌, ◌||◌, Option, none, some, List, [], ◌∷◌, ◌++◌,
  map, append-nil, append_assoc, arith, ltb, leb, ◌==◌, if◌then◌else◌, within, ltb→lt, lt→ltb,
  leb→le, le→leb, ==_iff, Bool-cases, Option-cases, length, get_or, take, drop, length-append,
  length-take, length-drop, take-append-drop, take-length, map-take, map-drop, length-map, All,
  All-append, All-append_left, All-append_right, All-map,
}
use nbs_framework.Common.Outcome.{
  Outcome, ok, fail, abort, ◌>>=◌, ◌>>◌, assert, require, bind-eq-ok, ok_inj, assert-eq-ok,
}
use nbs_framework.Common.Text.{
  Bytes, codes, IsByte, Lacks, is_digit, is_alnum, is_space, str_eq, str_eq_iff,
}
use nbs_framework.ChatFile.File.{strip_prefix}
use nbs_framework.ChatFile.Lines.{fgets_lines}
use nbs_framework.ChatFile.Message.{c_string}
use nbs_framework.ChatFile.Number.{int_max}

abbrev pub nbs_max_path : ℕ
nbs_max_path = 4096

abbrev pub nbs_max_entry : ℕ
nbs_max_entry = nbs_max_path + 512 + 16

-- The lines that fgets reads into a buffer of NBS_MAX_ENTRY bytes, each up to its first NUL.
abbrev pub file_lines : Bytes → List Bytes
file_lines text = map c_string (fgets_lines (nbs_max_entry - 1) text [])

-- The line without a line end at its end.
unfoldable pub chomp : Bytes → Bytes
chomp [] = []
chomp (c ∷ s) = let rest = chomp s in if c == b'\n' && length s == 0 then [] else c ∷ rest

unfoldable pub has_line : Bytes → List Bytes → Bool
has_line entry [] = false
has_line entry (line ∷ lines) = str_eq (chomp line) entry || has_line entry lines

unfoldable pub registry_contains : Option Bytes → Bytes → Bool
unfolding has_line chomp
registry_contains none entry = false
registry_contains (some text) entry = has_line entry (file_lines text)

unfoldable pub registry_append : Option Bytes → Bytes → Option Bytes
registry_append none entry = some (entry ++ b'\n' ∷ [])
registry_append (some text) entry = some (text ++ (entry ++ b'\n' ∷ []))

unfoldable pub without_line : Bytes → List Bytes → Bytes
without_line entry [] = []
without_line entry (line ∷ lines) =
    let rest = without_line entry lines in if str_eq (chomp line) entry then rest else line ++ rest

unfoldable pub registry_remove : Option Bytes → Bytes → Option Bytes
unfolding without_line chomp
registry_remove none entry = none
registry_remove (some text) entry = some (without_line entry (file_lines text))

unfoldable pub str_ends_with : Bytes → Bytes → Bool
str_ends_with s suffix =
    if ltb (length s) (length suffix)
    then false
    else str_eq (drop (length s - length suffix) s) suffix

-- `strip_whitespace`: the blanks in front, and blanks and line ends at the end.
unfoldable pub is_blank : ℕ → Bool
is_blank c = c == b' ' || c == b'\t' || c == b'\r'

unfoldable pub skip_blanks : Bytes → Bytes
skip_blanks [] = []
skip_blanks (c ∷ s) = let rest = skip_blanks s in if is_blank c then rest else c ∷ s

unfoldable pub trim_blanks : Bytes → Bytes
trim_blanks [] = []
trim_blanks (c ∷ s) =
    let rest = trim_blanks s in
    if (is_blank c || c == b'\n') && length rest == 0 then [] else c ∷ rest

unfoldable pub strip_whitespace : Bytes → Bytes
unfolding is_blank skip_blanks trim_blanks
strip_whitespace s = trim_blanks (skip_blanks s)

-- The line ends, and one more where the last byte, `last` before the first one, is none.
unfoldable pub count_from : ℕ → Bytes → ℕ
count_from last [] = if last == b'\n' then 0 else 1
count_from last (c ∷ s) = (if c == b'\n' then 1 else 0) + count_from c s

-- The number of lines of a text that has no NUL, as the inbox up to its first one.
unfoldable pub line_total : Bytes → ℕ
unfolding count_from
line_total [] = 0
line_total (c ∷ s) = (if c == b'\n' then 1 else 0) + count_from c s

-- The count is an `int`: the assertion in the loop fails on more line ends than INT_MAX. One unfinished line behind
-- INT_MAX line ends overflows without a test; that is an abort here too.
unfoldable pub count_lines : Bytes → Outcome ℕ
unfolding line_total
count_lines buf = do assert (leb (line_total buf) int_max); ok (line_total buf)

-- The loop that skips `n` line ends: how many it found, and where it stopped.
unfoldable pub skip_lines : ℕ → Bytes → ℕ × Bytes
skip_lines zero s = (0, s)
skip_lines (suc n) [] = (0, [])
skip_lines (suc n) (c ∷ s) =
    let same = skip_lines (suc n) s in
    let fewer = skip_lines n s in if c == b'\n' then (fewer.0 + 1, fewer.1) else same

-- Up to the line end, and at most `room` bytes.
unfoldable pub copy_line : ℕ → Bytes → Bytes
copy_line zero s = []
copy_line (suc room) [] = []
copy_line (suc room) (c ∷ s) = let rest = copy_line room s in if c == b'\n' then [] else c ∷ rest

-- A line of a text that has no NUL; `none` stands for -1.
unfoldable pub get_line_n : Bytes → ℕ → ℕ → Option Bytes
unfolding skip_lines copy_line
get_line_n buf n out_size =
    let (current, p) = skip_lines n buf in
    if not (current == n)
    then none
    else if length p == 0 && ltb 0 n
    then none
    else some (copy_line (out_size - 1) p)

-- `%<width>s` of sscanf behind white space: the word, which ends at white space or a NUL, and what follows it.
unfoldable pub skip_white : Bytes → Bytes
skip_white [] = []
skip_white (c ∷ s) = let rest = skip_white s in if is_space c then rest else c ∷ s

unfoldable pub take_word : ℕ → Bytes → Bytes × Bytes
take_word zero s = ([], s)
take_word (suc width) [] = ([], [])
take_word (suc width) (c ∷ s) =
    let r = take_word width s in if is_space c || c == 0 then ([], c ∷ s) else (c ∷ r.0, r.1)

-- `sscanf(line, "%255s %4095s", verb, path)`, where both words are there.
unfoldable pub verb_and_path : Bytes → Option (Bytes × Bytes)
unfolding skip_white take_word
verb_and_path line =
    let (verb, behind) = take_word 255 (skip_white line) in
    let (path, rest) = take_word 4095 (skip_white behind) in
    if ltb 0 (length verb) && ltb 0 (length path) then some (verb, path) else none

unfoldable pub register : Option Bytes → Bytes → Option Bytes
unfolding registry_contains registry_append
register registry entry =
    if registry_contains registry entry then registry else registry_append registry entry

-- The entry of a path, which fits its buffer.
unfoldable pub with_entry : Bytes → Bytes → (Bytes → Option Bytes) → Outcome (Option Bytes)
with_entry kind path act = do
  let entry = kind ++ path
  assert (ltb (length entry) nbs_max_entry)
  ok (act entry)

unfoldable pub run_command : Option Bytes → Option (Bytes × Bytes) → Outcome (Option Bytes)
unfolding with_entry register registry_remove
run_command registry none = ok registry
run_command registry (some (verb, path)) =
    if str_eq verb (codes "register-chat")
    then with_entry (codes "chat:") path (register registry)
    else if str_eq verb (codes "unregister-chat")
    then with_entry (codes "chat:") path (registry_remove registry)
    else if str_eq verb (codes "register-bus")
    then with_entry (codes "bus:") path (register registry)
    else if str_eq verb (codes "unregister-bus")
    then with_entry (codes "bus:") path (registry_remove registry)
    else ok registry

unfoldable pub process_control_command : Bytes → Option Bytes → Outcome (Option Bytes)
unfolding verb_and_path run_command
process_control_command line registry = run_command registry (verb_and_path line)
