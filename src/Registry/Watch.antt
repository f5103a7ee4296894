-- ===== src/Registry/Watch.antt =====
-- What the sidecar does with its registry, of src/nbs-sidecar/registry.c: seeding it, the control inbox, and
-- going through its entries.
use nbs_framework.Common.{
  ℕ, zero, suc, ◌+◌, ◌-◌, Bool, true, false, not, ◌&&◌, Option, none, some, List, [], ◌∷◌, ◌++◌,
  ltb, leb, ◌==◌, if◌then◌else◌, length,
}
use nbs_framework.Common.Outcome.{Outcome, ok, fail, ◌>>=◌, ◌>>◌, assert, require}
use nbs_framework.Common.Text.{Bytes, codes}
use nbs_framework.ChatFile.File.{strip_prefix}
use nbs_framework.ChatFile.Message.{c_string}
use nbs_framework.Registry.{
  nbs_max_path, file_lines, chomp, str_ends_with, strip_whitespace, count_lines, get_line_n,
  register, process_control_command,
}

-- An empty line or a comment.
unfoldable pub is_skipped : Bytes → Bool
is_skipped [] = true
is_skipped (c ∷ s) = c == b'#'

-- One line of the inbox: the registry, and whether it was a command.
unfoldable pub process_line : Option Bytes → Option Bytes → Outcome (Option Bytes × ℕ)
unfolding is_skipped
process_line registry none = ok (registry, 0)
process_line registry (some line) =
    let stripped = strip_whitespace line in
    let run = do registry' ← process_control_command stripped registry; ok (registry', 1)
    in if is_skipped stripped then ok (registry, 0) else run

-- The loop over `count` lines from the line `i` on.
unfoldable pub process_lines : ℕ → Bytes → ℕ → Option Bytes → ℕ → Outcome (Option Bytes × ℕ)
unfolding process_line
process_lines zero buf i registry processed = ok (registry, processed)
process_lines (suc count) buf i registry processed = do
  (registry', one) ← process_line registry (get_line_n buf i nbs_max_path)
  process_lines count buf (i + 1) registry' (processed + one)

-- The registry, the line of the inbox to go on from, and the number of commands.
unfoldable pub process_text : Bytes → Option Bytes → ℕ → Outcome (Option Bytes × ℕ × ℕ)
unfolding process_lines
process_text buf registry inbox_line = do
  total_lines ← count_lines buf
  let run = do
    (registry', commands_processed) ←
        process_lines (total_lines - inbox_line) buf inbox_line registry 0
    assert (leb inbox_line total_lines)
    ok (registry', total_lines, commands_processed)
  (if leb total_lines inbox_line then ok (registry, inbox_line, 0) else run)

-- The buffer that the inbox is read into ends at its first NUL.
unfoldable pub registry_process_inbox :
    Option Bytes → Option Bytes → ℕ → Outcome (Option Bytes × ℕ × ℕ)
unfolding process_text
registry_process_inbox none registry inbox_line = ok (registry, inbox_line, 0)
registry_process_inbox (some buf) registry inbox_line =
    process_text (c_string buf) registry inbox_line

-- `strstr(s, word) != NULL`
unfoldable pub contains : Bytes → Bytes → Bool
contains [] word = length word == 0
contains (c ∷ s) word =
    let further = contains s word in
    elim (strip_prefix word (c ∷ s)) [ some behind ↦ true | none ↦ further ]

-- Whether a regular file of the folder is a chat to watch.
unfoldable pub is_watched : Bytes → Bool
unfolding contains
is_watched [] = false
is_watched (c ∷ name) =
    not (c == b'.')
    && str_ends_with (c ∷ name) (codes ".chat")
    && not (contains (c ∷ name) (codes "-archive."))

unfoldable pub seed_chats : Bytes → List Bytes → Option Bytes → Option Bytes
unfolding is_watched
seed_chats chat_dir [] registry = registry
seed_chats chat_dir (name ∷ names) registry =
    let entry = codes "chat:" ++ (chat_dir ++ b'/' ∷ name) in
    seed_chats chat_dir names (if is_watched name then register registry entry else registry)

-- `fopen(path, "a")`
unfoldable pub touch : Option Bytes → Bytes
touch none = []
touch (some text) = text

-- `names` are the regular files of the folder of chats, and `has_events` tells whether there is a folder of
-- events. The paths fit their buffers.
unfoldable pub registry_seed : Bytes → List Bytes → Bool → Option Bytes → Option Bytes
unfolding seed_chats touch
registry_seed nbs_root names has_events registry =
    let seeded = seed_chats (nbs_root ++ codes "/.nbs/chat") names (some (touch registry)) in
    if has_events
    then register seeded (codes "bus:" ++ (nbs_root ++ codes "/.nbs/events"))
    else seeded

unfoldable pub type_prefix : Bytes → Outcome Bytes
type_prefix type_name = do
  let prefix = type_name ++ b':' ∷ []
  assert (ltb (length prefix) 256)
  ok prefix

unfoldable pub find_prefix : Bytes → List Bytes → Option Bytes
find_prefix prefix [] = none
find_prefix prefix (line ∷ lines) =
    let rest = find_prefix prefix lines in
    elim (strip_prefix prefix (chomp line)) [ some path ↦ some path | none ↦ rest ]

unfoldable pub fitting : ℕ → Option Bytes → Outcome Bytes
fitting out_size none = fail 1
fitting out_size (some path) = do require (ltb (length path) out_size) 1; ok path

-- The path of the first entry of the type.
unfoldable pub registry_find_first : Option Bytes → Bytes → ℕ → Outcome Bytes
unfolding type_prefix find_prefix fitting
registry_find_first none type_name out_size = fail 1
registry_find_first (some text) type_name out_size = do
  prefix ← type_prefix type_name
  fitting out_size (find_prefix prefix (file_lines text))

-- The callback returns the new user data and whether it was not zero, which ends the loop. One line on, with the
-- path that it has, if any: the user data, the number of paths visited, and whether the loop ends.
unfoldable pub visit_path {ℓ} :
    {S : Type ℓ} → (Bytes → Bool) → (S → Bytes → S × Bool) → Option Bytes → S → ℕ → S × ℕ × Bool
visit_path exists callback none user_data count = (user_data, count, false)
visit_path exists callback (some path) user_data count =
    let r = callback user_data path in
    if exists path then (r.0, count + 1, r.1) else (user_data, count, false)

unfoldable pub visit_paths {ℓ} :
    {S : Type ℓ} → (Bytes → Bool) → (S → Bytes → S × Bool) → Bytes → List Bytes → S → ℕ → S × ℕ
unfolding visit_path
visit_paths exists callback prefix [] user_data count = (user_data, count)
visit_paths exists callback prefix (line ∷ lines) user_data count =
    let r = visit_path exists callback (strip_prefix prefix (chomp line)) user_data count in
    let rest = visit_paths exists callback prefix lines r.0 r.1 in if r.2 then (r.0, r.1) else rest

unfoldable pub registry_for_each {ℓ} :
    {S : Type ℓ}
    → (Bytes → Bool)
    → (S → Bytes → S × Bool)
    → Option Bytes
    → Bytes
    → S
    → Outcome (S × ℕ)
unfolding visit_paths
registry_for_each exists callback none type_name user_data = fail 1
registry_for_each exists callback (some text) type_name user_data = do
  prefix ← type_prefix type_name
  ok (visit_paths exists callback prefix (file_lines text) user_data 0)
