-- ===== src/Mentions.antt =====
-- Mentions: src/nbs-common/nbs_mention.h, bus_extract_mentions of src/nbs-chat/bus_bridge.c, which finds
-- @handle in a message, and src/nbs-sidecar/mention_escape.c, which takes mentions out of a text. The
-- caller's array of flags is taken to be there, and `malloc` to succeed.
pub mod Escape
pub mod Bounds
use nbs_framework.Common.{
  ℕ, zero, suc, ◌+◌, ◌-◌, Bool, true, false, not, ◌&&◌, ◌||◌, Option, none, some, List, [], ◌∷◌,
  ◌++◌, ltb, leb, ◌==◌, if◌then◌else◌, length, get_or,
}
use nbs_framework.Common.Outcome.{Outcome, ok, ◌>>=◌, ◌>>◌, assert}
use nbs_framework.Common.Text.{Bytes, is_alnum, str_eq}

abbrev pub max_mention_handle_len : ℕ
max_mention_handle_len = 64

unfoldable pub is_handle_char : ℕ → Bool
is_handle_char c = is_alnum c || c == b'_' || c == b'-'

unfoldable pub is_email_prefix_char : ℕ → Bool
is_email_prefix_char c = is_alnum c || c == b'.' || c == b'_' || c == b'-' || c == b'+'

-- An entry of the arrays `out_handles` and `out_interrupt_flags`.
pub record Mention : Type 0 where
  pub handle : Bytes
  pub flag : ℕ

-- The pointer `p`: the character before it, if any, and the text from it on.
pub record Scan : Type 0 where
  pub prev : Option ℕ
  pub text : Bytes
  pub found : List Mention

-- The handle characters at the front, and what stands behind them.
unfoldable pub handle_at : Bytes → Bytes
handle_at [] = []
handle_at (c ∷ s) = if is_handle_char c then c ∷ handle_at s else []

unfoldable pub behind_handle : Bytes → Bytes
behind_handle [] = []
behind_handle (c ∷ s) = if is_handle_char c then behind_handle s else c ∷ s

unfoldable pub after_email_char : Option ℕ → Bool
unfolding is_email_prefix_char
after_email_char none = false
after_email_char (some c) = is_email_prefix_char c

-- 1 for `!`, 2 for `?`, either also behind a backslash, and 0 otherwise.
unfoldable pub suffix_flag : Bytes → ℕ
suffix_flag [] = 0
suffix_flag (c ∷ s) =
    let d = if c == b'\\' then get_or s 0 0 else c in
    if d == b'!' then 1 else if d == b'?' then 2 else 0

-- A handle that is there already only raises its flag.
unfoldable pub add_mention : List Mention → Bytes → ℕ → List Mention
add_mention [] handle flag = record { handle = handle; flag = flag } ∷ []
add_mention (m ∷ ms) handle flag =
    let rest = add_mention ms handle flag in
    if str_eq m.handle handle
    then record m { flag = if ltb m.flag flag then flag else m.flag } ∷ ms
    else m ∷ rest

-- One round of the loop at the character `c`.
unfoldable pub scan_step : Option ℕ → ℕ → Bytes → List Mention → Scan
unfolding handle_at behind_handle after_email_char suffix_flag add_mention
scan_step prev c s found =
    let next : Scan = record { prev = some c; text = s; found = found } in
    let handle = handle_at s in
    let rest = behind_handle s in
    let jump : Scan = record {
      prev = some (get_or handle (length handle - 1) 0);
      text = rest;
      found = found;
    } in
    if not (c == b'@')
    then next
    else if after_email_char prev
    then next
    else if length handle == 0
    then next
    else if leb max_mention_handle_len (length handle)
    then jump
    else record jump { found = add_mention found handle (suffix_flag rest) }

-- The loop, with at most `fuel` rounds.
unfoldable pub scan_mentions : ℕ → ℕ → Scan → List Mention
unfolding scan_step
scan_mentions zero max_handles sc = sc.found
scan_mentions (suc fuel) max_handles sc = elim sc.text [
  | [] ↦ sc.found
  | c ∷ s ↦
      let rest = scan_mentions fuel max_handles (scan_step sc.prev c s sc.found) in
      if ltb (length sc.found) max_handles then rest else sc.found
]

unfoldable pub bus_extract_mentions : Bytes → ℕ → Outcome (List Mention)
unfolding scan_mentions
bus_extract_mentions message max_handles = do
  assert (ltb 0 max_handles)
  let found =
      scan_mentions (length message) max_handles
        (record { prev = none; text = message; found = [] })
  assert (leb (length found) max_handles)
  ok found

-- `sanitise_at_signs` replaces every at sign; its second loop checks that none is left.
unfoldable pub replace_at_signs : Bytes → Bytes
replace_at_signs [] = []
replace_at_signs (c ∷ s) = (if c == b'@' then b'#' else c) ∷ replace_at_signs s

unfoldable pub no_at_sign : Bytes → Bool
no_at_sign [] = true
no_at_sign (c ∷ s) = not (c == b'@') && no_at_sign s

unfoldable pub sanitise_at_signs : Bytes → Outcome Bytes
unfolding replace_at_signs no_at_sign
sanitise_at_signs content = do
  let content' = replace_at_signs content
  assert (no_at_sign content')
  ok content'

-- Whether the text begins with a character of a handle.
unfoldable pub begins_handle : Bytes → Bool
begins_handle [] = false
begins_handle (c ∷ s) = is_handle_char c

-- How many characters `escape_mentions` adds, and the text that it builds.
unfoldable pub extra_bytes : Bytes → ℕ
unfolding begins_handle
extra_bytes [] = 0
extra_bytes (c ∷ s) = (if c == b'@' && begins_handle s then 1 else 0) + extra_bytes s

unfoldable pub escape_bytes : Bytes → Bytes
unfolding begins_handle
escape_bytes [] = []
escape_bytes (c ∷ s) =
    let rest = escape_bytes s in c ∷ (if c == b'@' && begins_handle s then b'\\' ∷ rest else rest)

unfoldable pub escape_mentions : Bytes → Outcome Bytes
unfolding extra_bytes escape_bytes
escape_mentions input = do
  let out = escape_bytes input
  assert (length out == length input + extra_bytes input)
  ok out
