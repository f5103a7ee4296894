-- ===== src/ChatFile/Message.antt =====
-- The wire format of one chat message, as `chat_read` of src/nbs-chat/chat_file.c takes it apart and
-- `chat_send` puts it together: handle|EPOCH: content, with two older forms that are still read.
pub mod RoundTrip
use nbs_framework.Common.{
  ℕ, ◌+◌, ◌-◌, Bool, true, false, ◌&&◌, Option, none, some, List, [], ◌∷◌, ◌++◌, ltb, ◌==◌,
  if◌then◌else◌, length,
}
use nbs_framework.Common.Decimal.{ℤ, pos, negsuc, show_nat}
use nbs_framework.Common.Outcome.{Outcome, ok, ◌>>=◌, ◌>>◌, assert}
use nbs_framework.Common.Text.{Bytes, codes}
use nbs_framework.ChatFile.Number.{safe_parse_int64}
use nbs_framework.ChatFile.Participants.{max_handle_len, before_stop}

-- `chat_message_t`; `content_len` is the content's length, which `chat_read` asserts.
pub record Message : Type 0 where
  pub handle : Bytes
  pub content : Bytes
  pub timestamp : ℤ

unfoldable pub is_nul : ℕ → Bool
is_nul c = c == 0

-- What the string functions see of a buffer: the bytes before the first NUL.
unfoldable pub c_string : Bytes → Bytes
c_string = before_stop is_nul

unfoldable pub begins_with_space : Bytes → Bool
begins_with_space [] = false
begins_with_space (c ∷ s) = c == b' '

unfoldable pub behind_space : Bytes → Bytes
behind_space [] = []
behind_space (c ∷ s) = s

-- `strstr(decoded, ": ")`: what stands before the first one, and what stands behind it.
unfoldable pub split_colon : Bytes → Option (Bytes × Bytes)
split_colon [] = none
split_colon (c ∷ s) =
    let later : Option (Bytes × Bytes) = elim (split_colon s) [
      | none ↦ none
      | some (p, q) ↦ some (c ∷ p, q)
    ] in
    if c == b':' && begins_with_space s then some ([], behind_space s) else later

unfoldable pub is_pipe : ℕ → Bool
is_pipe c = c == b'|'

-- What stands behind the first pipe.
unfoldable pub behind_pipe : Bytes → Option Bytes
behind_pipe [] = none
behind_pipe (c ∷ s) = if is_pipe c then some s else behind_pipe s

unfoldable pub positive : ℤ → ℤ
positive (pos n) = pos n
positive (negsuc n) = pos 0

-- The time from its text: 0 where the text is no positive number.
unfoldable pub epoch_value : Bytes → ℤ
epoch_value text =
    if ltb 0 (length text) && ltb (length text) 20
    then elim (safe_parse_int64 text) [ none ↦ pos 0 | some v ↦ positive v ]
    else pos 0

-- The time of the prefix: what stands between the first pipe and the second one or the colon.
unfoldable pub prefix_time : Bytes → ℤ
prefix_time prefix = elim (behind_pipe prefix) [
  | none ↦ pos 0
  | some rest ↦ epoch_value (before_stop is_pipe rest)
]

-- A decoded line: `ok none` where `chat_read` stores no message.
unfoldable pub parse_split : ℕ → Bytes × Bytes → Outcome (Option Message)
parse_split decoded_len (prefix, content) =
    let handle = before_stop is_pipe prefix in
    let stored = do
      assert (length content == decoded_len - (length prefix + 2))
      ok (some (record { handle = handle; content = content; timestamp = prefix_time prefix }))
    in if ltb (length handle) max_handle_len && ltb 0 (length handle) then stored else ok none

unfoldable pub parse_wire : Bytes → Outcome (Option Message)
unfolding is_nul c_string begins_with_space behind_space split_colon is_pipe behind_pipe positive
    epoch_value prefix_time parse_split
parse_wire decoded = elim (split_colon (c_string decoded)) [
  | none ↦ ok none
  | some parts ↦ parse_split (length decoded) parts
]

-- `snprintf(raw, raw_len + 1, "%s|%s: %s", handle, epoch_str, message)`
unfoldable pub wire_text : Bytes → ℕ → Bytes → Bytes
wire_text handle now message = handle ++ (b'|' ∷ (show_nat now ++ (b':' ∷ b' ' ∷ message)))
