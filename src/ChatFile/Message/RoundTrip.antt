-- ===== src/ChatFile/Message/RoundTrip.antt =====
-- Reading a message that `chat_send` put together.
use nbs_framework.Common.{
  ℕ, ◌+◌, ◌<◌, ◌≤◌, ◌≡◌, ◌≢◌, refl, sym, ◌∙◌, ap, false, some, [], ◌∷◌, ◌++◌, append_assoc, arith,
  length, length-append, All, All-map, All-append,
}
use nbs_framework.Common.Decimal.{pos, long_max, show_nat}
use nbs_framework.Common.Decimal.RoundTrip.{All-show_nat}
use nbs_framework.Common.Decimal.Size.{show_nat-le}
use nbs_framework.Common.Outcome.{ok, abort}
use nbs_framework.Common.Text.{Bytes, is_digit, Lacks}
use nbs_framework.ChatFile.Length.{show_nat_pos}
use nbs_framework.ChatFile.Number.{safe_parse_int64-show_nat}
use nbs_framework.ChatFile.Participants.{max_handle_len, before_stop}
use nbs_framework.ChatFile.Participants.RoundTrip.{before_stop-append, before_stop-All}
use nbs_framework.ChatFile.Message.{
  is_nul, c_string, begins_with_space, behind_space, split_colon, is_pipe, behind_pipe, positive,
  epoch_value, prefix_time, parse_split, parse_wire, wire_text,
}

pub c_string-Lacks : (s : Bytes) → Lacks 0 s → c_string s ≡ s
unfolding c_string is_nul
c_string-Lacks s h = before_stop-All is_nul s (All-map (λ c n. ground arith) s h)

-- The first ": " is found behind a prefix with no colon.
split_colon-append : (p q : Bytes) → Lacks b':' p → split_colon (p ++ b':' ∷ b' ' ∷ q) ≡ some (p, q)
unfolding split_colon begins_with_space behind_space
split_colon-append [] q h = refl
split_colon-append (c ∷ p) q h = rw (split_colon-append p q h.1) (ground arith)

behind_pipe-append : (p q : Bytes) → Lacks b'|' p → behind_pipe (p ++ b'|' ∷ q) ≡ some q
unfolding behind_pipe is_pipe
behind_pipe-append [] q h = refl
behind_pipe-append (c ∷ p) q h = ground (arith, behind_pipe-append p q)

not_pipes : (s : Bytes) → Lacks b'|' s → All (λ c. is_pipe c ≡ false) s
unfolding is_pipe
not_pipes s h = All-map (λ c n. ground arith) s h

digits_Lacks : (n k : ℕ) → is_digit k ≡ false → Lacks k (show_nat n)
digits_Lacks n k h = All-show_nat (λ c. c ≢ k) n (λ c d e. cc)

epoch_value-show_nat : (n : ℕ) → n ≤ long_max → epoch_value (show_nat n) ≡ pos n
unfolding epoch_value positive
epoch_value-show_nat n h =
    let short = show_nat-le n 19 (omega arith) (omega arith) in
    rw (safe_parse_int64-show_nat n h) (ground (arith, short, show_nat_pos n))

-- The part of a message before its colon.
abbrev prefix_of : Bytes → ℕ → Bytes
prefix_of handle now = handle ++ b'|' ∷ show_nat now

prefix_time-prefix_of :
    (handle : Bytes) (now : ℕ)
    → Lacks b'|' handle
    → now ≤ long_max
    → prefix_time (prefix_of handle now) ≡ pos now
unfolding prefix_time
prefix_time-prefix_of handle now h fits =
    rw (behind_pipe-append handle (show_nat now) h, prefix_time)
      (rw
        (before_stop-All is_pipe (show_nat now)
          (not_pipes (show_nat now) (digits_Lacks now b'|' refl)))
        (epoch_value-show_nat now fits))

wire_text-prefix_of :
    (handle : Bytes) (now : ℕ) (message : Bytes)
    → wire_text handle now message ≡ prefix_of handle now ++ b':' ∷ b' ' ∷ message
unfolding wire_text
wire_text-prefix_of handle now message = sym (append_assoc handle (b'|' ∷ show_nat now) _)

-- A handle that `chat_send` can write and `chat_read` can read back.
pub record IsSender (handle : Bytes) : Type 0 where
  pub not_empty : 0 < length handle
  pub short : length handle < max_handle_len
  pub no_pipe : Lacks b'|' handle
  pub no_colon : Lacks b':' handle
  pub no_nul : Lacks 0 handle

prefix_of-Lacks :
    (handle : Bytes) (now k : ℕ)
    → Lacks k handle
    → b'|' ≢ k
    → is_digit k ≡ false
    → Lacks k (prefix_of handle now)
prefix_of-Lacks handle now k h ne d =
    All-append (λ c. c ≢ k) handle (b'|' ∷ show_nat now) h (ne, digits_Lacks now k d)

pub wire_text-Lacks :
    (handle : Bytes) (now : ℕ) (message : Bytes)
    → Lacks 0 handle
    → Lacks 0 message
    → Lacks 0 (wire_text handle now message)
wire_text-Lacks handle now message h m = rw (wire_text-prefix_of handle now message) (
    All-append (λ c. c ≢ 0) (prefix_of handle now) (b':' ∷ b' ' ∷ message)
      (prefix_of-Lacks handle now 0 h (omega arith) refl) (omega arith, (omega arith, m)))

parse_split-prefix_of :
    (handle : Bytes) (now : ℕ) (message : Bytes) (n : ℕ)
    → IsSender handle
    → now ≤ long_max
    → n ≡ length (prefix_of handle now) + 2 + length message
    → parse_split n (prefix_of handle now, message)
      ≡ ok (some (record { handle = handle; content = message; timestamp = pos now }))
unfolding parse_split
parse_split-prefix_of handle now message n v fits e =
    rw
      (
        before_stop-append is_pipe handle b'|' (show_nat now) (not_pipes handle v.no_pipe)
            (unfold is_pipe in refl),
        prefix_time-prefix_of handle now v.no_pipe fits,
      )
      (ground (arith, v.short, v.not_empty))

-- A message put together by `chat_send`, from a legal handle and a time that fits a long, is taken
-- apart by `chat_read` into the same handle, content and time, whatever the content holds but NUL.
pub parse_wire-wire_text :
    (handle : Bytes) (now : ℕ) (message : Bytes)
    → IsSender handle
    → now ≤ long_max
    → Lacks 0 message
    → parse_wire (wire_text handle now message)
      ≡ ok (some (record { handle = handle; content = message; timestamp = pos now }))
unfolding parse_wire
parse_wire-wire_text handle now message v fits clean =
    let p = prefix_of handle now in
    let whole = p ++ b':' ∷ b' ' ∷ message in
    let seen : c_string (wire_text handle now message) ≡ whole =
      c_string-Lacks (wire_text handle now message)
        (wire_text-Lacks handle now message v.no_nul clean)
      ∙ wire_text-prefix_of handle now message in
    let found : split_colon (c_string (wire_text handle now message)) ≡ some (p, message) =
      ap split_colon seen
      ∙ split_colon-append p message
          (prefix_of-Lacks handle now b':' v.no_colon (omega arith) refl) in
    let size : length (wire_text handle now message) ≡ length p + 2 + length message =
      ap length (wire_text-prefix_of handle now message)
      ∙ omega (arith, length-append p (b':' ∷ b' ' ∷ message)) in
    rw (found, parse_wire) (parse_split-prefix_of handle now message _ v fits size)

c_string-nul : (s junk : Bytes) → Lacks 0 s → c_string (s ++ 0 ∷ junk) ≡ s
unfolding c_string is_nul
c_string-nul s junk h = before_stop-append is_nul s 0 junk (All-map (λ c n. ground arith) s h) refl

-- A decoded line makes `chat_read` abort when it has a NUL behind its content, and a prefix with
-- neither a NUL nor a colon whose text before the first pipe has the length of a legal handle.
pub parse_wire_nul :
    (prefix content junk : Bytes)
    → Lacks 0 prefix
    → Lacks b':' prefix
    → Lacks 0 content
    → 0 < length (before_stop is_pipe prefix)
    → length (before_stop is_pipe prefix) < max_handle_len
    → parse_wire (prefix ++ b':' ∷ b' ' ∷ (content ++ 0 ∷ junk)) ≡ abort
unfolding parse_wire
parse_wire_nul prefix content junk pn pc cn low high =
    let line = prefix ++ b':' ∷ b' ' ∷ (content ++ 0 ∷ junk) in
    let kept = prefix ++ b':' ∷ b' ' ∷ content in
    let regroup : line ≡ kept ++ 0 ∷ junk =
      sym (append_assoc prefix (b':' ∷ b' ' ∷ content) (0 ∷ junk)) in
    let found : split_colon (c_string line) ≡ some (prefix, content) =
      ap (λ (t : Bytes). split_colon (c_string t)) regroup
      ∙ ap split_colon (
          c_string-nul kept junk (
            All-append (λ c. c ≢ 0) prefix (b':' ∷ b' ' ∷ content) pn
              (omega arith, (omega arith, cn))))
      ∙ split_colon-append prefix content pc in
    rw (found, parse_wire)
      (unfold parse_split in
        ground (
          arith,
          low,
          high,
          length-append prefix (b':' ∷ b' ' ∷ (content ++ 0 ∷ junk)),
          length-append content (0 ∷ junk),
        ))
