-- ===== src/ChatFile/Log/Lines.antt =====
-- What the two loops over a chat file do at each kind of line that a log's file has.
use nbs_framework.Base64.{is_valid_char, all_valid, encode_groups, decoded_size, decode, int_max}
use nbs_framework.Base64.Encode.{length-encode_groups, all_valid-encode_groups}
use nbs_framework.Base64.RoundTrip.{decode-encode_groups}
use nbs_framework.Common.{
  ℕ, ◌+◌, ◌-◌, ◌*◌, ◌/◌, ◌%◌, ◌<◌, ◌≤◌, ◌≡◌, ◌≢◌, ap, true, false, [], ◌∷◌, ◌++◌, arith, length,
  length-append, Bool-cases, inl, inr,
}
use nbs_framework.Common.Decimal.{show_nat}
use nbs_framework.Common.Outcome.{ok}
use nbs_framework.Common.Text.{Bytes, str_eq, str_eq_iff}
use nbs_framework.ChatFile.File.{
  ChatState, Reader, Collector, marker, delimiter, all_spaces, read_body, read_line, read_decoded,
  store, collect_line, max_messages,
}
use nbs_framework.ChatFile.Lines.{IsPlain, max_message_len}
use nbs_framework.ChatFile.Log.{Entry, IsLegal, message_of, wire_of, line_of}
use nbs_framework.ChatFile.Message.{wire_text}
use nbs_framework.ChatFile.Message.RoundTrip.{parse_wire-wire_text}

valid_not_special : (c : ℕ) → is_valid_char c ≡ true → (c ≢ 0) × (c ≢ b'\n') × (c ≢ b'\r')
unfolding is_valid_char
valid_not_special c h = (λ e. ground arith, λ e. ground arith, λ e. ground arith)

-- A line of base64 text is plain, and is neither the marker nor the delimiter nor blank.
pub all_valid-IsPlain : (s : Bytes) → all_valid s ≡ true → IsPlain s
unfolding all_valid
all_valid-IsPlain [] h = tt
all_valid-IsPlain (c ∷ s) h =
    (valid_not_special c (ground arith), all_valid-IsPlain s (ground arith))

pub all_valid_not_marker : (s : Bytes) → all_valid s ≡ true → str_eq s marker ≡ false
unfolding all_valid is_valid_char
all_valid_not_marker s h = elim (Bool-cases (str_eq s marker)) [
  | inl e ↦ absurd (cc (ap all_valid ((str_eq_iff s marker).0 e)))
  | inr e ↦ e
]

pub all_valid_not_delimiter : (s : Bytes) → all_valid s ≡ true → str_eq s delimiter ≡ false
unfolding all_valid is_valid_char
all_valid_not_delimiter s h = elim (Bool-cases (str_eq s delimiter)) [
  | inl e ↦ absurd (cc (ap all_valid ((str_eq_iff s delimiter).0 e)))
  | inr e ↦ e
]

pub all_valid_not_spaces : (s : Bytes) → all_valid s ≡ true → 0 < length s → all_spaces s ≡ false
unfolding all_valid all_spaces is_valid_char
all_valid_not_spaces [] h lt = elim lt [ ]
all_valid_not_spaces (c ∷ s) h lt = ground arith

-- The wire text of a legal entry is not empty.
pub wire_pos : (e : Entry) → 0 < length (wire_of e)
unfolding wire_text
wire_pos e =
    omega (arith, length-append e.handle (b'|' ∷ (show_nat e.time ++ (b':' ∷ b' ' ∷ e.content))))

-- The size that `chat_read` gives the decoder.
decoded_size_lem :
    (xs : Bytes)
    → length xs ≤ int_max
    → decoded_size (length (encode_groups xs)) ≡ ok (length (encode_groups xs) / 4 * 3 + 3)
unfolding decoded_size
decoded_size_lem xs h = ground (arith, length-encode_groups xs)

read_decoded-line_of :
    (st : ChatState) (e : Entry) (size : ℕ)
    → IsLegal e
    → length (wire_of e) ≤ size
    → 0 < size
    → read_decoded st (decode (line_of e) size)
      ≡ ok (record st { messages = st.messages ++ message_of e ∷ [] })
read_decoded-line_of st e size v room some_room =
    let decoded =
      decode-encode_groups (wire_of e) size v.bytes (omega (arith, v.fits)) room some_room in
    let parsed = parse_wire-wire_text e.handle e.time e.content v.sender v.in_time v.clean in
    rw decoded (unfold read_decoded store in rw parsed)

-- A legal entry's line adds its message.
pub read_body-line_of :
    (st : ChatState) (e : Entry)
    → IsLegal e
    → read_body st (line_of e) ≡ ok (record st { messages = st.messages ++ message_of e ∷ [] })
unfolding read_body
read_body-line_of st e v =
    let size = length-encode_groups (wire_of e) in
    let some_line : 0 < length (line_of e) = omega (arith, size, wire_pos e) in
    let whole : length (line_of e) % 4 ≡ 0 = omega (arith, size) in
    rw
      (
        all_valid_not_spaces (line_of e) (all_valid-encode_groups (wire_of e)) some_line,
        decoded_size_lem (wire_of e) (omega (arith, v.fits)),
        read_decoded-line_of st e (length (line_of e) / 4 * 3 + 3) v (omega (arith, size))
            (omega arith),
      )
      (ground (arith, whole))

-- The body of the reading loop at such a line.
pub read_line-line_of :
    (r : Reader) (e : Entry)
    → IsLegal e
    → r.in_header ≡ false
    → r.past_header ≡ true
    → length r.state.messages < max_messages
    → read_line r (line_of e)
      ≡ ok (record r {
        state = record (r.state) { messages = r.state.messages ++ message_of e ∷ [] };
      })
unfolding read_line
read_line-line_of r e v hi hp few =
    let some_line : 0 < length (line_of e) =
      omega (arith, length-encode_groups (wire_of e), wire_pos e) in
    rw
      (
        all_valid_not_marker (line_of e) (all_valid-encode_groups (wire_of e)),
        read_body-line_of r.state e v,
      )
      (ground arith)

-- The body of the collecting loop at such a line.
pub collect_line-line_of :
    (k : Collector) (e : Entry)
    → k.past_delim ≡ true
    → length k.encoded_lines < max_messages
    → collect_line k (line_of e)
      ≡ ok (record k { encoded_lines = k.encoded_lines ++ line_of e ∷ [] })
unfolding collect_line
collect_line-line_of k e hp few =
    let some_line : 0 < length (line_of e) =
      omega (arith, length-encode_groups (wire_of e), wire_pos e) in
    rw (all_valid_not_spaces (line_of e) (all_valid-encode_groups (wire_of e)) some_line)
      (ground arith)

-- A legal entry's line fits the buffer.
pub length-line_of : (e : Entry) → IsLegal e → length (line_of e) < max_message_len - 1
length-line_of e v = omega (arith, length-encode_groups (wire_of e), v.fits)

pub line_of-IsPlain : (e : Entry) → IsPlain (line_of e)
line_of-IsPlain e = all_valid-IsPlain (line_of e) (all_valid-encode_groups (wire_of e))
