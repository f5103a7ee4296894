-- ===== src/ChatFile/Truncate/Tally.antt =====
-- What the header of a chat says of its entries, counted from them, and that `chat_truncate` of
-- src/nbs-chat/chat_file.c counts the same.
use nbs_framework.Common.{
  ℕ, ◌+◌, ◌-◌, ◌≤◌, ◌<◌, ◌≡◌, ◌⊎◌, inl, inr, refl, sym, ap, ◌∙◌, subst, true, false, List, [], ◌∷◌,
  ◌++◌, map, arith, ◌==◌, if◌then◌else◌, Bool-cases, length, length-map, length-append, All, take,
}
use nbs_framework.Common.Decimal.{pos}
use nbs_framework.Common.Distinct.{member, added, IsDistinct, IsDistinct-append}
use nbs_framework.Common.Text.{Bytes, str_eq, str_eq_iff, str_eq_sym}
use nbs_framework.ChatFile.Log.{Entry, message_of}
use nbs_framework.ChatFile.Number.{int_max}
use nbs_framework.ChatFile.Participants.{
  Participant, max_handle_len, max_participants, incr, update_entries, update_participants,
}
use nbs_framework.ChatFile.Participants.Update.{take_all}
use nbs_framework.ChatFile.Truncate.{recount}

-- The different senders of the entries, behind those of before, in the order of their first entries.
unfoldable pub senders : List Bytes → List Entry → List Bytes
senders seen [] = seen
senders seen (e ∷ es) = senders (added e.handle seen) es

-- How many entries a sender has.
abbrev pub number : Bytes → List Entry → ℕ
number handle [] = 0
number handle (e ∷ es) =
    let rest = number handle es in if str_eq handle e.handle then rest + 1 else rest

abbrev counted : (Bytes → ℕ) → List Bytes → List Participant
counted count = map (λ handle. record { handle = handle; count = pos (count handle) })

-- Every sender with the number of its entries.
abbrev pub tally : List Entry → List Participant
tally es = counted (λ handle. number handle es) (senders [] es)

counted-ext :
    (f g : Bytes → ℕ) (hs : List Bytes) → ((h : Bytes) → f h ≡ g h) → counted f hs ≡ counted g hs
counted-ext f g [] same = refl
counted-ext f g (h ∷ hs) same =
    ap (λ n. record { handle = h; count = pos n } ∷ counted f hs) (same h)
    ∙ ap (λ (ps : List Participant). record { handle = h; count = pos (g h) } ∷ ps)
        (counted-ext f g hs same)

-- One entry of a sender more.
abbrev bump : (Bytes → ℕ) → Bytes → Bytes → ℕ
bump f k h = if str_eq h k then f h + 1 else f h

counted-other :
    (f : Bytes → ℕ) (k : Bytes) (hs : List Bytes)
    → member k hs ≡ false
    → counted (bump f k) hs ≡ counted f hs
unfolding member
counted-other f k [] new = refl
counted-other f k (h ∷ hs) new = elim (Bool-cases (str_eq h k)) [
  | inl same ↦ absurd cc
  | inr differ ↦ rw differ (
      ap (λ (ps : List Participant). record { handle = h; count = pos (f h) } ∷ ps)
        (counted-other f k hs (rw differ at new)))
]

-- The count of a sender that is listed, in the list.
update_entries-counted :
    (f : Bytes → ℕ) (k : Bytes) (hs : List Bytes) (room : ℕ)
    → length k < max_handle_len
    → IsDistinct hs
    → (member k hs ≡ true) ⊎ ((f k ≡ 0) × (0 < room))
    → f k < int_max
    → update_entries (counted f hs) k room ≡ counted (bump f k) (added k hs)
unfolding update_entries incr added member
update_entries-counted f k [] room short d (inl listed) few = absurd cc
update_entries-counted f k [] room short d (inr (none_before, some_room)) few =
    let itself : str_eq k k ≡ true = (str_eq_iff k k).1 refl in
    let kept : take (max_handle_len - 1) k ≡ k = take_all (max_handle_len - 1) k (omega arith) in
    let not_full : (room == 0) ≡ false = ground arith in
    let one : 1 ≡ f k + 1 = omega (arith, none_before) in
    rw not_full (rw kept (rw itself (ap (λ n. record { handle = k; count = pos n } ∷ []) one)))
update_entries-counted f k (h ∷ hs) room short (new, d) known few = elim (Bool-cases (str_eq h k)) [
  | inl same ↦
      let here : h ≡ k = (str_eq_iff h k).0 same in
      let below : (f h == int_max) ≡ false = ground (arith, ap f here, few) in
      let others : member k hs ≡ false = subst (λ x. member x hs ≡ false) here new in
      rw same (
        rw same (
          rw below (
            ap (λ (ps : List Participant). record { handle = h; count = pos (f h + 1) } ∷ ps)
              (sym (counted-other f k hs others)))))
  | inr differ ↦
      let rest = update_entries-counted f k hs room short d (rw differ at known) few in
      elim (Bool-cases (member k hs)) [
        | inl listed ↦ rw differ (
            rw listed (
              rw differ (
                ap (λ (ps : List Participant). record { handle = h; count = pos (f h) } ∷ ps)
                  (rw listed at rest))))
        | inr fresh ↦ rw differ (
            rw fresh (
              rw differ (
                ap (λ (ps : List Participant). record { handle = h; count = pos (f h) } ∷ ps)
                  (rw fresh at rest))))
      ]
]

not_member-append :
    (h k : Bytes) (hs : List Bytes)
    → member h (hs ++ k ∷ []) ≡ false
    → (member h hs ≡ false) × (str_eq h k ≡ false)
unfolding member
not_member-append h k [] new =
    let differ : str_eq k h ≡ false = ground (arith, new) in (refl, str_eq_sym k h differ)
not_member-append h k (g ∷ hs) new = elim (Bool-cases (str_eq g h)) [
  | inl same ↦ absurd cc
  | inr other ↦
      let (out, differ) = not_member-append h k hs (rw other at new) in (rw other out, differ)
]

-- A text that is not listed after one was added was not listed before, and is not that one.
not_member-added :
    (h k : Bytes) (hs : List Bytes)
    → member h (added k hs) ≡ false
    → (member h hs ≡ false) × (str_eq h k ≡ false)
unfolding added
not_member-added h k hs new = elim (Bool-cases (member k hs)) [
  | inl listed ↦
      let out : member h hs ≡ false = rw listed at new in
      (
        out,
        elim (Bool-cases (str_eq h k)) [
          | inl same ↦
              let one : h ≡ k = (str_eq_iff h k).0 same in
              let both : true ≡ false = sym listed ∙ subst (λ x. member x hs ≡ false) one out in
              absurd cc
          | inr differ ↦ differ
        ],
      )
  | inr fresh ↦ not_member-append h k hs (rw fresh at new)
]

IsDistinct-added : (k : Bytes) (hs : List Bytes) → IsDistinct hs → IsDistinct (added k hs)
unfolding added
IsDistinct-added k hs d = elim (Bool-cases (member k hs)) [
  | inl listed ↦ rw listed d
  | inr fresh ↦ rw fresh (IsDistinct-append hs k d fresh)
]

-- Adding a sender never makes the list shorter.
length-senders : (seen : List Bytes) (es : List Entry) → length seen ≤ length (senders seen es)
unfolding senders added
length-senders seen [] = omega arith
length-senders seen (e ∷ es) = elim (Bool-cases (member e.handle seen)) [
  | inl listed ↦ rw listed (length-senders seen es)
  | inr fresh ↦
      rw fresh (
        omega
          (arith, length-senders (seen ++ e.handle ∷ []) es, length-append seen (e.handle ∷ [])))
]

-- The sender of the next entry is listed already or finds room.
room_left :
    (f : Bytes → ℕ) (seen : List Bytes) (k : Bytes) (es : List Entry)
    → ((h : Bytes) → member h seen ≡ false → f h ≡ 0)
    → length (senders (added k seen) es) ≤ max_participants
    → (member k seen ≡ true) ⊎ ((f k ≡ 0) × (0 < max_participants - length (counted f seen)))
unfolding added
room_left f seen k es zero_outside fits = elim (Bool-cases (member k seen)) [
  | inl listed ↦ inl listed
  | inr fresh ↦
      let grown : length (seen ++ k ∷ []) ≤ length (senders (seen ++ k ∷ []) es) =
        length-senders (seen ++ k ∷ []) es in
      let few : length (senders (seen ++ k ∷ []) es) ≤ max_participants = rw fresh at fits in
      inr (
        zero_outside k fresh,
        omega (
          arith,
          grown,
          few,
          length-append seen (k ∷ []),
          length-map {B = Participant}
              (λ handle. record { handle = handle; count = pos (f handle) }) seen,
        ),
      )
]

bump_outside :
    (f : Bytes → ℕ) (seen : List Bytes) (k : Bytes)
    → ((h : Bytes) → member h seen ≡ false → f h ≡ 0)
    → (h : Bytes) → member h (added k seen) ≡ false
    → bump f k h ≡ 0
bump_outside f seen k zero_outside h new =
    let (out, differ) = not_member-added h k seen new in rw differ (zero_outside h out)

recount-counted :
    (f : Bytes → ℕ) (seen : List Bytes) (es : List Entry)
    → All (λ e. length e.handle < max_handle_len) es
    → IsDistinct seen
    → ((h : Bytes) → member h seen ≡ false → f h ≡ 0)
    → ((h : Bytes) → f h + length es ≤ int_max)
    → length (senders seen es) ≤ max_participants
    → recount (counted f seen) (map message_of es)
      ≡ counted (λ h. f h + number h es) (senders seen es)
unfolding recount senders update_participants
recount-counted f seen [] short d zero_outside few fits =
    counted-ext f (λ h. f h + 0) seen (λ h. omega arith)
recount-counted f seen (e ∷ es) (s, short) d zero_outside few fits =
    let k = e.handle in
    let here =
      update_entries-counted f k seen (max_participants - length (counted f seen)) s d
        (room_left f seen k es zero_outside fits) (omega (arith, few k)) in
    let rest =
      recount-counted (bump f k) (added k seen) es short (IsDistinct-added k seen d)
        (bump_outside f seen k zero_outside) (λ h. ground (arith, few h)) fits in
    ap (λ ps. recount ps (map message_of es)) here
    ∙ rest
    ∙ counted-ext (λ h. bump f k h + number h es) (λ h. f h + number h (e ∷ es))
        (senders (added k seen) es) (λ h. ground arith)

-- Counting the messages again makes the tally of the entries, where their senders find room.
pub recount-tally :
    (es : List Entry)
    → All (λ e. length e.handle < max_handle_len) es
    → length es ≤ int_max
    → length (senders [] es) ≤ max_participants
    → recount [] (map message_of es) ≡ tally es
recount-tally es short few fits =
    recount-counted (λ h. 0) [] es short tt (λ h new. refl) (λ h. omega (arith, few)) fits
    ∙ counted-ext (λ h. 0 + number h es) (λ h. number h es) (senders [] es) (λ h. omega arith)
