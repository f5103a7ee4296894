-- ===== src/ChatFile/Participants/Update.antt =====
-- Counting a message: `update_participants` adds one to the sender's count and changes no other.
use nbs_framework.Common.{
  ℕ, zero, suc, ◌+◌, ◌-◌, ◌<◌, ◌≤◌, ◌≡◌, ◌⊎◌, inl, inr, refl, Bool, true, false, List, [], ◌∷◌,
  arith, ltb, ◌==◌, if◌then◌else◌, length, take, ap, ◌∙◌, ◌≢◌, Bool-cases, ==_iff, subst,
}
use nbs_framework.Common.Decimal.{ℤ, pos, negsuc}
use nbs_framework.Common.Text.{Bytes, str_eq, str_eq_iff}
use nbs_framework.ChatFile.Number.{int_max}
use nbs_framework.ChatFile.Participants.{
  Participant, max_handle_len, incr, update_entries, update_participants,
}

-- How many messages the list counts for `handle`: its first entry's count, or 0.
abbrev pub count_of : List Participant → Bytes → ℤ
count_of [] handle = pos 0
count_of (p ∷ ps) handle = if str_eq p.handle handle then p.count else count_of ps handle

abbrev pub is_listed : List Participant → Bytes → Bool
is_listed [] handle = false
is_listed (p ∷ ps) handle = if str_eq p.handle handle then true else is_listed ps handle

pub take_all : (n : ℕ) (s : Bytes) → length s ≤ n → take n s ≡ s
take_all zero [] h = refl
take_all zero (c ∷ s) h = absurd (omega arith)
take_all (suc n) [] h = refl
take_all (suc n) (c ∷ s) h = ap (◌∷◌ c) (take_all n s (omega arith))

count_of-update_entries :
    (ps : List Participant) (handle k : Bytes) (room : ℕ)
    → length handle < max_handle_len
    → (is_listed ps handle ≡ true) ⊎ (0 < room)
    → count_of (update_entries ps handle room) k
      ≡ (if str_eq handle k then incr (count_of ps k) else count_of ps k)
unfolding update_entries incr
count_of-update_entries [] handle k room short h =
    let kept = take_all (max_handle_len - 1) handle (omega arith) in ground (arith, kept)
count_of-update_entries (p ∷ ps) handle k room short h = ground (
  arith,
  count_of-update_entries ps handle k room short,
  str_eq_iff p.handle handle,
  str_eq_iff p.handle k,
  str_eq_iff handle k,
)

-- The next integer.
abbrev pub plus_one : ℤ → ℤ
plus_one (pos n) = pos (suc n)
plus_one (negsuc zero) = pos 0
plus_one (negsuc (suc n)) = negsuc n

incr-plus_one : (c : ℤ) → c ≢ pos int_max → incr c ≡ plus_one c
unfolding incr
incr-plus_one (pos n) small = elim (Bool-cases (n == int_max)) [
  | inl top ↦ absurd (small (ap pos ((==_iff n int_max).0 top)))
  | inr below ↦ rw below (ap pos (omega arith))
]
incr-plus_one (negsuc zero) small = refl
incr-plus_one (negsuc (suc n)) small = refl

plus_one_if :
    (ps : List Participant) (handle k : Bytes)
    → count_of ps handle ≢ pos int_max
    → (if str_eq handle k then incr (count_of ps k) else count_of ps k)
      ≡ (if str_eq handle k then plus_one (count_of ps k) else count_of ps k)
plus_one_if ps handle k small = elim (Bool-cases (str_eq handle k)) [
  | inl same ↦
      let one : handle ≡ k = (str_eq_iff handle k).0 same in
      let small' : count_of ps k ≢ pos int_max =
        subst (λ h. count_of ps h ≢ pos int_max) one small in
      rw same (incr-plus_one (count_of ps k) small')
  | inr differ ↦ rw differ refl
]

-- For a sender with a handle of legal length, listed already or with room for one more entry, and
-- with a count that is not INT_MAX, counting a message adds one to the sender's count and leaves
-- the count of every other handle.
pub count_of-update_participants :
    (ps : List Participant) (handle k : Bytes) (max_parts : ℕ)
    → length handle < max_handle_len
    → (is_listed ps handle ≡ true) ⊎ (length ps < max_parts)
    → count_of ps handle ≢ pos int_max
    → count_of (update_participants ps handle max_parts) k
      ≡ (if str_eq handle k then plus_one (count_of ps k) else count_of ps k)
unfolding update_participants
count_of-update_participants ps handle k max_parts short (inl listed) small =
    count_of-update_entries ps handle k (max_parts - length ps) short (inl listed)
    ∙ plus_one_if ps handle k small
count_of-update_participants ps handle k max_parts short (inr room) small =
    count_of-update_entries ps handle k (max_parts - length ps) short (inr (omega arith))
    ∙ plus_one_if ps handle k small

length-update_entries :
    (ps : List Participant) (handle : Bytes) (room : ℕ)
    → length (update_entries ps handle room)
      ≡ length ps + (if is_listed ps handle then 0 else if room == 0 then 0 else 1)
unfolding update_entries
length-update_entries [] handle room = ground arith
length-update_entries (p ∷ ps) handle room = ground (arith, length-update_entries ps handle room)

-- The list grows by one entry exactly when the sender is not listed and there is room, so it never
-- grows past the limit.
pub length-update_participants :
    (ps : List Participant) (handle : Bytes) (max_parts : ℕ)
    → length (update_participants ps handle max_parts)
      ≡ length ps + (if is_listed ps handle then 0 else if ltb (length ps) max_parts then 1 else 0)
unfolding update_participants
length-update_participants ps handle max_parts =
    ground (arith, length-update_entries ps handle (max_parts - length ps))
