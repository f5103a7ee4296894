-- ===== src/Mentions/Bounds.antt =====
-- The scan for mentions ends, within its array.
use nbs_framework.Common.{
  inl, inr, ℕ, zero, suc, ◌+◌, ◌<◌, ◌≤◌, ◌≡◌, refl, Option, none, List, [], ◌∷◌, ltb, lt→ltb,
  ltb→lt, le→leb, length, arith, Bool-cases,
}
use nbs_framework.Common.Outcome.{ok}
use nbs_framework.Common.Text.{Bytes}
use nbs_framework.Mentions.{
  Mention, handle_at, behind_handle, suffix_flag, add_mention, scan_step, scan_mentions,
  bus_extract_mentions,
}

length-behind_handle : (s : Bytes) → length (behind_handle s) ≤ length s
unfolding behind_handle
length-behind_handle [] = omega arith
length-behind_handle (c ∷ s) = ground (arith, length-behind_handle s)

length-add_mention :
    (ms : List Mention) (handle : Bytes) (flag : ℕ)
    → length (add_mention ms handle flag) ≤ length ms + 1
unfolding add_mention
length-add_mention [] handle flag = omega arith
length-add_mention (m ∷ ms) handle flag = ground (arith, length-add_mention ms handle flag)

-- A round leaves less text and adds at most one mention.
scan_step_lem :
    (prev : Option ℕ) (c : ℕ) (s : Bytes) (found : List Mention)
    → (length (scan_step prev c s found).text ≤ length s)
      × (length (scan_step prev c s found).found ≤ length found + 1)
unfolding scan_step
scan_step_lem prev c s found = ground (
  arith,
  length-behind_handle s,
  length-add_mention found (handle_at s) (suffix_flag (behind_handle s)),
)

scan_mentions-nil :
    (fuel max_handles : ℕ) (prev : Option ℕ) (found : List Mention)
    → scan_mentions fuel max_handles (record { prev = prev; text = []; found = found }) ≡ found
unfolding scan_mentions
scan_mentions-nil zero max_handles prev found = refl
scan_mentions-nil (suc fuel) max_handles prev found = refl

length-scan_mentions :
    (fuel max_handles : ℕ) (prev : Option ℕ) (s : Bytes) (found : List Mention)
    → length found ≤ max_handles
    → length (scan_mentions fuel max_handles (record { prev = prev; text = s; found = found }))
      ≤ max_handles
unfolding scan_mentions
length-scan_mentions zero max_handles prev s found h = h
length-scan_mentions (suc fuel) max_handles prev [] found h = h
length-scan_mentions (suc fuel) max_handles prev (c ∷ s) found h =
    let next = scan_step prev c s found in
    let (shorter, one_more) = scan_step_lem prev c s found in
    elim (Bool-cases (ltb (length found) max_handles)) [
      | inl room ↦ rw room (
          length-scan_mentions fuel max_handles next.prev next.text next.found
            (omega (arith, ltb→lt (length found) max_handles room)))
      | inr full ↦ rw full h
    ]

-- Fuel for every character is enough.
scan_mentions_enough :
    (fuel extra max_handles : ℕ) (prev : Option ℕ) (s : Bytes) (found : List Mention)
    → length s ≤ fuel
    → scan_mentions (fuel + extra) max_handles (record { prev = prev; text = s; found = found })
      ≡ scan_mentions fuel max_handles (record { prev = prev; text = s; found = found })
unfolding scan_mentions
scan_mentions_enough zero extra max_handles prev (c ∷ s) found h = absurd (omega arith)
scan_mentions_enough zero extra max_handles prev [] found h =
    scan_mentions-nil (0 + extra) max_handles prev found
scan_mentions_enough (suc fuel) extra max_handles prev [] found h =
    scan_mentions-nil (suc fuel + extra) max_handles prev found
scan_mentions_enough (suc fuel) extra max_handles prev (c ∷ s) found h =
    let next = scan_step prev c s found in
    let (shorter, one_more) = scan_step_lem prev c s found in
    let later =
      scan_mentions_enough fuel extra max_handles next.prev next.text next.found (omega arith) in
    let fuel' : suc fuel + extra ≡ suc (fuel + extra) = omega arith in rw fuel' (rw later refl)

-- The scan of a message never aborts, finds at most as many mentions as the array holds, and more
-- rounds than the message has characters would find the same.
pub bus_extract_mentions_total :
    (s : Bytes) (max_handles extra : ℕ)
    → 0 < max_handles
    → (ms : List Mention) × (bus_extract_mentions s max_handles ≡ ok ms)
      × (length ms ≤ max_handles)
      × (scan_mentions (length s + extra) max_handles (record { prev = none; text = s; found = [] })
          ≡ ms)
unfolding bus_extract_mentions
bus_extract_mentions_total s max_handles extra some_room =
    let ms = scan_mentions (length s) max_handles (record { prev = none; text = s; found = [] }) in
    let bounded : length ms ≤ max_handles =
      length-scan_mentions (length s) max_handles none s [] (omega arith) in
    (
      ms,
      rw (lt→ltb 0 max_handles some_room) (rw (le→leb (length ms) max_handles bounded) refl),
      bounded,
      scan_mentions_enough (length s) extra max_handles none s [] (omega arith),
    )
