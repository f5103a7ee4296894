-- ===== src/Common/Distinct.antt =====
-- Texts listed without repetition, in the order in which they came.
use nbs_framework.Common.{
  ◌≡◌, refl, inl, inr, Bool, false, ◌||◌, List, [], ◌∷◌, ◌++◌, arith, if◌then◌else◌, Bool-cases,
}
use nbs_framework.Common.Text.{Bytes, str_eq, str_eq_sym}

unfoldable pub member : Bytes → List Bytes → Bool
member entry [] = false
member entry (e ∷ es) = str_eq e entry || member entry es

-- The entry at the end, where it is new.
unfoldable pub added : Bytes → List Bytes → List Bytes
added entry es = if member entry es then es else es ++ entry ∷ []

-- No entry stands twice.
abbrev pub IsDistinct : List Bytes → Type 0
IsDistinct [] = Unit
IsDistinct (e ∷ es) = (member e es ≡ false) × IsDistinct es

pub member-append :
    (entry : Bytes) (es : List Bytes) (e : Bytes)
    → member entry es ≡ false
    → str_eq e entry ≡ false
    → member entry (es ++ e ∷ []) ≡ false
unfolding member
member-append entry [] e h differ = rw differ refl
member-append entry (d ∷ es) e h differ =
    let rest = member-append entry es e in ground (arith, rest, h, differ)

pub IsDistinct-append :
    (es : List Bytes) (entry : Bytes)
    → IsDistinct es
    → member entry es ≡ false
    → IsDistinct (es ++ entry ∷ [])
unfolding member
IsDistinct-append [] entry d new = (refl, tt)
IsDistinct-append (e ∷ es) entry (first, d) new = elim (Bool-cases (str_eq e entry)) [
  | inl same ↦ absurd cc
  | inr differ ↦ (
    member-append e es entry first (str_eq_sym e entry differ),
    IsDistinct-append es entry d (rw differ at new),
  )
]
