-- ===== src/Bus/Priority.antt =====
-- The priorities of src/nbs-bus/bus.c, by name and by number.
use nbs_framework.Common.{
  ℕ, ◌+◌, Option, none, some, List, [], ◌∷◌, ltb, if◌then◌else◌, length, get_or,
}
use nbs_framework.Common.Outcome.{Outcome, ok, ◌>>◌, assert}
use nbs_framework.Common.Text.{Bytes, codes, str_eq}

abbrev pub bus_priority_normal : ℕ
bus_priority_normal = 2

abbrev pub priority_names : List Bytes
priority_names = codes "critical" ∷ codes "high" ∷ codes "normal" ∷ codes "low" ∷ []

-- The loop over the names from the index `i` on.
unfoldable pub find_name : Bytes → ℕ → List Bytes → Option ℕ
find_name s i [] = none
find_name s i (n ∷ names) =
    let rest = find_name s (i + 1) names in if str_eq s n then some i else rest

unfoldable pub bus_priority_from_str : Bytes → Option ℕ
unfolding find_name
bus_priority_from_str s = find_name s 0 priority_names

unfoldable pub bus_priority_to_str : ℕ → Outcome Bytes
bus_priority_to_str p = do assert (ltb p (length priority_names)); ok (get_or priority_names p [])
