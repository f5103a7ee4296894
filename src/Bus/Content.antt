-- ===== src/Bus/Content.antt =====
-- The text of an event file, as it is written and as its fields are read.
pub mod ReadBack
pub mod Key
use nbs_framework.Common.{
  ℕ, zero, suc, ◌+◌, ◌-◌, ◌*◌, ◌/◌, ◌%◌, ◌^◌, ◌≤◌, ◌<◌, min, ◌≡◌, refl, sym, ap, ◌∙◌, subst, ◌≢◌,
  ◌↔◌, ◌⊎◌, inl, inr, Bool, true, false, not, ◌&&◌, ◌||◌, Option, none, some, List, [], ◌∷◌, ◌++◌,
  map, append-nil, append_assoc, arith, ltb, leb, ◌==◌, if◌then◌else◌, within, ltb→lt, lt→ltb,
  leb→le, le→leb, ==_iff, Bool-cases, Option-cases, length, get_or, take, drop, length-append,
  length-take, length-drop, take-append-drop, take-length, map-take, map-drop, length-map, All,
  All-append, All-append_left, All-append_right, All-map,
}
use nbs_framework.Common.Outcome.{Outcome, ok, fail, abort, ◌>>=◌, ◌>>◌, assert, require}
use nbs_framework.Common.Text.{
  Bytes, codes, IsByte, Lacks, is_digit, is_alnum, is_space, str_eq, str_eq_iff,
}
use nbs_framework.ChatFile.File.{strip_prefix}
use nbs_framework.ChatFile.Lines.{fgets_lines}
use nbs_framework.ChatFile.Participants.{before_stop}
use nbs_framework.Bus.{bus_max_handle, bus_max_type}
use nbs_framework.Bus.Priority.{bus_priority_normal, bus_priority_from_str}

unfoldable pub is_newline : ℕ → Bool
is_newline c = c == b'\n'

-- A field's value: the rest of the line without its end.
unfoldable pub field_value : Bytes → Bytes
field_value = before_stop is_newline

-- What `read_event_fields` has found so far.
pub record Fields : Type 0 where
  pub priority : Option ℕ
  pub source : Option Bytes
  pub type_name : Option Bytes

abbrev pub no_fields : Fields
no_fields = record { priority = none; source = none; type_name = none }

unfoldable pub is_found {ℓ} : {A : Type ℓ} → Option A → Bool
is_found none = false
is_found (some a) = true

unfoldable pub all_found : Fields → Bool
unfolding is_found
all_found f = is_found f.priority && is_found f.source && is_found f.type_name

-- The value of a field that is not found yet.
unfoldable pub new_field {ℓ} : {A : Type ℓ} → Option A → Bytes → Bytes → Option Bytes
new_field (some a) prefix line = none
new_field none prefix line = elim (strip_prefix prefix line) [
  | some rest ↦ some (field_value rest)
  | none ↦ none
]

-- A priority with no such name is read as normal.
unfoldable pub priority_or_normal : Bytes → ℕ
priority_or_normal name = elim (bus_priority_from_str name) [
  | some p ↦ p
  | none ↦ bus_priority_normal
]

unfoldable pub read_type : Fields → Bytes → Fields
read_type f line = elim (new_field f.type_name (codes "type: ") line) [
  | some v ↦ record f { type_name = some (take (bus_max_type - 1) v) }
  | none ↦ f
]

unfoldable pub read_source : Fields → Bytes → Fields
read_source f line = elim (new_field f.source (codes "source: ") line) [
  | some v ↦ record f { source = some (take (bus_max_handle - 1) v) }
  | none ↦ read_type f line
]

unfoldable pub read_field_line : Fields → Bytes → Fields
read_field_line f line = elim (new_field f.priority (codes "priority: ") line) [
  | some v ↦ record f { priority = some (priority_or_normal v) }
  | none ↦ read_source f line
]

-- The loop over the lines, until all fields are found.
unfoldable pub read_field_lines : Fields → List Bytes → Fields
read_field_lines f [] = f
read_field_lines f (line ∷ lines) =
    if all_found f then f else read_field_lines (read_field_line f line) lines

-- Priority, source and type, each the first of its kind; -1 where one is missing.
unfoldable pub complete : Option ℕ → Option Bytes → Option Bytes → Outcome (ℕ × Bytes × Bytes)
complete (some p) (some s) (some t) = ok (p, s, t)
complete _ _ _ = fail 1

unfoldable pub read_event_fields : Bytes → Outcome (ℕ × Bytes × Bytes)
unfolding read_field_lines read_field_line read_source read_type priority_or_normal new_field
    all_found complete
read_event_fields content =
    let f = read_field_lines no_fields (fgets_lines 511 content []) in
    complete f.priority f.source f.type_name

-- The lines that fit the buffer of `read_event_dedup_key`; of a longer line nothing is looked at.
unfoldable pub short_lines : Bool → Bytes → Bytes → List Bytes
short_lines true [] cur = []
short_lines true (c ∷ s) cur = elim (is_newline c) [
  | true ↦ short_lines false s []
  | false ↦ short_lines true s []
]
short_lines false [] cur = if length cur == 0 then [] else cur ∷ []
short_lines false (c ∷ s) cur =
    let piece = cur ++ c ∷ [] in
    elim (is_newline c) [
      | true ↦ piece ∷ short_lines false s []
      | false ↦ elim (length piece == 511) [
        | true ↦ short_lines true s []
        | false ↦ short_lines false s piece
      ]
    ]

unfoldable pub find_dedup_key : List Bytes → Option Bytes
find_dedup_key [] = none
find_dedup_key (line ∷ lines) =
    let rest = find_dedup_key lines in
    elim (strip_prefix (codes "dedup-key: ") line) [ some v ↦ some (field_value v) | none ↦ rest ]

-- The key, cut to the caller's buffer; `none` where no line has one.
unfoldable pub read_event_dedup_key : Bytes → ℕ → Option Bytes
unfolding short_lines find_dedup_key
read_event_dedup_key content key_len = elim (find_dedup_key (short_lines false content [])) [
  | some key ↦ some (take (key_len - 1) key)
  | none ↦ none
]

unfoldable pub field_line : Bytes → Bytes → Bytes
field_line label value = label ++ (value ++ b'\n' ∷ [])

-- The payload line by line, each indented by two spaces; the last one gets its end.
unfoldable pub indent_rest : Bytes → Bytes
indent_rest [] = b'\n' ∷ []
indent_rest (c ∷ []) = if c == b'\n' then c ∷ [] else c ∷ b'\n' ∷ []
indent_rest (c ∷ d ∷ s) =
    let rest = indent_rest (d ∷ s) in if c == b'\n' then c ∷ b' ' ∷ b' ' ∷ rest else c ∷ rest

unfoldable pub payload_text : Bytes → Bytes
unfolding indent_rest
payload_text [] = []
payload_text (c ∷ s) = codes "payload: |\n" ++ (b' ' ∷ b' ' ∷ indent_rest (c ∷ s))

unfoldable pub dedup_key : Bytes → Bytes → Bytes
dedup_key source type_name = source ++ b':' ∷ type_name

-- What `bus_publish` writes; `iso_time` is the clock's text.
unfoldable pub event_text : Bytes → Bytes → Bytes → Bytes → Bytes → Bytes
unfolding field_line payload_text dedup_key
event_text source type_name priority iso_time payload =
    field_line (codes "source: ") source
    ++ (field_line (codes "type: ") type_name
        ++ (field_line (codes "priority: ") priority
            ++ (field_line (codes "timestamp: ") iso_time
                ++ (field_line (codes "dedup-key: ") (dedup_key source type_name)
                    ++ payload_text payload))))
