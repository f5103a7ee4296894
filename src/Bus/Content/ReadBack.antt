-- ===== src/Bus/Content/ReadBack.antt =====
-- The fields of an event are read from the text that `bus_publish` writes, whatever the payload.
use nbs_framework.Common.{
  ℕ, zero, suc, ◌+◌, ◌≤◌, ◌<◌, ◌≡◌, refl, sym, ◌∙◌, ◌≢◌, none, some, List, [], ◌∷◌, ◌++◌,
  append_assoc, arith, length, length-append, All-append, All-map,
}
use nbs_framework.Common.Outcome.{ok_inj, ok}
use nbs_framework.Common.Text.{Bytes, codes, Lacks, str_eq}
use nbs_framework.ChatFile.File.{strip_prefix}
use nbs_framework.ChatFile.Lines.{fgets_lines, fgets_lines-line}
use nbs_framework.ChatFile.Participants.RoundTrip.{before_stop-append}
use nbs_framework.ChatFile.Participants.Update.{take_all}
use nbs_framework.Bus.Priority.{bus_priority_from_str, bus_priority_to_str, find_name}
use nbs_framework.Bus.Content.{
  is_newline, field_value, no_fields, is_found, all_found, new_field, priority_or_normal, read_type,
  read_source, read_field_line, read_field_lines, complete, read_event_fields, field_line,
  event_text,
}

-- A word that is written into a field: no line end in it, and short enough for the buffers.
pub record IsWord (w : Bytes) : Type 0 where
  pub one_line : Lacks b'\n' w
  pub not_empty : 0 < length w
  pub short : length w < 128

pub field_value-line : (v : Bytes) → Lacks b'\n' v → field_value (v ++ b'\n' ∷ []) ≡ v
unfolding field_value is_newline
field_value-line v h =
    before_stop-append is_newline v b'\n' [] (All-map (λ c n. ground arith) v h) refl

-- The lines of a text that begins with a field.
fgets_lines-field_line :
    (label value rest : Bytes)
    → Lacks b'\n' label
    → Lacks b'\n' value
    → length label + length value < 511
    → fgets_lines 511 (field_line label value ++ rest) []
      ≡ field_line label value ∷ fgets_lines 511 rest []
unfolding field_line
fgets_lines-field_line label value rest hl hv short =
    let line = label ++ value in
    let regroup : label ++ (value ++ b'\n' ∷ []) ≡ line ++ b'\n' ∷ [] =
      sym (append_assoc label value (b'\n' ∷ [])) in
    rw regroup (
      rw (append_assoc line (b'\n' ∷ []) rest) (
        fgets_lines-line 511 line rest [] (All-append (λ c. c ≢ b'\n') label value hl hv)
          (omega (arith, length-append label value))))

-- A priority is printed as a word, and the word is read as that priority.
pub bus_priority_from_str-bus_priority_to_str :
    (p : ℕ)
    → p ≤ 3
    → (name : Bytes) × (bus_priority_to_str p ≡ ok name)
      × (bus_priority_from_str name ≡ some p)
      × IsWord name
unfolding bus_priority_to_str bus_priority_from_str find_name str_eq
bus_priority_from_str-bus_priority_to_str zero h = (
  codes "critical",
  refl,
  refl,
  record { one_line = omega arith; not_empty = omega arith; short = omega arith },
)
bus_priority_from_str-bus_priority_to_str (suc zero) h = (
  codes "high",
  refl,
  refl,
  record { one_line = omega arith; not_empty = omega arith; short = omega arith },
)
bus_priority_from_str-bus_priority_to_str (suc (suc zero)) h = (
  codes "normal",
  refl,
  refl,
  record { one_line = omega arith; not_empty = omega arith; short = omega arith },
)
bus_priority_from_str-bus_priority_to_str (suc (suc (suc zero))) h = (
  codes "low",
  refl,
  refl,
  record { one_line = omega arith; not_empty = omega arith; short = omega arith },
)
bus_priority_from_str-bus_priority_to_str (suc (suc (suc (suc p)))) h = absurd (omega arith)

read_source_line :
    (v : Bytes)
    → IsWord v
    → read_field_line no_fields (field_line (codes "source: ") v)
      ≡ record no_fields { source = some v }
unfolding read_field_line read_source new_field strip_prefix field_line
read_source_line v w =
    rw (field_value-line v w.one_line) (rw (take_all 127 v (omega (arith, w.short))) refl)

read_type_line :
    (s v : Bytes)
    → IsWord v
    → read_field_line (record no_fields { source = some s }) (field_line (codes "type: ") v)
      ≡ record { priority = none; source = some s; type_name = some v }
unfolding read_field_line read_source read_type new_field strip_prefix field_line
read_type_line s v w =
    rw (field_value-line v w.one_line) (rw (take_all 127 v (omega (arith, w.short))) refl)

read_priority_line :
    (s t v : Bytes) (p : ℕ)
    → IsWord v
    → bus_priority_from_str v ≡ some p
    → read_field_line
        (record { priority = none; source = some s; type_name = some t })
        (field_line (codes "priority: ") v)
      ≡ record { priority = some p; source = some s; type_name = some t }
unfolding read_field_line new_field strip_prefix field_line priority_or_normal
read_priority_line s t v p w h =
    let value : priority_or_normal v ≡ p = ground (arith, h) in
    rw (field_value-line v w.one_line) (rw value refl)

read_field_lines-done :
    (p : ℕ) (s t : Bytes) (lines : List Bytes)
    → read_field_lines (record { priority = some p; source = some s; type_name = some t }) lines
      ≡ record { priority = some p; source = some s; type_name = some t }
unfolding read_field_lines all_found is_found
read_field_lines-done p s t [] = refl
read_field_lines-done p s t (line ∷ lines) = refl

-- Where source and type are not empty, stand on one line each and are shorter than 128 bytes, and
-- the priority is at most 3, the text of the event is read back into that source, type and
-- priority, whatever its time and payload hold.
pub read_event_fields-event_text :
    (source type_name name iso_time payload : Bytes) (p : ℕ)
    → IsWord source
    → IsWord type_name
    → p ≤ 3
    → bus_priority_to_str p ≡ ok name
    → read_event_fields (event_text source type_name name iso_time payload)
      ≡ ok (p, source, type_name)
unfolding read_event_fields event_text
read_event_fields-event_text source type_name name iso_time payload p ws wt small printed =
    let (name', printed', parsed', wn') = bus_priority_from_str-bus_priority_to_str p small in
    let same : name' ≡ name = ok_inj (sym printed' ∙ printed) in
    let parsed : bus_priority_from_str name ≡ some p = rw same at parsed' in
    let wn : IsWord name = rw same at wn' in
    rw
      (fgets_lines-field_line (codes "source: ") source _ (omega arith) ws.one_line
        (omega (arith, ws.short)))
      (rw
        (fgets_lines-field_line (codes "type: ") type_name _ (omega arith) wt.one_line
          (omega (arith, wt.short)))
        (rw
          (fgets_lines-field_line (codes "priority: ") name _ (omega arith) wn.one_line
            (omega (arith, wn.short)))
          (unfold read_field_lines all_found is_found in
            rw (read_source_line source ws) (
              rw (read_type_line source type_name wt) (
                rw (read_priority_line source type_name name p wn parsed)
                  (rw (read_field_lines-done p source type_name _) (unfold complete in refl)))))))
