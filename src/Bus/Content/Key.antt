-- ===== src/Bus/Content/Key.antt =====
-- The dedup key is read from the text that `bus_publish` writes, whatever the payload.
use nbs_framework.Common.{
  ℕ, ◌+◌, ◌-◌, ◌<◌, ◌≡◌, refl, sym, ◌∙◌, ◌≢◌, false, none, some, List, [], ◌∷◌, ◌++◌, append_assoc,
  arith, length, length-append, All-append,
}
use nbs_framework.Common.Text.{Bytes, codes, Lacks}
use nbs_framework.ChatFile.File.{strip_prefix}
use nbs_framework.ChatFile.Participants.Update.{take_all}
use nbs_framework.Bus.Content.{
  is_newline, short_lines, find_dedup_key, read_event_dedup_key, field_line, payload_text,
  dedup_key, event_text,
}
use nbs_framework.Bus.Content.ReadBack.{IsWord, field_value-line}

short_lines-line :
    (l rest cur : Bytes)
    → Lacks b'\n' l
    → length cur + length l < 511
    → short_lines false (l ++ b'\n' ∷ rest) cur
      ≡ (cur ++ (l ++ b'\n' ∷ [])) ∷ short_lines false rest []
unfolding short_lines is_newline
short_lines-line [] rest cur h lt = refl
short_lines-line (c ∷ l) rest cur h lt =
    let grown = length-append cur (c ∷ []) in
    let later = short_lines-line l rest (cur ++ c ∷ []) h.1 (omega (arith, grown)) in
    let regroup = append_assoc cur (c ∷ []) (l ++ b'\n' ∷ []) in
    ground (arith, grown, later, regroup)

short_lines-field_line :
    (label value rest : Bytes)
    → Lacks b'\n' label
    → Lacks b'\n' value
    → length label + length value < 511
    → short_lines false (field_line label value ++ rest) []
      ≡ field_line label value ∷ short_lines false rest []
unfolding field_line
short_lines-field_line label value rest hl hv short =
    let line = label ++ value in
    let regroup : label ++ (value ++ b'\n' ∷ []) ≡ line ++ b'\n' ∷ [] =
      sym (append_assoc label value (b'\n' ∷ [])) in
    rw regroup (
      rw (append_assoc line (b'\n' ∷ []) rest) (
        short_lines-line line rest [] (All-append (λ c. c ≢ b'\n') label value hl hv)
          (omega (arith, length-append label value))))

find_dedup_key-other :
    (label value : Bytes) (lines : List Bytes)
    → strip_prefix (codes "dedup-key: ") (field_line label value) ≡ none
    → find_dedup_key (field_line label value ∷ lines) ≡ find_dedup_key lines
unfolding find_dedup_key
find_dedup_key-other label value lines h = ground (arith, h)

find_dedup_key-here :
    (value : Bytes) (lines : List Bytes)
    → Lacks b'\n' value
    → find_dedup_key (field_line (codes "dedup-key: ") value ∷ lines) ≡ some value
unfolding find_dedup_key field_line strip_prefix
find_dedup_key-here value lines h = rw (field_value-line value h) refl

-- Where source, type and the priority's name are not empty, stand on one line each and are shorter
-- than 128 bytes, the time stands on one line and is shorter than 128 bytes, and the key fits the
-- caller's buffer, the key that is read from the text of the event is its source and type, whatever
-- its payload holds.
pub read_event_dedup_key-event_text :
    (source type_name name iso_time payload : Bytes) (key_len : ℕ)
    → IsWord source
    → IsWord type_name
    → IsWord name
    → Lacks b'\n' iso_time
    → length iso_time < 128
    → length (dedup_key source type_name) < key_len
    → read_event_dedup_key (event_text source type_name name iso_time payload) key_len
      ≡ some (dedup_key source type_name)
unfolding read_event_dedup_key event_text
read_event_dedup_key-event_text source type_name name iso_time payload key_len ws wt wn clean short
      room =
    let key = dedup_key source type_name in
    let one_line : Lacks b'\n' key =
      unfold dedup_key in
      All-append (λ c. c ≢ b'\n') source (b':' ∷ type_name) ws.one_line
        (omega arith, wt.one_line) in
    let size : length key ≡ length source + length type_name + 1 =
      unfold dedup_key in omega (arith, length-append source (b':' ∷ type_name)) in
    let l2 = field_line (codes "type: ") type_name in
    let l3 = field_line (codes "priority: ") name in
    let l4 = field_line (codes "timestamp: ") iso_time in
    let l5 = field_line (codes "dedup-key: ") key in
    let rest = short_lines false (payload_text payload) [] in
    let found : find_dedup_key
          (short_lines false (event_text source type_name name iso_time payload) [])
        ≡ some key =
      unfold event_text in
      rw
        (short_lines-field_line (codes "source: ") source _ (omega arith) ws.one_line
          (omega (arith, ws.short)))
        (rw
          (short_lines-field_line (codes "type: ") type_name _ (omega arith) wt.one_line
            (omega (arith, wt.short)))
          (rw
            (short_lines-field_line (codes "priority: ") name _ (omega arith) wn.one_line
              (omega (arith, wn.short)))
            (rw
              (short_lines-field_line (codes "timestamp: ") iso_time _ (omega arith) clean
                (omega (arith, short)))
              (rw
                (short_lines-field_line (codes "dedup-key: ") key _ (omega arith) one_line
                  (omega (arith, ws.short, wt.short, size)))
                (find_dedup_key-other (codes "source: ") source (l2 ∷ l3 ∷ l4 ∷ l5 ∷ rest)
                    (unfold strip_prefix field_line in refl)
                  ∙ find_dedup_key-other (codes "type: ") type_name (l3 ∷ l4 ∷ l5 ∷ rest)
                      (unfold strip_prefix field_line in refl)
                  ∙ find_dedup_key-other (codes "priority: ") name (l4 ∷ l5 ∷ rest)
                      (unfold strip_prefix field_line in refl)
                  ∙ find_dedup_key-other (codes "timestamp: ") iso_time (l5 ∷ rest)
                      (unfold strip_prefix field_line in refl)
                  ∙ find_dedup_key-here key rest one_line))))) in
    ground (arith, found, take_all (key_len - 1) key (omega arith))
