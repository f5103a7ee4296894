-- ===== src/Registry/Inbox.antt =====
-- The control inbox of src/nbs-sidecar/registry.c, as commands on the list of entries.
use Prim.Native.Nat.{max}
use nbs_framework.Common.{
  ℕ, zero, suc, ◌+◌, ◌-◌, ◌≤◌, ◌≡◌, refl, ◌≢◌, inl, inr, Bool, true, false, ◌&&◌, ◌||◌, ◌==◌,
  Option, none, some, List, [], ◌∷◌, ◌++◌, arith, ltb, leb, if◌then◌else◌, lt→ltb, leb→le, le→leb,
  Bool-cases, length, length-append, All-append,
}
use nbs_framework.Common.Distinct.{added}
use nbs_framework.Common.Outcome.{Outcome, ok}
use nbs_framework.Common.Text.{Bytes, codes, Lacks, is_space, str_eq}
use nbs_framework.ChatFile.Message.{c_string}
use nbs_framework.ChatFile.Number.{int_max}
use nbs_framework.Registry.{
  nbs_max_path, nbs_max_entry, strip_whitespace, line_total, count_lines, get_line_n, register,
  registry_remove, skip_white, take_word, verb_and_path, with_entry, run_command,
  process_control_command,
}
use nbs_framework.Registry.Entries.{
  IsEntry, IsRegistry, without, register-IsRegistry, registry_remove-IsRegistry,
}
use nbs_framework.Registry.Watch.{
  is_skipped, process_line, process_lines, process_text, registry_process_inbox,
}

-- What a command does to the entries; a line without two words does nothing.
unfoldable pub apply_command : Option (Bytes × Bytes) → List Bytes → List Bytes
apply_command none es = es
apply_command (some (verb, path)) es =
    if str_eq verb (codes "register-chat")
    then added (codes "chat:" ++ path) es
    else if str_eq verb (codes "unregister-chat")
    then without (codes "chat:" ++ path) es
    else if str_eq verb (codes "register-bus")
    then added (codes "bus:" ++ path) es
    else if str_eq verb (codes "unregister-bus")
    then without (codes "bus:" ++ path) es
    else es

unfoldable pub apply_line : Option Bytes → List Bytes → List Bytes
unfolding apply_command
apply_line none es = es
apply_line (some line) es =
    let stripped = strip_whitespace line in
    if is_skipped stripped then es else apply_command (verb_and_path stripped) es

-- The commands of `count` lines of the inbox from the line `i` on.
unfoldable pub apply_lines : ℕ → Bytes → ℕ → List Bytes → List Bytes
unfolding apply_line
apply_lines zero buf i es = es
apply_lines (suc count) buf i es =
    apply_lines count buf (i + 1) (apply_line (get_line_n buf i nbs_max_path) es)

-- A word has no white space and no NUL, and is no longer than its width.
take_word-short :
    (width : ℕ) (s : Bytes)
    → Lacks b'\n' ((take_word width s).0)
      × Lacks 0 ((take_word width s).0)
      × (length ((take_word width s).0) ≤ width)
unfolding take_word
take_word-short zero s = (tt, tt, omega arith)
take_word-short (suc width) [] = (tt, tt, omega arith)
take_word-short (suc width) (c ∷ s) =
    let (clean, text, short) = take_word-short width s in
    elim (Bool-cases (is_space c || c == 0)) [
      | inl ends ↦ rw ends (tt, tt, omega arith)
      | inr word ↦
          rw word
            ((ground (arith, word), clean), (ground (arith, word), text), omega (arith, short))
    ]

-- The path of a command fits a line of the registry.
abbrev IsPath : Option (Bytes × Bytes) → Type 0
IsPath none = Unit
IsPath (some (verb, path)) = Lacks b'\n' path × Lacks 0 path × (length path ≤ 4095)

verb_and_path-IsPath : (line : Bytes) → IsPath (verb_and_path line)
unfolding verb_and_path
verb_and_path-IsPath line =
    let behind = (take_word 255 (skip_white line)).1 in
    elim (Bool-cases (
      ltb 0 (length ((take_word 255 (skip_white line)).0))
      && ltb 0 (length ((take_word 4095 (skip_white behind)).0)))) [
        | inl both ↦ rw both (take_word-short 4095 (skip_white behind))
        | inr missing ↦ rw missing tt
      ]

-- A step that the registry's file and its entries take together.
abbrev IsTogether : Outcome (Option Bytes) → List Bytes → Type 0
IsTogether o es = (file : Option Bytes) × (o ≡ ok file) × IsRegistry file es

if_IsTogether :
    (b : Bool) (x y : Outcome (Option Bytes)) (es ds : List Bytes)
    → IsTogether x es
    → IsTogether y ds
    → IsTogether (if b then x else y) (if b then es else ds)
if_IsTogether true x y es ds hx hy = hx
if_IsTogether false x y es ds hx hy = hy

with_entry-IsTogether :
    (kind path : Bytes) (act : Bytes → Option Bytes) (es : List Bytes)
    → length kind ≤ 5
    → length path ≤ 4095
    → IsRegistry (act (kind ++ path)) es
    → IsTogether (with_entry kind path act) es
unfolding with_entry
with_entry-IsTogether kind path act es hk hp r =
    let fits : ltb (length (kind ++ path)) nbs_max_entry ≡ true =
      lt→ltb _ _ (omega (arith, length-append kind path)) in
    (act (kind ++ path), rw fits refl, r)

kind-IsEntry :
    (kind path : Bytes)
    → Lacks b'\n' kind × Lacks 0 kind × (length kind ≤ 5)
    → Lacks b'\n' path × Lacks 0 path × (length path ≤ 4095)
    → IsEntry (kind ++ path)
kind-IsEntry kind path (ck, tk, hk) (cp, tp, hp) = (
  All-append (λ c. c ≢ b'\n') kind path ck cp,
  All-append (λ c. c ≢ 0) kind path tk tp,
  omega (arith, length-append kind path),
)

run_command-IsTogether :
    (file : Option Bytes) (es : List Bytes) (command : Option (Bytes × Bytes))
    → IsRegistry file es
    → IsPath command
    → IsTogether (run_command file command) (apply_command command es)
unfolding run_command apply_command
run_command-IsTogether file es none r p = (file, refl, r)
run_command-IsTogether file es (some (verb, path)) r (clean, text, short) =
    let chat = codes "chat:" in
    let bus = codes "bus:" in
    let chat_entry =
      kind-IsEntry chat path (ground arith, ground arith, omega arith) (clean, text, short) in
    let bus_entry =
      kind-IsEntry bus path (ground arith, ground arith, omega arith) (clean, text, short) in
    if_IsTogether (str_eq verb (codes "register-chat")) _ _ _ _
      (with_entry-IsTogether chat path (register file) _ (omega arith) short
        (register-IsRegistry file es (chat ++ path) r chat_entry))
      (if_IsTogether (str_eq verb (codes "unregister-chat")) _ _ _ _
        (with_entry-IsTogether chat path (registry_remove file) _ (omega arith) short
          (registry_remove-IsRegistry file es (chat ++ path) r))
        (if_IsTogether (str_eq verb (codes "register-bus")) _ _ _ _
          (with_entry-IsTogether bus path (register file) _ (omega arith) short
            (register-IsRegistry file es (bus ++ path) r bus_entry))
          (if_IsTogether (str_eq verb (codes "unregister-bus")) _ _ _ _
            (with_entry-IsTogether bus path (registry_remove file) _ (omega arith) short
              (registry_remove-IsRegistry file es (bus ++ path) r))
            (file, refl, r))))

-- The same with a count of commands.
abbrev IsCounted : Outcome (Option Bytes × ℕ) → List Bytes → Type 0
IsCounted o es = (file : Option Bytes) × (n : ℕ) × (o ≡ ok (file, n)) × IsRegistry file es

process_line-IsCounted :
    (file : Option Bytes) (es : List Bytes) (line : Option Bytes)
    → IsRegistry file es
    → IsCounted (process_line file line) (apply_line line es)
unfolding process_line apply_line
process_line-IsCounted file es none r = (file, 0, refl, r)
process_line-IsCounted file es (some line) r =
    elim (Bool-cases (is_skipped (strip_whitespace line))) [
      | inl skipped ↦ rw skipped (file, 0, refl, r)
      | inr command ↦
          let stripped = strip_whitespace line in
          let (file', run, r') =
            run_command-IsTogether file es (verb_and_path stripped) r
              (verb_and_path-IsPath stripped) in
          rw command (file', 1, unfold process_control_command in rw run refl, r')
    ]

process_lines-IsCounted :
    (count : ℕ) (buf : Bytes) (i : ℕ) (file : Option Bytes) (es : List Bytes) (processed : ℕ)
    → IsRegistry file es
    → IsCounted (process_lines count buf i file processed) (apply_lines count buf i es)
unfolding process_lines apply_lines
process_lines-IsCounted zero buf i file es processed r = (file, processed, refl, r)
process_lines-IsCounted (suc count) buf i file es processed r =
    let line = get_line_n buf i nbs_max_path in
    let (file', one, run, r') = process_line-IsCounted file es line r in
    let (file'', n, rest, r'') =
      process_lines-IsCounted count buf (i + 1) file' (apply_line line es) (processed + one) r' in
    (file'', n, rw run rest, r'')

process_text-IsRegistry :
    (buf : Bytes) (file : Option Bytes) (es : List Bytes) (inbox_line : ℕ)
    → IsRegistry file es
    → line_total buf ≤ int_max
    → (file' : Option Bytes) × (n : ℕ) × (process_text buf file inbox_line
        ≡ ok (file', max inbox_line (line_total buf), n))
      × IsRegistry file' (apply_lines (line_total buf - inbox_line) buf inbox_line es)
unfolding process_text count_lines
process_text-IsRegistry buf file es inbox_line r few =
    rw (le→leb (line_total buf) int_max few) (elim (Bool-cases (leb (line_total buf) inbox_line)) [
      | inl old ↦
          let all_read : line_total buf - inbox_line ≡ 0 =
            omega (arith, leb→le (line_total buf) inbox_line old) in
          let stays : max inbox_line (line_total buf) ≡ inbox_line =
            omega (arith, leb→le (line_total buf) inbox_line old) in
          (file, 0, rw old (rw stays refl), rw all_read (unfold apply_lines in r))
      | inr new ↦
          let ahead : inbox_line ≤ line_total buf = ground (arith, new) in
          let moved : max inbox_line (line_total buf) ≡ line_total buf = omega arith in
          let forward : leb inbox_line (line_total buf) ≡ true = le→leb _ _ ahead in
          let (file', n, run, r') =
            process_lines-IsCounted (line_total buf - inbox_line) buf inbox_line file es 0 r in
          (file', n, rw new (rw run (rw forward (rw moved refl))), r')
    ])

-- For any bytes in the inbox with at most INT_MAX lines before the first NUL, processing it
-- succeeds on a registry of different entries: it moves on to the end of these lines and never
-- back, and leaves the registry of the entries that the commands of the new ones among these lines
-- make, all different again.
pub registry_process_inbox-IsRegistry :
    (buf : Bytes) (file : Option Bytes) (es : List Bytes) (inbox_line : ℕ)
    → IsRegistry file es
    → line_total (c_string buf) ≤ int_max
    → (file' : Option Bytes) × (n : ℕ) × (registry_process_inbox (some buf) file inbox_line
        ≡ ok (file', max inbox_line (line_total (c_string buf)), n))
      × IsRegistry file'
          (apply_lines (line_total (c_string buf) - inbox_line) (c_string buf) inbox_line es)
unfolding registry_process_inbox
registry_process_inbox-IsRegistry buf file es inbox_line r few =
    process_text-IsRegistry (c_string buf) file es inbox_line r few
