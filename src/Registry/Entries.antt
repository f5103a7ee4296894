-- ===== src/Registry/Entries.antt =====
-- The registry of src/nbs-sidecar/registry.c as a list of different entries, one to a line.
use nbs_framework.Common.{
  ◌-◌, ◌<◌, ◌≡◌, ◌≢◌, refl, sym, ap, ◌∙◌, inl, inr, false, ◌&&◌, ◌||◌, Option, none, some, List, [],
  ◌∷◌, ◌++◌, map, append_assoc, arith, ◌==◌, if◌then◌else◌, Bool-cases, length, length-append, All,
  All-append,
}
use nbs_framework.Common.Distinct.{member, added, IsDistinct, IsDistinct-append}
use nbs_framework.Common.Text.{Bytes, Lacks, str_eq}
use nbs_framework.ChatFile.Message.{c_string}
use nbs_framework.ChatFile.Message.RoundTrip.{c_string-Lacks}
use nbs_framework.ChatFile.Lines.{fgets_lines, fgets_lines-line}
use nbs_framework.Registry.{
  nbs_max_entry, file_lines, chomp, has_line, registry_contains, registry_append, without_line,
  registry_remove, register,
}

abbrev pub line_text : Bytes → Bytes
line_text e = e ++ b'\n' ∷ []

abbrev pub registry_text : List Bytes → Bytes
registry_text [] = []
registry_text (e ∷ es) = e ++ b'\n' ∷ registry_text es

-- An entry that one line holds.
abbrev pub IsEntry : Bytes → Type 0
IsEntry e = Lacks b'\n' e × Lacks 0 e × (length e < nbs_max_entry - 1)

unfoldable pub without : Bytes → List Bytes → List Bytes
without entry [] = []
without entry (e ∷ es) = let rest = without entry es in if str_eq e entry then rest else e ∷ rest

file_lines-registry_text :
    (es : List Bytes) → All IsEntry es → file_lines (registry_text es) ≡ map line_text es
file_lines-registry_text [] h = unfold fgets_lines in refl
file_lines-registry_text (e ∷ es) ((clean, text, short), h) =
    let ended : Lacks 0 (line_text e) =
      All-append (λ c. c ≢ 0) e (b'\n' ∷ []) text (ground arith, tt) in
    ap (map c_string)
      (fgets_lines-line (nbs_max_entry - 1) e (registry_text es) [] clean (omega arith))
    ∙ rw (c_string-Lacks (line_text e) ended)
        (ap (◌∷◌ (line_text e)) (file_lines-registry_text es h))

chomp-line_text : (e : Bytes) → chomp (line_text e) ≡ e
unfolding chomp
chomp-line_text [] = refl
chomp-line_text (c ∷ e) =
    let inner : (length (e ++ b'\n' ∷ []) == 0) ≡ false =
      ground (arith, length-append e (b'\n' ∷ [])) in
    let stays : (c == b'\n' && length (e ++ b'\n' ∷ []) == 0) ≡ false = ground (arith, inner) in
    rw stays (ap (◌∷◌ c) (chomp-line_text e))

has_line-member :
    (entry : Bytes) (es : List Bytes) → has_line entry (map line_text es) ≡ member entry es
unfolding has_line member
has_line-member entry [] = refl
has_line-member entry (e ∷ es) =
    rw (chomp-line_text e) (ap (λ b. str_eq e entry || b) (has_line-member entry es))

without_line-without :
    (entry : Bytes) (es : List Bytes)
    → without_line entry (map line_text es) ≡ registry_text (without entry es)
unfolding without_line without
without_line-without entry [] = refl
without_line-without entry (e ∷ es) = elim (Bool-cases (str_eq e entry)) [
  | inl same ↦ rw (chomp-line_text e) (rw same (without_line-without entry es))
  | inr differ ↦ rw (chomp-line_text e) (
      rw differ
        (append_assoc e (b'\n' ∷ []) _ ∙ ap (λ t. e ++ b'\n' ∷ t) (without_line-without entry es)))
]

registry_text-append :
    (es : List Bytes) (e : Bytes) → registry_text (es ++ e ∷ []) ≡ registry_text es ++ line_text e
registry_text-append [] e = refl
registry_text-append (d ∷ es) e =
    ap (λ t. d ++ b'\n' ∷ t) (registry_text-append es e)
    ∙ sym (append_assoc d (b'\n' ∷ registry_text es) (line_text e))

-- The file has the entries, one to a line; a missing file has none.
abbrev pub EntriesFile : Option Bytes → List Bytes → Type 0
EntriesFile none es = es ≡ []
EntriesFile (some text) es = text ≡ registry_text es

-- The file of a registry.
pub record IsRegistry (file : Option Bytes) (es : List Bytes) : Type 0 where
  pub held : EntriesFile file es
  pub legal : All IsEntry es
  pub distinct : IsDistinct es

registry_contains-member :
    (file : Option Bytes) (es : List Bytes) (entry : Bytes)
    → IsRegistry file es
    → registry_contains file entry ≡ member entry es
unfolding registry_contains
registry_contains-member none es entry r =
    let none_held : es ≡ [] = r.held in rw none_held (unfold member in refl)
registry_contains-member (some text) es entry r =
    let same : text ≡ registry_text es = r.held in
    rw same (rw (file_lines-registry_text es r.legal) (has_line-member entry es))

member-without :
    (entry gone : Bytes) (es : List Bytes)
    → member entry es ≡ false
    → member entry (without gone es) ≡ false
unfolding member without
member-without entry gone [] h = refl
member-without entry gone (e ∷ es) h =
    let rest = member-without entry gone es in ground (arith, rest, h)

IsDistinct-without : (gone : Bytes) (es : List Bytes) → IsDistinct es → IsDistinct (without gone es)
unfolding without
IsDistinct-without gone [] d = tt
IsDistinct-without gone (e ∷ es) (first, d) = elim (Bool-cases (str_eq e gone)) [
  | inl same ↦ rw same (IsDistinct-without gone es d)
  | inr differ ↦ rw differ (member-without e gone es first, IsDistinct-without gone es d)
]

All-without : (gone : Bytes) (es : List Bytes) → All IsEntry es → All IsEntry (without gone es)
unfolding without
All-without gone [] h = tt
All-without gone (e ∷ es) (p, h) = elim (Bool-cases (str_eq e gone)) [
  | inl same ↦ rw same (All-without gone es h)
  | inr differ ↦ rw differ (p, All-without gone es h)
]

EntriesFile-registry_append :
    (file : Option Bytes) (es : List Bytes) (entry : Bytes)
    → EntriesFile file es
    → EntriesFile (registry_append file entry) (es ++ entry ∷ [])
unfolding registry_append
EntriesFile-registry_append none es entry held = rw held refl
EntriesFile-registry_append (some text) es entry held =
    rw held (sym (registry_text-append es entry))

-- Registering a legal entry adds it at the end of the registry, where it is new.
pub register-IsRegistry :
    (file : Option Bytes) (es : List Bytes) (entry : Bytes)
    → IsRegistry file es
    → IsEntry entry
    → IsRegistry (register file entry) (added entry es)
unfolding register added
register-IsRegistry file es entry r legal =
    let known = registry_contains-member file es entry r in
    elim (Bool-cases (member entry es)) [
      | inl listed ↦ rw known (rw listed r)
      | inr new ↦ rw known (
          rw new (record {
            held = EntriesFile-registry_append file es entry r.held;
            legal = All-append IsEntry es (entry ∷ []) r.legal (legal, tt);
            distinct = IsDistinct-append es entry r.distinct new;
          }))
    ]

-- Unregistering takes an entry, wherever it stands.
pub registry_remove-IsRegistry :
    (file : Option Bytes) (es : List Bytes) (entry : Bytes)
    → IsRegistry file es
    → IsRegistry (registry_remove file entry) (without entry es)
unfolding registry_remove
registry_remove-IsRegistry none es entry r = record {
  held = rw r.held (unfold without in refl);
  legal = All-without entry es r.legal;
  distinct = IsDistinct-without entry es r.distinct;
}
registry_remove-IsRegistry (some text) es entry r = record {
  held = rw r.held (rw (file_lines-registry_text es r.legal) (without_line-without entry es));
  legal = All-without entry es r.legal;
  distinct = IsDistinct-without entry es r.distinct;
}
