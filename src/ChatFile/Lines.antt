-- ===== src/ChatFile/Lines.antt =====
-- How src/nbs-chat/chat_file.c walks a file: `fgets` into a buffer of MAX_MESSAGE_LEN bytes, then the
-- loop that strips line ends. A line longer than the buffer comes in pieces.
use nbs_framework.Common.{
  ℕ, zero, suc, ◌+◌, ◌-◌, ◌*◌, ◌<◌, ◌≡◌, ◌≢◌, refl, ap, Bool, true, false, ◌||◌, List, [], ◌∷◌,
  ◌++◌, append_assoc, arith, ◌==◌, if◌then◌else◌, length, length-append, get_or, take, All,
  All-append, All-map,
}
use nbs_framework.Common.Outcome.{Outcome, ok, ◌>>=◌}
use nbs_framework.Common.Text.{Bytes, Lacks}
use nbs_framework.ChatFile.Message.{c_string}
use nbs_framework.ChatFile.Message.RoundTrip.{c_string-Lacks}

abbrev pub max_message_len : ℕ
max_message_len = 1024 * 1024

-- `fgets` until the end of the file; `cur` is the piece read so far.
unfoldable pub fgets_lines : ℕ → Bytes → Bytes → List Bytes
fgets_lines cap [] cur = if length cur == 0 then [] else cur ∷ []
fgets_lines cap (c ∷ s) cur =
    let piece = cur ++ c ∷ [] in
    elim (c == b'\n' || length piece == cap) [
      | true ↦ piece ∷ fgets_lines cap s []
      | false ↦ fgets_lines cap s piece
    ]

unfoldable pub is_eol : ℕ → Bool
is_eol c = c == b'\n' || c == b'\r'

unfoldable pub strip_eol_len : Bytes → ℕ → ℕ
strip_eol_len line zero = zero
strip_eol_len line (suc n) =
    let shorter = strip_eol_len line n in if is_eol (get_or line n 0) then shorter else suc n

-- The text of a piece, without the NUL and the line end.
unfoldable pub strip_eol : Bytes → Bytes
unfolding is_eol strip_eol_len
strip_eol raw = let line = c_string raw in take (strip_eol_len line (length line)) line

-- The loop over the lines, with `step` for its body on the stripped line.
unfoldable pub fold_lines {ℓ} : {S : Type ℓ} → (S → Bytes → Outcome S) → S → List Bytes → Outcome S
fold_lines step s [] = ok s
fold_lines step s (raw ∷ lines) = do s' ← step s (strip_eol raw); fold_lines step s' lines

unfoldable pub fold_file {ℓ} : {S : Type ℓ} → (S → Bytes → Outcome S) → S → Bytes → Outcome S
unfolding fgets_lines fold_lines strip_eol
fold_file step s text = fold_lines step s (fgets_lines (max_message_len - 1) text [])

-- Text that a line can hold: no NUL and no line end.
abbrev pub IsPlain : Bytes → Type 0
IsPlain = All (λ c. (c ≢ 0) × (c ≢ b'\n') × (c ≢ b'\r'))

-- A line that ends before the buffer is full is one piece, with its end.
pub fgets_lines-line :
    (cap : ℕ) (l rest cur : Bytes)
    → Lacks b'\n' l
    → length cur + length l < cap
    → fgets_lines cap (l ++ b'\n' ∷ rest) cur ≡ (cur ++ (l ++ b'\n' ∷ [])) ∷ fgets_lines cap rest []
unfolding fgets_lines
fgets_lines-line cap [] rest cur h lt = ground arith
fgets_lines-line cap (c ∷ l) rest cur h lt =
    let grown = length-append cur (c ∷ []) in
    let later = fgets_lines-line cap l rest (cur ++ c ∷ []) h.1 (omega (arith, grown)) in
    let regroup = append_assoc cur (c ∷ []) (l ++ b'\n' ∷ []) in
    ground (arith, grown, later, regroup)

strip_eol_len-plain :
    (line : Bytes) (n : ℕ) → is_eol (get_or line n 0) ≡ false → strip_eol_len line (suc n) ≡ suc n
unfolding strip_eol_len
strip_eol_len-plain line n h = rw h

get_or-append : (l : Bytes) (c : ℕ) (s : Bytes) → get_or (l ++ c ∷ s) (length l) 0 ≡ c
get_or-append [] c s = refl
get_or-append (x ∷ l) c s = get_or-append l c s

plain_at : (l s : Bytes) (n : ℕ) → IsPlain l → n < length l → is_eol (get_or (l ++ s) n 0) ≡ false
unfolding is_eol
plain_at [] s n h lt = elim lt [ ]
plain_at (c ∷ l) s zero h lt = ground arith
plain_at (c ∷ l) s (suc n) h lt = plain_at l s n h.1 (omega arith)

strip_eol_len-line :
    (l : Bytes) → IsPlain l → (n : ℕ) → n ≡ length l → strip_eol_len (l ++ b'\n' ∷ []) n ≡ n
strip_eol_len-line l h zero e = unfold strip_eol_len in refl
strip_eol_len-line l h (suc n) e =
    strip_eol_len-plain (l ++ b'\n' ∷ []) n (plain_at l (b'\n' ∷ []) n h (omega arith))

take-append : (l s : Bytes) → take (length l) (l ++ s) ≡ l
take-append [] s = refl
take-append (c ∷ l) s = ap (◌∷◌ c) (take-append l s)

strip_eol-line : (l : Bytes) → IsPlain l → strip_eol (l ++ b'\n' ∷ []) ≡ l
unfolding strip_eol
strip_eol-line l h =
    let line = l ++ b'\n' ∷ [] in
    let clean =
      All-append (λ c. c ≢ 0) l (b'\n' ∷ []) (All-map (λ c p. p.0) l h) (omega arith, tt) in
    let size : length line ≡ suc (length l) = omega (arith, length-append l (b'\n' ∷ [])) in
    let last : is_eol (get_or line (length l) 0) ≡ true = rw (get_or-append l b'\n' []) refl in
    let kept : strip_eol_len line (suc (length l)) ≡ length l =
      unfold strip_eol_len in rw last (strip_eol_len-line l h (length l) refl) in
    rw (c_string-Lacks line clean) (rw size (rw kept (take-append l (b'\n' ∷ []))))

-- One plain line at the front of the text is one round of the loop.
pub fold_file-line {ℓ} :
    {S : Type ℓ} (step : S → Bytes → Outcome S) (s : S) (l rest : Bytes)
    → IsPlain l
    → length l < max_message_len - 1
    → fold_file step s (l ++ b'\n' ∷ rest) ≡ (step s l >>= λ s'. fold_file step s' rest)
unfolding fold_file
fold_file-line step s l rest h lt =
    rw (fgets_lines-line (max_message_len - 1) l rest [] (All-map (λ c p. p.1) l h) (omega arith))
      (unfold fold_lines in rw (strip_eol-line l h))

pub fold_file-nil {ℓ} :
    {S : Type ℓ} (step : S → Bytes → Outcome S) (s : S) → fold_file step s [] ≡ ok s
unfolding fold_file fold_lines fgets_lines
fold_file-nil step s = refl
