-- ===== src/Bus/Sizes.antt =====
-- The entries of a folder's files, by name and size, for `bus_prune` of src/nbs-bus/bus.c.
use nbs_framework.Common.{
  ℕ, ◌+◌, ◌≡◌, refl, ap, ◌∙◌, inl, inr, true, false, not, none, List, [], ◌∷◌, map, arith,
  Bool-cases, length, All,
}
use nbs_framework.Common.Outcome.{Outcome, ok, fail, abort}
use nbs_framework.Common.Text.{str_eq_sym, Bytes, str_eq, str_eq_iff}
use nbs_framework.Common.Sorting.{IsPermuted, keep, All-permuted}
use nbs_framework.Bus.{EventFile, find_file, remove_file}
use nbs_framework.Bus.Files.{IsFolder}
use nbs_framework.Bus.Name.{parse_event_filename_timestamp}
use nbs_framework.Bus.Upkeep.{PruneEntry}

abbrev time_or_zero : Outcome ℕ → ℕ
time_or_zero (ok ts) = ts
time_or_zero (fail k) = 0
time_or_zero abort = 0

-- The entry of an event file.
abbrev pub entry_of : EventFile → PruneEntry
entry_of f = record {
  filename = f.name;
  timestamp_us = time_or_zero (parse_event_filename_timestamp f.name);
  size = length f.content;
}

abbrev pub size_sum : List PruneEntry → ℕ
size_sum [] = 0
size_sum (e ∷ entries) = e.size + size_sum entries

-- The bytes of a folder's files.
abbrev pub folder_size : List EventFile → ℕ
folder_size [] = 0
folder_size (f ∷ files) = length f.content + folder_size files

pub folder_size-entry_of :
    (files : List EventFile) → folder_size files ≡ size_sum (map entry_of files)
folder_size-entry_of [] = refl
folder_size-entry_of (f ∷ files) = ap (λ n. length f.content + n) (folder_size-entry_of files)

pub size_sum-permuted : {l r : List PruneEntry} → IsPermuted l r → size_sum l ≡ size_sum r
size_sum-permuted IsPermuted.nil = refl
size_sum-permuted (IsPermuted.cons x p) = ap (λ n. x.size + n) (size_sum-permuted p)
size_sum-permuted (IsPermuted.swap x y l) = omega arith
size_sum-permuted (IsPermuted.trans p q) = size_sum-permuted p ∙ size_sum-permuted q

-- No two entries have one name.
abbrev pub IsDistinct : List PruneEntry → Type 0
IsDistinct [] = Unit
IsDistinct (e ∷ entries) =
    All (λ d. str_eq e.filename d.filename ≡ false) entries × IsDistinct entries

pub IsDistinct-permuted : {l r : List PruneEntry} → IsPermuted l r → IsDistinct l → IsDistinct r
IsDistinct-permuted IsPermuted.nil h = h
IsDistinct-permuted (IsPermuted.cons x p) h =
    (All-permuted (λ d. str_eq x.filename d.filename ≡ false) p h.0, IsDistinct-permuted p h.1)
IsDistinct-permuted (IsPermuted.swap x y l) ((differ, hx), (hy, h)) =
    ((str_eq_sym x.filename y.filename differ, hy), (hx, h))
IsDistinct-permuted (IsPermuted.trans p q) h = IsDistinct-permuted q (IsDistinct-permuted p h)

find_file-All :
    (name : Bytes) (files : List EventFile)
    → find_file name files ≡ none
    → All (λ d. str_eq name d.filename ≡ false) (map entry_of files)
unfolding find_file
find_file-All name [] h = tt
find_file-All name (f ∷ files) h = elim (Bool-cases (str_eq f.name name)) [
  | inl same ↦ absurd cc
  | inr differ ↦ (str_eq_sym f.name name differ, find_file-All name files (rw differ at h))
]

pub IsFolder-IsDistinct :
    (files : List EventFile) → IsFolder files → IsDistinct (map entry_of files)
IsFolder-IsDistinct [] h = tt
IsFolder-IsDistinct (f ∷ files) (new, h) =
    (find_file-All f.name files new, IsFolder-IsDistinct files h)

abbrev pub drop_entry : Bytes → List PruneEntry → List PruneEntry
drop_entry name = keep (λ e. not (str_eq e.filename name))

pub drop_entry-remove_file :
    (name : Bytes) (files : List EventFile)
    → map entry_of (remove_file name files) ≡ drop_entry name (map entry_of files)
unfolding remove_file keep
drop_entry-remove_file name [] = refl
drop_entry-remove_file name (f ∷ files) = elim (Bool-cases (str_eq f.name name)) [
  | inl same ↦ rw same (drop_entry-remove_file name files)
  | inr differ ↦ rw differ (ap (◌∷◌ (entry_of f)) (drop_entry-remove_file name files))
]

drop_entry-other :
    (name : Bytes) (entries : List PruneEntry)
    → All (λ d. str_eq name d.filename ≡ false) entries
    → drop_entry name entries ≡ entries
unfolding keep
drop_entry-other name [] h = refl
drop_entry-other name (e ∷ entries) h =
    rw (str_eq_sym name e.filename h.0) (ap (◌∷◌ e) (drop_entry-other name entries h.1))

pub drop_entry-head :
    (e : PruneEntry) (entries : List PruneEntry)
    → IsDistinct (e ∷ entries)
    → drop_entry e.filename (e ∷ entries) ≡ entries
unfolding keep
drop_entry-head e entries h =
    let itself : str_eq e.filename e.filename ≡ true = (str_eq_iff e.filename e.filename).1 refl in
    rw itself (drop_entry-other e.filename entries h.0)
