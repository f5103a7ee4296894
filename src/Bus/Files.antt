-- ===== src/Bus/Files.antt =====
-- A folder of event files as a list: its names are different, and stay so.
use nbs_framework.Common.{
  subst, sym, ◌≡◌, refl, ap, inl, inr, false, none, some, List, [], ◌∷◌, ◌++◌, Bool-cases, All,
  All-append,
}
use nbs_framework.Common.Text.{str_eq_sym, Bytes, str_eq, str_eq_iff}
use nbs_framework.Common.Sorting.{IsPermuted, nil, cons, swap, trans, IsPermuted-sym, All-permuted}
use nbs_framework.Bus.{Directory, EventFile, find_file, remove_file, put_file}

-- No two files have one name.
abbrev pub IsFolder : List EventFile → Type 0
IsFolder [] = Unit
IsFolder (f ∷ fs) = (find_file f.name fs ≡ none) × IsFolder fs

find_file-append :
    (name : Bytes) (fs : List EventFile) (f : EventFile)
    → find_file name fs ≡ none
    → str_eq f.name name ≡ false
    → find_file name (fs ++ f ∷ []) ≡ none
unfolding find_file
find_file-append name [] f h differ = rw differ refl
find_file-append name (g ∷ fs) f h differ = elim (Bool-cases (str_eq g.name name)) [
  | inl same ↦ absurd cc
  | inr other ↦ rw other (find_file-append name fs f (rw other at h) differ)
]

IsFolder-append :
    (fs : List EventFile) (f : EventFile)
    → IsFolder fs
    → find_file f.name fs ≡ none
    → IsFolder (fs ++ f ∷ [])
unfolding find_file
IsFolder-append [] f v h = (refl, tt)
IsFolder-append (g ∷ fs) f (new, v) h = elim (Bool-cases (str_eq g.name f.name)) [
  | inl same ↦ absurd cc
  | inr other ↦ (
    find_file-append g.name fs f new (str_eq_sym g.name f.name other),
    IsFolder-append fs f v (rw other at h),
  )
]

pub find_file-remove_file :
    (name : Bytes) (fs : List EventFile) → find_file name (remove_file name fs) ≡ none
unfolding find_file remove_file
find_file-remove_file name [] = refl
find_file-remove_file name (f ∷ fs) = elim (Bool-cases (str_eq f.name name)) [
  | inl same ↦ rw same (find_file-remove_file name fs)
  | inr other ↦ rw other (rw other (find_file-remove_file name fs))
]

find_file-remove_file_other :
    (name gone : Bytes) (fs : List EventFile)
    → find_file name fs ≡ none
    → find_file name (remove_file gone fs) ≡ none
unfolding find_file remove_file
find_file-remove_file_other name gone [] h = refl
find_file-remove_file_other name gone (f ∷ fs) h = elim (Bool-cases (str_eq f.name name)) [
  | inl same ↦ absurd cc
  | inr other ↦
      let rest = find_file-remove_file_other name gone fs (rw other at h) in
      elim (Bool-cases (str_eq f.name gone)) [
        | inl gone ↦ rw gone rest
        | inr stays ↦ rw stays (rw other rest)
      ]
]

pub IsFolder-remove_file :
    (name : Bytes) (fs : List EventFile) → IsFolder fs → IsFolder (remove_file name fs)
unfolding remove_file
IsFolder-remove_file name [] v = tt
IsFolder-remove_file name (f ∷ fs) (new, v) = elim (Bool-cases (str_eq f.name name)) [
  | inl same ↦ rw same (IsFolder-remove_file name fs v)
  | inr other ↦
      rw other (find_file-remove_file_other f.name name fs new, IsFolder-remove_file name fs v)
]

find_file-permuted :
    (name : Bytes) {l r : List EventFile}
    → IsPermuted l r
    → find_file name l ≡ none
    → find_file name r ≡ none
unfolding find_file
find_file-permuted name nil h = h
find_file-permuted name (cons x p) h = elim (Bool-cases (str_eq x.name name)) [
  | inl same ↦ absurd cc
  | inr other ↦ rw other (find_file-permuted name p (rw other at h))
]
find_file-permuted name (swap x y l) h = elim (Bool-cases (str_eq x.name name)) [
  | inl same ↦ absurd cc
  | inr one ↦ elim (Bool-cases (str_eq y.name name)) [
    | inl same ↦ absurd cc
    | inr two ↦ rw two (rw one (rw two at (rw one at h)))
  ]
]
find_file-permuted name (trans p q) h = find_file-permuted name q (find_file-permuted name p h)

-- The names stay different in any order.
pub IsFolder-permuted : {l r : List EventFile} → IsPermuted l r → IsFolder l → IsFolder r
unfolding find_file
IsFolder-permuted nil v = v
IsFolder-permuted (cons x p) (new, v) = (find_file-permuted x.name p new, IsFolder-permuted p v)
IsFolder-permuted (swap x y l) (hx, (hy, v)) = elim (Bool-cases (str_eq y.name x.name)) [
  | inl same ↦ absurd cc
  | inr differ ↦ (rw (str_eq_sym y.name x.name differ) hy, (rw differ at hx, v))
]
IsFolder-permuted (trans p q) v = IsFolder-permuted q (IsFolder-permuted p v)

pub IsFolder-put_file :
    (dir : Directory) (f : EventFile) (fs : List EventFile)
    → IsFolder fs
    → IsFolder (put_file dir f fs)
unfolding put_file
IsFolder-put_file dir f fs v =
    IsFolder-permuted (IsPermuted-sym (dir.same_files (remove_file f.name fs ++ f ∷ []))) (
      IsFolder-append (remove_file f.name fs) f (IsFolder-remove_file f.name fs v)
        (find_file-remove_file f.name fs))

pub remove_file-none :
    (name : Bytes) (fs : List EventFile) → find_file name fs ≡ none → remove_file name fs ≡ fs
unfolding find_file remove_file
remove_file-none name [] h = refl
remove_file-none name (f ∷ fs) h = elim (Bool-cases (str_eq f.name name)) [
  | inl same ↦ absurd cc
  | inr other ↦ rw other (ap (◌∷◌ f) (remove_file-none name fs (rw other at h)))
]

pub find_file-name :
    (name : Bytes) (fs : List EventFile) (f : EventFile)
    → find_file name fs ≡ some f
    → f.name ≡ name
unfolding find_file
find_file-name name [] f h = cc
find_file-name name (g ∷ fs) f h = elim (Bool-cases (str_eq g.name name)) [
  | inl same ↦
      let found : find_file name (g ∷ fs) ≡ some g = rw same refl in
      let here : f ≡ g = cc in rw here ((str_eq_iff g.name name).0 same)
  | inr other ↦ find_file-name name fs f (rw other at h)
]

-- A file with a new name comes to the files that are there.
pub put_file-new :
    (dir : Directory) (f : EventFile) (fs : List EventFile)
    → find_file f.name fs ≡ none
    → IsPermuted (fs ++ f ∷ []) (put_file dir f fs)
unfolding put_file
put_file-new dir f fs new =
    let kept : remove_file f.name fs ≡ fs = remove_file-none f.name fs new in
    subst (λ gs. IsPermuted (fs ++ f ∷ []) (dir.listed (gs ++ f ∷ []))) (sym kept)
      (IsPermuted-sym (dir.same_files (fs ++ f ∷ [])))

-- What holds of every file holds of those that are left, and of one that is found.
module _ {κ} (P : EventFile → Type κ) where
  pub All-remove_file :
      (name : Bytes) (fs : List EventFile) → All P fs → All P (remove_file name fs)
  unfolding remove_file
  All-remove_file name [] v = tt
  All-remove_file name (f ∷ fs) (p, v) = elim (Bool-cases (str_eq f.name name)) [
    | inl same ↦ rw same (All-remove_file name fs v)
    | inr other ↦ rw other (p, All-remove_file name fs v)
  ]

  pub All-put_file :
      (dir : Directory) (f : EventFile) (fs : List EventFile)
      → P f
      → All P fs
      → All P (put_file dir f fs)
  unfolding put_file
  All-put_file dir f fs p v =
      All-permuted P (IsPermuted-sym (dir.same_files (remove_file f.name fs ++ f ∷ [])))
        (All-append P (remove_file f.name fs) (f ∷ []) (All-remove_file f.name fs v) (p, tt))

  pub All-find_file :
      (name : Bytes) (fs : List EventFile) (f : EventFile)
      → All P fs
      → find_file name fs ≡ some f
      → P f
  unfolding find_file
  All-find_file name [] f v h = absurd cc
  All-find_file name (g ∷ fs) f (p, v) h = elim (Bool-cases (str_eq g.name name)) [
    | inl same ↦
        let found : find_file name (g ∷ fs) ≡ some g = rw same refl in
        let here : f ≡ g = cc in rw here p
    | inr other ↦ All-find_file name fs f v (rw other at h)
  ]
