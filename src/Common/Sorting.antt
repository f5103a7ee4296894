-- ===== src/Common/Sorting.antt =====
-- Sorting: what `qsort` of the C library promises for an order given as a test, and what a permutation keeps.
use nbs_framework.Common.{
  ◌≡◌, refl, ◌∙◌, inl, inr, Bool, true, false, List, [], ◌∷◌, arith, if◌then◌else◌, Bool-cases,
  length, All, All-map,
}

-- The same items in another order.
pub data IsPermuted {ℓ} {A : Type ℓ} : List A → List A → Type ℓ where
  nil : IsPermuted [] []
  cons : (x : A) {l r : List A} → IsPermuted l r → IsPermuted (x ∷ l) (x ∷ r)
  swap : (x y : A) (l : List A) → IsPermuted (x ∷ y ∷ l) (y ∷ x ∷ l)
  trans : {l m r : List A} → IsPermuted l m → IsPermuted m r → IsPermuted l r

-- Each item before all that follow it.
abbrev pub IsSorted {ℓ} : {A : Type ℓ} → (A → A → Bool) → List A → Type 0
IsSorted le [] = Unit
IsSorted le (x ∷ xs) = All (λ y. le x y ≡ true) xs × IsSorted le xs

-- The same for an order given as a relation.
abbrev pub IsOrdered {ℓ κ} : {A : Type ℓ} → (A → A → Type κ) → List A → Type κ
IsOrdered R [] = Unit
IsOrdered R (x ∷ xs) = All (R x) xs × IsOrdered R xs

-- `qsort` puts the items in order, and neither loses nor adds one.
pub record IsQsort {ℓ} {A : Type ℓ} (le : A → A → Bool) (qsort : List A → List A) : Type ℓ where
  pub permuted : (l : List A) → IsPermuted (qsort l) l
  pub sorted : (l : List A) → IsSorted le (qsort l)

-- The items that pass a test.
unfoldable pub keep {ℓ} : {A : Type ℓ} → (A → Bool) → List A → List A
keep test [] = []
keep test (x ∷ xs) = let rest = keep test xs in if test x then x ∷ rest else rest

module _ {ℓ} {A : Type ℓ} where
  pub IsPermuted-refl : (l : List A) → IsPermuted l l
  IsPermuted-refl [] = nil
  IsPermuted-refl (x ∷ xs) = cons x (IsPermuted-refl xs)

  pub IsPermuted-sym : {l r : List A} → IsPermuted l r → IsPermuted r l
  IsPermuted-sym nil = nil
  IsPermuted-sym (cons x p) = cons x (IsPermuted-sym p)
  IsPermuted-sym (swap x y l) = swap y x l
  IsPermuted-sym (trans p q) = trans (IsPermuted-sym q) (IsPermuted-sym p)

  pub length-permuted : {l r : List A} → IsPermuted l r → length l ≡ length r
  length-permuted nil = refl
  length-permuted (cons x p) = omega (arith, length-permuted p)
  length-permuted (swap x y l) = refl
  length-permuted (trans p q) = length-permuted p ∙ length-permuted q

  pub All-permuted {κ} : (P : A → Type κ) {l r : List A} → IsPermuted l r → All P l → All P r
  All-permuted P nil h = h
  All-permuted P (cons x p) h = (h.0, All-permuted P p h.1)
  All-permuted P (swap x y l) (hx, (hy, h)) = (hy, (hx, h))
  All-permuted P (trans p q) h = All-permuted P q (All-permuted P p h)

  pub keep-head_true :
      (test : A → Bool) (x : A) (xs : List A)
      → test x ≡ true
      → keep test (x ∷ xs) ≡ x ∷ keep test xs
  unfolding keep
  keep-head_true test x xs h = rw h refl

  pub keep-head_false :
      (test : A → Bool) (x : A) (xs : List A) → test x ≡ false → keep test (x ∷ xs) ≡ keep test xs
  unfolding keep
  keep-head_false test x xs h = rw h refl

  pub keep-IsPermuted :
      (test : A → Bool) {l r : List A} → IsPermuted l r → IsPermuted (keep test l) (keep test r)
  unfolding keep
  keep-IsPermuted test nil = nil
  keep-IsPermuted test (cons x p) = elim (Bool-cases (test x)) [
    | inl kept ↦ rw kept (cons x (keep-IsPermuted test p))
    | inr out ↦ rw out (keep-IsPermuted test p)
  ]
  keep-IsPermuted test (swap x y l) = elim (Bool-cases (test x)) [
    | inl one ↦ elim (Bool-cases (test y)) [
      | inl two ↦ rw one (rw two (swap x y (keep test l)))
      | inr two ↦ rw one (rw two (IsPermuted-refl (x ∷ keep test l)))
    ]
    | inr one ↦ elim (Bool-cases (test y)) [
      | inl two ↦ rw one (rw two (IsPermuted-refl (y ∷ keep test l)))
      | inr two ↦ rw one (rw two (IsPermuted-refl (keep test l)))
    ]
  ]
  keep-IsPermuted test (trans p q) = trans (keep-IsPermuted test p) (keep-IsPermuted test q)

  pub keep-All {κ} : (P : A → Type κ) (test : A → Bool) (l : List A) → All P l → All P (keep test l)
  unfolding keep
  keep-All P test [] h = h
  keep-All P test (x ∷ xs) h = elim (Bool-cases (test x)) [
    | inl kept ↦ rw kept (h.0, keep-All P test xs h.1)
    | inr out ↦ rw out (keep-All P test xs h.1)
  ]

  pub keep-IsSorted :
      (le : A → A → Bool) (test : A → Bool) (l : List A) → IsSorted le l → IsSorted le (keep test l)
  unfolding keep
  keep-IsSorted le test [] h = h
  keep-IsSorted le test (x ∷ xs) h = elim (Bool-cases (test x)) [
    | inl kept ↦ rw kept (keep-All (λ y. le x y ≡ true) test xs h.0, keep-IsSorted le test xs h.1)
    | inr out ↦ rw out (keep-IsSorted le test xs h.1)
  ]

  pub IsSorted-IsOrdered :
      (le : A → A → Bool) (R : A → A → Type 0)
      → ((a b : A) → le a b ≡ true → R a b)
      → (l : List A) → IsSorted le l
      → IsOrdered R l
  IsSorted-IsOrdered le R sound [] s = tt
  IsSorted-IsOrdered le R sound (x ∷ xs) s =
      (All-map (sound x) xs s.0, IsSorted-IsOrdered le R sound xs s.1)
