-- ===== src/Examples/Sort.antt =====
-- A sort that keeps what the models ask of `qsort`.
use nbs_framework.Common.{
  ◌≡◌, inl, inr, Bool, true, false, List, [], ◌∷◌, arith, if◌then◌else◌, Bool-cases, All-map,
}
use nbs_framework.Common.Sorting.{
  IsPermuted, IsPermuted-refl, IsSorted, IsQsort, All-permuted, IsPermuted-sym,
}
use nbs_framework.Bus.Listing.{event_le}
use nbs_framework.Bus.Upkeep.{prune_le}

module _ {ℓ} {A : Type ℓ} (le : A → A → Bool) where
  unfoldable insert : A → List A → List A
  insert x [] = x ∷ []
  insert x (y ∷ ys) = let rest = insert x ys in if le x y then x ∷ y ∷ ys else y ∷ rest

  unfoldable pub insertion_sort : List A → List A
  unfolding insert
  insertion_sort [] = []
  insertion_sort (x ∷ xs) = insert x (insertion_sort xs)

  insert-IsPermuted : (x : A) (l : List A) → IsPermuted (insert x l) (x ∷ l)
  unfolding insert
  insert-IsPermuted x [] = IsPermuted.cons x IsPermuted.nil
  insert-IsPermuted x (y ∷ ys) = elim (Bool-cases (le x y)) [
    | inl first ↦ rw first (IsPermuted-refl (x ∷ y ∷ ys))
    | inr later ↦
        rw later
          (IsPermuted.trans (IsPermuted.cons y (insert-IsPermuted x ys)) (IsPermuted.swap y x ys))
  ]

  insertion_sort-IsPermuted : (l : List A) → IsPermuted (insertion_sort l) l
  unfolding insertion_sort
  insertion_sort-IsPermuted [] = IsPermuted.nil
  insertion_sort-IsPermuted (x ∷ xs) =
      IsPermuted.trans (insert-IsPermuted x (insertion_sort xs))
        (IsPermuted.cons x (insertion_sort-IsPermuted xs))

  module _ (total : (a b : A) → le a b ≡ false → le b a ≡ true)
      (transitive : (a b c : A) → le a b ≡ true → le b c ≡ true → le a c ≡ true) where
    insert-IsSorted : (x : A) (l : List A) → IsSorted le l → IsSorted le (insert x l)
    unfolding insert
    insert-IsSorted x [] s = (tt, tt)
    insert-IsSorted x (y ∷ ys) (below, s) = elim (Bool-cases (le x y)) [
      | inl first ↦
          rw first ((first, All-map (λ z h. transitive x y z first h) ys below), (below, s))
      | inr later ↦ rw later (
        All-permuted (λ z. le y z ≡ true) (IsPermuted-sym (insert-IsPermuted x ys))
            (total x y later, below),
        insert-IsSorted x ys s,
      )
    ]

    insertion_sort-IsSorted : (l : List A) → IsSorted le (insertion_sort l)
    unfolding insertion_sort
    insertion_sort-IsSorted [] = tt
    insertion_sort-IsSorted (x ∷ xs) =
        insert-IsSorted x (insertion_sort xs) (insertion_sort-IsSorted xs)

    pub insertion_sort-IsQsort : IsQsort le insertion_sort
    insertion_sort-IsQsort = record {
      permuted = insertion_sort-IsPermuted;
      sorted = insertion_sort-IsSorted;
    }

pub events-IsQsort : IsQsort event_le (insertion_sort event_le)
events-IsQsort =
    insertion_sort-IsQsort event_le (λ a b h. unfold event_le in ground (arith, h))
      (λ a b c h k. unfold event_le in ground (arith, h, k))

pub entries-IsQsort : IsQsort prune_le (insertion_sort prune_le)
entries-IsQsort =
    insertion_sort-IsQsort prune_le (λ a b h. unfold prune_le in ground (arith, h))
      (λ a b c h k. unfold prune_le in ground (arith, h, k))
