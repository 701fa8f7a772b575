-- ===== src/Pods/Split/Insertion.antt =====
-- A sort.Sort (as internal/controller/nodeset/utils/sort.go calls it) that meets what is asked of
-- it: insertion sort.
use mathlib.Core.List.Perm
use gce_hackathon.Prelude.{
  IsWeakOn, ◌≡◌, inl, inr, Bool, false, List, [], ◌∷◌, Perm, All, Bool-cases, if◌then◌else◌, arith,
}
use gce_hackathon.Objects.{Pod}
use gce_hackathon.Pods.Split.{Sorted, Sorter}

module _ (less : Pod → Pod → Bool) where
  insert_sorted : Pod → List Pod → List Pod
  insert_sorted x [] = x ∷ []
  insert_sorted x (y ∷ ys) =
      let rest = insert_sorted x ys in if less y x then y ∷ rest else x ∷ y ∷ ys

  pub insertion_sort : List Pod → List Pod
  unfolding insert_sorted
  insertion_sort [] = []
  insertion_sort (x ∷ xs) = insert_sorted x (insertion_sort xs)

  insert_sorted-perm : (x : Pod) (ys : List Pod) → Perm (insert_sorted x ys) (x ∷ ys)
  unfolding insert_sorted
  insert_sorted-perm x [] = Perm.refl (x ∷ [])
  insert_sorted-perm x (y ∷ ys) = elim (Bool-cases (less y x)) [
    | inl before ↦
        rw (before, insert_sorted)
          (Perm.trans (Perm.cons y (insert_sorted-perm x ys)) (Perm.swap x y ys))
    | inr after ↦ rw (after, insert_sorted) (Perm.refl (x ∷ y ∷ ys))
  ]

  pub insertion_sort-perm : (xs : List Pod) → Perm (insertion_sort xs) xs
  unfolding insertion_sort
  insertion_sort-perm [] = Perm.nil
  insertion_sort-perm (x ∷ xs) =
      Perm.trans (insert_sorted-perm x (insertion_sort xs)) (Perm.cons x (insertion_sort-perm xs))

  All-insert_sorted :
      (P : Pod → Type 0) (x : Pod) (ys : List Pod) → P x → All P ys → All P (insert_sorted x ys)
  unfolding insert_sorted
  All-insert_sorted P x [] px h = (px, tt)
  All-insert_sorted P x (y ∷ ys) px h = elim (Bool-cases (less y x)) [
    | inl before ↦ rw (before, insert_sorted) (h.0, All-insert_sorted P x ys px h.1)
    | inr after ↦ rw (after, insert_sorted) (px, h)
  ]

  All-insertion_sort : (P : Pod → Type 0) (xs : List Pod) → All P xs → All P (insertion_sort xs)
  unfolding insertion_sort
  All-insertion_sort P [] h = tt
  All-insertion_sort P (x ∷ xs) h =
      All-insert_sorted P x (insertion_sort xs) h.0 (All-insertion_sort P xs h.1)

  module _ (on : Pod → Type 0) (weak : IsWeakOn on less) where
    not-less-All :
        (x y : Pod) (ys : List Pod)
        → on x
        → on y
        → All on ys
        → less y x ≡ false
        → All (λ z. less z y ≡ false) ys
        → All (λ z. less z x ≡ false) ys
    not-less-All x y [] hx hy h e s = tt
    not-less-All x y (z ∷ ys) hx hy h e s =
        (ground (arith, weak.cotrans z y x h.0 hy hx), not-less-All x y ys hx hy h.1 e s.1)

    Sorted-insert_sorted :
        (x : Pod) (ys : List Pod)
        → on x
        → All on ys
        → Sorted less ys
        → Sorted less (insert_sorted x ys)
    unfolding insert_sorted
    Sorted-insert_sorted x [] hx h s = (tt, tt)
    Sorted-insert_sorted x (y ∷ ys) hx h s = elim (Bool-cases (less y x)) [
      | inl before ↦
          rw (before, insert_sorted)
            (
              All-insert_sorted (λ z. less z y ≡ false) x ys (weak.asym y x h.0 hx before) s.0,
              Sorted-insert_sorted x ys hx h.1 s.1,
            )
      | inr after ↦ rw (after, insert_sorted) ((after, not-less-All x y ys hx h.0 h.1 after s.0), s)
    ]

    pub Sorted-insertion_sort : (xs : List Pod) → All on xs → Sorted less (insertion_sort xs)
    unfolding insertion_sort
    Sorted-insertion_sort [] h = tt
    Sorted-insertion_sort (x ∷ xs) h =
        Sorted-insert_sorted x (insertion_sort xs) h.0 (All-insertion_sort on xs h.1)
          (Sorted-insertion_sort xs h.1)

unfoldable pub insertion_sorter : Sorter
unfolding insertion_sort
insertion_sorter = record {
  sort = insertion_sort;
  sort_perm = insertion_sort-perm;
  sort_sorted = λ on less xs weak h. Sorted-insertion_sort less on weak xs h;
}
