-- ===== src/Pods/Split/Parts.antt =====
-- What SplitActivePods, SplitUnhealthyPods and ExcludePods
-- (internal/controller/nodeset/utils/sort.go) return.
use mathlib.Core.List.Perm
use mathlib.Core.Logic.{◌∨₁◌}
use mathlib.Core.Logic.Or
use mathlib.Core.HLevel.{⊥_prop}
use mathlib.Core.List.{mem-append}
use gce_hackathon.Prelude.{
  ℕ, zero, suc, ◌<◌, min, ℤ, pos, pos_part, ◌≡◌, refl, subst, sym, ap, inl, inr, Bool, true, false,
  not, Option, List, [], ◌∷◌, ◌++◌, Perm, Bytes, bytes_eq, length, take, drop, keep, count, All,
  all, Mem, All-mem, All-All-mem, All-of_all, All-of_count, count-perm, count-append, count-all,
  Bool-cases, bytes_eq_sound, length-drop, count-not, take-append-drop, length-take, length-perm,
  arith, count-le-length, if◌then◌else◌,
}
use gce_hackathon.Objects.{Pod}
use gce_hackathon.Mathutils.{clamp, pos_part-clamp}
use gce_hackathon.Pods.{PodUtil, is_healthy}
use gce_hackathon.Pods.Order.{active_less, created_less}
use gce_hackathon.Pods.Order.Weak.{Everything, created_less-IsWeakOn}
use gce_hackathon.Pods.Order.Cordon.{NotCordoned, active_less-IsWeakOn}
use gce_hackathon.Pods.Split.{
  Sorted, Sorter, split_active_pods, split_unhealthy_pods, has_uid, exclude_pods,
}

All-drop : (P : Pod → Type 0) (n : ℕ) (xs : List Pod) → All P xs → All P (drop n xs)
All-drop P zero xs h = h
All-drop P (suc n) [] h = h
All-drop P (suc n) (x ∷ xs) h = All-drop P n xs h.1

Sorted-split :
    (less : Pod → Pod → Bool) (n : ℕ) (xs : List Pod)
    → Sorted less xs
    → All (λ x. All (λ y. less y x ≡ false) (drop n xs)) (take n xs)
Sorted-split less zero xs h = tt
Sorted-split less (suc n) [] h = tt
Sorted-split less (suc n) (x ∷ xs) h =
    (All-drop (λ y. less y x ≡ false) n xs h.0, Sorted-split less n xs h.1)

take-drop-perm : (n : ℕ) (xs : List Pod) → Perm (take n xs ++ drop n xs) xs
take-drop-perm n xs = subst (λ ys. Perm ys xs) (sym (take-append-drop n xs)) (Perm.refl xs)

module _ (u : PodUtil) (parse_time : Bytes → Option ℕ) (sorter : Sorter) where
  -- SplitActivePods loses no pod and makes none up, and the first list has the length asked for,
  -- as far as there are pods.
  pub split_active_pods_lem :
      (pods : List Pod) (partition : ℤ)
      → let (first, second) = split_active_pods u parse_time sorter pods partition in
        Perm (first ++ second) pods × (length first ≡ min (pos_part partition) (length pods))
  unfolding split_active_pods
  split_active_pods_lem pods partition =
      let pivot = pos_part (clamp partition (pos 0) (pos (length pods))) in
      let sorted = sorter.sort (active_less u parse_time) pods in
      let perm = sorter.sort_perm (active_less u parse_time) pods in
      (
        Perm.trans (take-drop-perm pivot sorted) perm,
        omega (
          arith,
          length-take pivot sorted,
          length-perm perm,
          pos_part-clamp partition (length pods),
        ),
      )

  -- Where no pod has a cordon request, no pod of the second list is to be given up before a pod of
  -- the first.
  pub split_active_pods-order :
      (pods : List Pod) (partition : ℤ)
      → All NotCordoned pods
      → let (first, second) = split_active_pods u parse_time sorter pods partition in
        All (λ x. All (λ y. active_less u parse_time y x ≡ false) second) first
  unfolding split_active_pods
  split_active_pods-order pods partition calm =
      Sorted-split _ (pos_part (clamp partition (pos 0) (pos (length pods)))) _ (
        sorter.sort_sorted NotCordoned (active_less u parse_time) pods
          (active_less-IsWeakOn u parse_time) calm)

All-Everything : (xs : List Pod) → All Everything xs
All-Everything [] = tt
All-Everything (x ∷ xs) = (tt, All-Everything xs)

older-first : (p q : Pod) → p.creation_timestamp < q.creation_timestamp → created_less p q ≡ true
unfolding created_less
older-first p q h = ground arith

-- If the first `n` of a sorted list with `n` unhealthy pods are the unhealthy ones, then no healthy
-- pod is older than an unhealthy one.
Sorted-cut :
    (u : PodUtil) (xs : List Pod) (n : ℕ)
    → Sorted created_less xs
    → count (λ p. not (is_healthy u p)) xs ≡ n
    → (sick well : Pod) → Mem sick xs
    → Mem well xs
    → is_healthy u sick ≡ false
    → is_healthy u well ≡ true
    → well.creation_timestamp < sick.creation_timestamp
    → ¬ (all (λ p. not (is_healthy u p)) (take n xs) ≡ true)
Sorted-cut u xs n s c sick well ms mw hs hw older h =
    Or.elim ⊥_prop (side ms)
      (λ sick_first.
        Or.elim ⊥_prop (side mw)
          (λ well_first. cc (All-mem unhealthy true (take n xs) firsts well_first, hw))
          (λ well_second. cc (
            All-All-mem created_less false (take n xs) (drop n xs)
                (Sorted-split created_less n xs s) sick_first well_second,
            older-first well sick older,
          )))
      (λ sick_second. cc (All-mem unhealthy false (drop n xs) seconds sick_second, hs))
  where
    unhealthy : Pod → Bool
    unhealthy p = not (is_healthy u p)

    side : {x : Pod} → Mem x xs → Mem x (take n xs) ∨₁ Mem x (drop n xs)
    side {x} m = mem-append.0 (subst (Mem x) (sym (take-append-drop n xs)) m)

    firsts : All (λ p. unhealthy p ≡ true) (take n xs)
    firsts = All-of_all unhealthy (take n xs) h

    seconds : All (λ p. unhealthy p ≡ false) (drop n xs)
    seconds = All-of_count unhealthy (drop n xs) (
        omega (
          arith,
          c,
          count-le-length unhealthy xs,
          count-append unhealthy (take n xs) (drop n xs),
          ap (count unhealthy) (take-append-drop n xs),
          count-all unhealthy (take n xs) h,
          length-take n xs,
        ))

module _ (u : PodUtil) (sorter : Sorter) where
  -- SplitUnhealthyPods loses no pod and makes none up, and the first list has as many pods as are
  -- unhealthy.
  pub split_unhealthy_pods_lem :
      (pods : List Pod)
      → let (unhealthy, healthy) = split_unhealthy_pods u sorter pods in
        Perm (unhealthy ++ healthy) pods
        × (length unhealthy ≡ count (λ p. not (is_healthy u p)) pods)
        × (length healthy ≡ count (is_healthy u) pods)
  unfolding split_unhealthy_pods
  split_unhealthy_pods_lem pods =
      let n = count (λ p. not (is_healthy u p)) pods in
      let sorted = sorter.sort created_less pods in
      let perm = sorter.sort_perm created_less pods in
      (
        Perm.trans (take-drop-perm n sorted) perm,
        omega (
          arith,
          length-take n sorted,
          length-perm perm,
          count-le-length (λ p. not (is_healthy u p)) pods,
        ),
        omega (arith, length-drop n sorted, length-perm perm, count-not (is_healthy u) pods),
      )

  -- But it is not the unhealthy pods that stand on the first list: where some healthy pod was
  -- created before some unhealthy one, a healthy pod is on the first list.
  pub split_unhealthy_pods_mixes :
      (pods : List Pod) (sick well : Pod)
      → Mem sick pods
      → Mem well pods
      → is_healthy u sick ≡ false
      → is_healthy u well ≡ true
      → well.creation_timestamp < sick.creation_timestamp
      → all (λ p. not (is_healthy u p)) (split_unhealthy_pods u sorter pods).0 ≡ false
  unfolding split_unhealthy_pods
  split_unhealthy_pods_mixes pods sick well ms mw hs hw older = elim (Bool-cases _) [
    | inl unhealthy ↦
        let sorted = sorter.sort created_less pods in
        let perm = sorter.sort_perm created_less pods in
        absurd (
          Sorted-cut u sorted _
            (sorter.sort_sorted Everything created_less pods created_less-IsWeakOn
              (All-Everything pods))
            (count-perm (λ p. not (is_healthy u p)) perm) sick well ((Perm.mem_iff perm).1 ms)
            ((Perm.mem_iff perm).1 mw) hs hw older unhealthy)
    | inr mixed ↦ mixed
  ]

count-keep_none :
    (p q : Pod → Bool) (xs : List Pod)
    → ((x : Pod) → q x ≡ true → p x ≡ false)
    → count q (keep p xs) ≡ 0
count-keep_none p q [] h = refl
count-keep_none p q (x ∷ xs) h = ground (arith, h x, count-keep_none p q xs h)

count-keep :
    (p q : Pod → Bool) (xs : List Pod)
    → ((x : Pod) → q x ≡ true → p x ≡ true)
    → count q (keep p xs) ≡ count q xs
count-keep p q [] h = refl
count-keep p q (x ∷ xs) h = ground (arith, h x, count-keep p q xs h)

exclude_pods-keep :
    (pods exclude : List Pod)
    → exclude_pods pods exclude ≡ keep (λ p. not (has_uid exclude p.uid)) pods
unfolding exclude_pods
exclude_pods-keep [] [] = refl
exclude_pods-keep (p ∷ ps) [] = ap (◌∷◌ p) (exclude_pods-keep ps [])
exclude_pods-keep ps (e ∷ es) = refl

-- ExcludePods keeps of each UID all its pods, or none if a pod to be excluded has that UID.
pub count-exclude_pods :
    (pods exclude : List Pod) (uid : Bytes)
    → count (λ p. bytes_eq p.uid uid) (exclude_pods pods exclude)
      ≡ (if has_uid exclude uid then 0 else count (λ p. bytes_eq p.uid uid) pods)
count-exclude_pods pods exclude uid = elim (Bool-cases (has_uid exclude uid)) [
  | inl out ↦
      rw (exclude_pods-keep pods exclude, out)
        (count-keep_none _ (λ p. bytes_eq p.uid uid) pods
          (λ p e. rw (bytes_eq_sound p.uid uid e, out)))
  | inr kept ↦
      rw (exclude_pods-keep pods exclude, kept)
        (count-keep _ (λ p. bytes_eq p.uid uid) pods (λ p e. rw (bytes_eq_sound p.uid uid e, kept)))
]
