-- ===== src/Pods/Split.antt =====
-- internal/controller/nodeset/utils/sort.go: SplitActivePods, ExcludePods and SplitUnhealthyPods.
-- They sort the slice of their caller in place; no caller uses that slice afterwards.
pub mod Parts
pub mod Insertion
use gce_hackathon.Prelude.{
  IsWeakOn, ℕ, ◌-◌, ℤ, pos, pos_part, ◌≡◌, Bool, true, false, not, Option, List, [], ◌∷◌, Perm,
  Bytes, bytes_eq, length, take, drop, keep, count, any, All,
}
use gce_hackathon.Objects.{Pod}
use gce_hackathon.Mathutils.{clamp}
use gce_hackathon.Pods.{PodUtil, is_healthy}
use gce_hackathon.Pods.Order.{active_less, created_less}

-- Nothing is less than what stands before it.
abbrev pub Sorted : (Pod → Pod → Bool) → List Pod → Type 0
Sorted less [] = Unit
Sorted less (x ∷ xs) = All (λ y. less y x ≡ false) xs × Sorted less xs

-- sort.Sort of the standard library: it reorders the elements, and by a strict weak order it
-- sorts them.
pub record Sorter : Type 1 where
  pub sort : (Pod → Pod → Bool) → List Pod → List Pod
  pub sort_perm : (less : Pod → Pod → Bool) (xs : List Pod) → Perm (sort less xs) xs
  pub sort_sorted :
      (on : Pod → Type 0) (less : Pod → Pod → Bool) (xs : List Pod)
      → IsWeakOn on less
      → All on xs
      → Sorted less (sort less xs)

module _ (u : PodUtil) (parse_time : Bytes → Option ℕ) (sorter : Sorter) where
  -- SplitActivePods: the pods to give up first, then the others.
  unfoldable pub split_active_pods : List Pod → ℤ → List Pod × List Pod
  split_active_pods pods partition =
      let pivot = pos_part (clamp partition (pos 0) (pos (length pods))) in
      let sorted = sorter.sort (active_less u parse_time) pods in
      (take pivot sorted, drop pivot sorted)

module _ (u : PodUtil) (sorter : Sorter) where
  -- SplitUnhealthyPods: the unhealthy pods are counted, but the lists are cut from the pods in the
  -- order of their creation.
  unfoldable pub split_unhealthy_pods : List Pod → List Pod × List Pod
  split_unhealthy_pods pods =
      let num_unhealthy = count (λ p. not (is_healthy u p)) pods in
      let sorted = sorter.sort created_less pods in
      (take num_unhealthy sorted, drop num_unhealthy sorted)

-- `excludeSet.Has`, of the set of the UIDs.
abbrev pub has_uid : List Pod → Bytes → Bool
has_uid exclude uid = any (λ q. bytes_eq q.uid uid) exclude

unfoldable pub exclude_pods : List Pod → List Pod → List Pod
exclude_pods pods [] = pods
exclude_pods pods (e ∷ es) = keep (λ p. not (has_uid (e ∷ es) p.uid)) pods
