-- ===== src/Examples/Choices.antt =====
-- Examples of the choice of Pods: their order and the splitting of lists of them
-- (internal/controller/nodeset/utils/sort.go), and rolling updates, new ordinals and Pods per node
-- (internal/controller/nodeset/nodeset_sync.go).
use mathlib.Core.List.{Memᴰ}
use gce_hackathon.Prelude.{
  ℕ, suc, ltb, ◌-◌, min, pos, pos_part, ◌≡◌, refl, true, false, not, [], ◌∷◌, ◌++◌, some, Perm, Mem,
  codes, bytes_eq, length, map, keep, count, all, All, IsWeakOn, arith,
}
use gce_hackathon.Mathutils.{get_scaled_value_from_int_or_percent}
use gce_hackathon.Pods.{is_healthy, is_terminating}
use gce_hackathon.Pods.Annotations.{get_bool_from_annotations}
use gce_hackathon.Pods.Order.{active_less, cordon_requested}
use gce_hackathon.Pods.Order.Cordon.{NotCordoned, active_less_self, active_less-IsWeakOn}
use gce_hackathon.Pods.Split.{split_active_pods, split_unhealthy_pods}
use gce_hackathon.Pods.Split.Parts.{
  split_active_pods_lem, split_active_pods-order, split_unhealthy_pods_lem,
  split_unhealthy_pods_mixes,
}
use gce_hackathon.Pods.Split.Insertion.{insertion_sorter}
use gce_hackathon.Names.{get_ordinal}
use gce_hackathon.NodeSets.Ordinals.{ordinals_to_create}
use gce_hackathon.NodeSets.Ordinals.Fresh.{Fresh, ordinals_to_create-Fresh}
use gce_hackathon.NodeSets.Rolling.{
  find_updated_pods, max_unavailable_pods, num_unavailable, split_rolling, pods_to_replace,
}
use gce_hackathon.NodeSets.Rolling.Budget.{is_current, split_rolling-parts, split_rolling-budget}
use gce_hackathon.NodeSets.Rolling.OldOnly.{healthy_old, rolling_update-full}
use gce_hackathon.NodeSets.Daemon.{Backoff, all_but_first, pods_should_be_on_node}
use gce_hackathon.NodeSets.Daemon.Single.{
  KeepsOne, all_but_first-scale_in, pods_should_be_on_node-KeepsOne,
}
use gce_hackathon.Examples.{
  readiness, no_times, healthy_pod, sick_pod, cordoned_pod, two_pods, node_set, no_scaling, host,
}

split_active_pods_lem_example :
    let (first, second) = split_active_pods readiness no_times insertion_sorter two_pods (pos 1) in
    Perm (first ++ second) two_pods × (length first ≡ min (pos_part (pos 1)) (length two_pods))
split_active_pods_lem_example =
    split_active_pods_lem readiness no_times insertion_sorter two_pods (pos 1)

two_calm : All NotCordoned two_pods
unfolding cordon_requested get_bool_from_annotations
two_calm = (refl, (refl, tt))

split_active_pods-order_example :
    let (first, second) = split_active_pods readiness no_times insertion_sorter two_pods (pos 1) in
    All (λ x. All (λ y. active_less readiness no_times y x ≡ false) second) first
split_active_pods-order_example =
    split_active_pods-order readiness no_times insertion_sorter two_pods (pos 1) two_calm

split_unhealthy_pods_lem_example :
    let (unhealthy, healthy) = split_unhealthy_pods readiness insertion_sorter two_pods in
    Perm (unhealthy ++ healthy) two_pods
    × (length unhealthy ≡ count (λ p. not (is_healthy readiness p)) two_pods)
    × (length healthy ≡ count (is_healthy readiness) two_pods)
split_unhealthy_pods_lem_example = split_unhealthy_pods_lem readiness insertion_sorter two_pods

sick_is_unhealthy : is_healthy readiness sick_pod ≡ false
unfolding is_healthy
sick_is_unhealthy = refl

healthy_is_healthy : is_healthy readiness healthy_pod ≡ true
unfolding is_healthy bytes_eq
healthy_is_healthy = refl

sick_is_there : Mem sick_pod two_pods
sick_is_there = ∣ Memᴰ.tail (Memᴰ.head refl) ∣₁

healthy_is_there : Mem healthy_pod two_pods
healthy_is_there = ∣ Memᴰ.head refl ∣₁

split_unhealthy_pods_mixes_example :
    all
      (λ p. not (is_healthy readiness p))
      (split_unhealthy_pods readiness insertion_sorter two_pods).0
    ≡ false
split_unhealthy_pods_mixes_example =
    split_unhealthy_pods_mixes readiness insertion_sorter two_pods sick_pod healthy_pod
      sick_is_there healthy_is_there sick_is_unhealthy healthy_is_healthy (omega arith)

active_less_self_example :
    active_less readiness no_times cordoned_pod cordoned_pod ≡ cordon_requested cordoned_pod
active_less_self_example = active_less_self readiness no_times cordoned_pod

active_less-IsWeakOn_example : IsWeakOn NotCordoned (active_less readiness no_times)
active_less-IsWeakOn_example = active_less-IsWeakOn readiness no_times

ordinals_to_create-Fresh_example :
    Fresh 3 (map get_ordinal two_pods) 0 (ordinals_to_create 3 two_pods)
ordinals_to_create-Fresh_example = ordinals_to_create-Fresh 3 two_pods

next_ordinals : ordinals_to_create 3 two_pods ≡ 2 ∷ 3 ∷ 4 ∷ []
unfolding ordinals_to_create get_ordinal
next_ordinals = refl

split_rolling-parts_example :
    let (to_delete, to_keep) =
      split_rolling readiness no_times insertion_sorter no_scaling node_set 0 two_pods
        (codes "new") in
    Perm (to_delete ++ to_keep) (keep (λ p. not (is_terminating p)) two_pods)
    × (count (is_current (codes "new")) to_delete ≡ 0)
split_rolling-parts_example =
    split_rolling-parts readiness no_times insertion_sorter no_scaling node_set 0 two_pods
      (codes "new")

one_unavailable :
    max_unavailable_pods readiness no_times insertion_sorter no_scaling node_set two_pods ≡ pos 1
unfolding get_scaled_value_from_int_or_percent
one_unavailable = refl

split_rolling-budget_example :
    let (new_pods, old_pods) = find_updated_pods two_pods (codes "new") in
    length
      (split_rolling readiness no_times insertion_sorter no_scaling node_set 0 two_pods
        (codes "new")).0
    ≡ min
        (1 - num_unavailable readiness no_times insertion_sorter no_scaling node_set 0 new_pods)
        (length old_pods)
split_rolling-budget_example =
    split_rolling-budget readiness no_times insertion_sorter no_scaling node_set 0 two_pods
      (codes "new") {m = 1} one_unavailable

rolling_update-full_example :
    length
      (pods_to_replace readiness no_times insertion_sorter no_scaling node_set 0 two_pods
        (codes "new")).1
    ≡ min 1 (
        length (
          healthy_old readiness no_times insertion_sorter no_scaling node_set 0 two_pods
            (codes "new")))
unfolding get_scaled_value_from_int_or_percent
rolling_update-full_example =
    rolling_update-full readiness no_times insertion_sorter no_scaling node_set 0 two_pods
      (codes "new") {m = 1} refl refl

-- A backoff that counts, and holds after the first operation.
abbrev counting : Backoff
counting = record {
  State = ℕ;
  is_in_backoff = λ n key. ltb 0 n;
  get = λ n key. pos n;
  next = λ n key. suc n;
}

all_but_first-scale_in_example :
    all_but_first counting (codes "k") readiness no_times insertion_sorter two_pods
    ≡ (split_active_pods readiness no_times insertion_sorter two_pods (pos 1)).1
all_but_first-scale_in_example =
    all_but_first-scale_in counting (codes "k") readiness no_times insertion_sorter two_pods

pods_should_be_on_node-KeepsOne_example :
    KeepsOne two_pods
      (pods_should_be_on_node counting
        (codes "k")
        readiness
        no_times
        insertion_sorter
        true
        true
        host
        (some two_pods)
        0).1
pods_should_be_on_node-KeepsOne_example =
    pods_should_be_on_node-KeepsOne counting (codes "k") readiness no_times insertion_sorter true
      host two_pods 0
