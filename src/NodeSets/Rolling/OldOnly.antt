-- ===== src/NodeSets/Rolling/OldOnly.antt =====
-- syncRollingUpdate (internal/controller/nodeset/nodeset_sync.go) calls splitUpdatePods on old Pods
-- alone: what becomes of the Pods that are allowed to be unavailable.
use gce_hackathon.Prelude.{
  ℕ, ◌+◌, min, ℤ, pos, ◌≡◌, refl, ap, Bool, not, Option, List, [], ◌∷◌, Bytes, length, count,
  count-append, count-not, count-perm, arith,
}
use gce_hackathon.Objects.{Pod, NodeSet, UpdateStrategy, IntOrString}
use gce_hackathon.Pods.{PodUtil, is_terminating, is_healthy}
use gce_hackathon.Pods.Split.{Sorter, split_unhealthy_pods}
use gce_hackathon.Pods.Split.Parts.{split_unhealthy_pods_lem}
use gce_hackathon.NodeSets.Rolling.{
  find_updated_pods, max_unavailable_pods, split_by, split_rolling, split_update_pods,
  pods_to_replace,
}
use gce_hackathon.NodeSets.Rolling.Budget.{is_current, old-is_old, split_rolling-budget}

old-is_standing :
    (pods : List Pod) (hash : Bytes) → count is_terminating (find_updated_pods pods hash).1 ≡ 0
unfolding find_updated_pods
old-is_standing [] hash = refl
old-is_standing (p ∷ ps) hash = ground (arith, old-is_standing ps hash)

-- Of Pods that are all old and none terminating, none is new and all are old.
old_only :
    (pods : List Pod) (hash : Bytes)
    → count is_terminating pods ≡ 0
    → count (is_current hash) pods ≡ 0
    → find_updated_pods pods hash ≡ ([], pods)
unfolding find_updated_pods
old_only [] hash standing old = refl
old_only (p ∷ ps) hash standing old = ground (arith, old_only ps hash)

abbrev unavailable : PodUtil → NodeSet → ℕ → Pod → Bool
unavailable u s now p = not (u.is_pod_available p s.min_ready_seconds now)

module _ (u : PodUtil) (parse_time : Bytes → Option ℕ) (sorter : Sorter)
    (scaled_value : Option IntOrString → ℤ → Bool → Option ℤ) (s : NodeSet) (now : ℕ)
    (pods : List Pod) (hash : Bytes) where
  abbrev pub healthy_old : List Pod
  healthy_old = (split_unhealthy_pods u sorter (find_updated_pods pods hash).1).1

  healthy_old-old : find_updated_pods healthy_old hash ≡ ([], healthy_old)
  healthy_old-old =
      let old_pods = (find_updated_pods pods hash).1 in
      let unhealthy = (split_unhealthy_pods u sorter old_pods).0 in
      let parts = (split_unhealthy_pods_lem u sorter old_pods).0 in
      old_only healthy_old hash
        (omega (
          arith,
          count-perm is_terminating parts,
          count-append is_terminating unhealthy healthy_old,
          old-is_standing pods hash,
        ))
        (omega (
          arith,
          count-perm (is_current hash) parts,
          count-append (is_current hash) unhealthy healthy_old,
          old-is_old pods hash,
        ))

  split_by-rolling :
      (strategy : UpdateStrategy)
      → strategy ≡ UpdateStrategy.rolling_update
      → split_by u parse_time sorter scaled_value strategy s now healthy_old hash
        ≡ split_rolling u parse_time sorter scaled_value s now healthy_old hash
  split_by-rolling UpdateStrategy.rolling_update h = refl
  split_by-rolling UpdateStrategy.unspecified h = refl
  split_by-rolling UpdateStrategy.on_delete h = cc

  -- With the strategy RollingUpdate and a maximum of `m` unavailable Pods, syncRollingUpdate has, besides
  -- the Pods of the first list of SplitUnhealthyPods, `m` of the old Pods of the second for doPodScale
  -- to give up (or all, where these are fewer), however many new Pods are unavailable: no new Pod is
  -- among those that it gives to splitUpdatePods.
  pub rolling_update-full :
      {m : ℕ}
      → s.update_strategy ≡ UpdateStrategy.rolling_update
      → max_unavailable_pods u parse_time sorter scaled_value s healthy_old ≡ pos m
      → length (pods_to_replace u parse_time sorter scaled_value s now pods hash).1
        ≡ min m (length healthy_old)
  unfolding pods_to_replace split_update_pods
  rolling_update-full {m} strategy h = rw (split_by-rolling s.update_strategy strategy) (
      omega (
        arith,
        split_rolling-budget u parse_time sorter scaled_value s now healthy_old hash h,
        ap (λ r. count (unavailable u s now) r.0) healthy_old-old,
        ap (λ r. length r.1) healthy_old-old,
      ))

  -- The unhealthy and the healthy old Pods are all old Pods.
  pub healthy_old-length :
      length (pods_to_replace u parse_time sorter scaled_value s now pods hash).0
        + length healthy_old
      ≡ length (find_updated_pods pods hash).1
  unfolding pods_to_replace
  healthy_old-length =
      let parts = split_unhealthy_pods_lem u sorter (find_updated_pods pods hash).1 in
      omega (arith, parts.1, parts.2, count-not (is_healthy u) (find_updated_pods pods hash).1)
