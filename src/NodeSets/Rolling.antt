-- ===== src/NodeSets/Rolling.antt =====
-- internal/controller/nodeset/nodeset_sync.go: which Pods a rolling update replaces.
pub mod Budget
pub mod OldOnly
use gce_hackathon.Prelude.{
  ℕ, ℤ, pos, ◌-ℤ◌, Bool, true, false, not, ◌&&◌, Option, none, some, List, [], ◌∷◌, ◌++◌, Bytes,
  bytes_eq, lookup, or_empty, length, count, keep, if◌then◌else◌,
}
use gce_hackathon.Objects.{Pod, NodeSet, ScalingMode, UpdateStrategy, IntOrString, default_replicas}
use gce_hackathon.Objects.Keys.{label_revision_hash}
use gce_hackathon.Mathutils.{clamp, get_scaled_value_from_int_or_percent}
use gce_hackathon.Pods.{PodUtil, is_terminating}
use gce_hackathon.Pods.Split.{Sorter, split_active_pods, split_unhealthy_pods}

-- historycontrol.GetRevision, of a Pod's labels.
unfoldable pub get_revision : List (Bytes × Bytes) → Bytes
get_revision labels = or_empty (lookup label_revision_hash labels)

-- findUpdatedPods: of the Pods that are not terminating, those of the revision and the others.
unfoldable pub find_updated_pods : List Pod → Bytes → List Pod × List Pod
find_updated_pods [] hash = ([], [])
find_updated_pods (p ∷ ps) hash =
    let (new_pods, old_pods) = find_updated_pods ps hash in
    if is_terminating p
    then (new_pods, old_pods)
    else if bytes_eq (get_revision p.labels) hash
    then (p ∷ new_pods, old_pods)
    else (new_pods, p ∷ old_pods)

abbrev pub deref : ℤ → Option ℤ → ℤ
deref d none = d
deref d (some v) = v

abbrev pub is_daemonset : ScalingMode → Bool
is_daemonset ScalingMode.daemonset = true
is_daemonset _ = false

-- The parameters are what the code takes from Kubernetes and the standard library: the readiness
-- of Pods, the parser of times, sort.Sort, and the scaling of a number or percentage.
module _ (u : PodUtil) (parse_time : Bytes → Option ℕ) (sorter : Sorter)
    (scaled_value : Option IntOrString → ℤ → Bool → Option ℤ) where
  abbrev pub total_pods : NodeSet → List Pod → ℤ
  total_pods s pods =
      if is_daemonset s.scaling_mode then pos (length pods) else deref default_replicas s.replicas

  abbrev pub max_unavailable_pods : NodeSet → List Pod → ℤ
  max_unavailable_pods s pods =
      get_scaled_value_from_int_or_percent scaled_value s.max_unavailable (total_pods s pods) true
        (pos 1)

  abbrev pub num_unavailable : NodeSet → ℕ → List Pod → ℕ
  num_unavailable s now new_pods =
      count (λ p. not (u.is_pod_available p s.min_ready_seconds now)) new_pods

  -- The case of a rolling update.
  unfoldable pub split_rolling : NodeSet → ℕ → List Pod → Bytes → List Pod × List Pod
  split_rolling s now pods hash =
      let (new_pods, old_pods) = find_updated_pods pods hash in
      let max_unavailable = max_unavailable_pods s pods in
      let remaining_unavailable =
        clamp (max_unavailable -ℤ pos (num_unavailable s now new_pods)) (pos 0) max_unavailable in
      let (pods_to_delete, remaining_old) =
        split_active_pods u parse_time sorter old_pods remaining_unavailable in
      (pods_to_delete, new_pods ++ remaining_old)

  abbrev pub split_by : UpdateStrategy → NodeSet → ℕ → List Pod → Bytes → List Pod × List Pod
  split_by UpdateStrategy.on_delete s now pods hash = ([], [])
  split_by _ s now pods hash = split_rolling s now pods hash

  -- splitUpdatePods: the Pods to delete, and the Pods to keep.
  unfoldable pub split_update_pods : NodeSet → ℕ → List Pod → Bytes → List Pod × List Pod
  unfolding split_rolling
  split_update_pods s now pods hash = split_by s.update_strategy s now pods hash

  -- What syncRollingUpdate gives to doPodScale, one list after the other: of the old Pods, the first
  -- list of SplitUnhealthyPods, and what splitUpdatePods selects of the second.
  unfoldable pub pods_to_replace : NodeSet → ℕ → List Pod → Bytes → List Pod × List Pod
  unfolding split_update_pods
  pods_to_replace s now pods hash =
      let (unhealthy_pods, healthy_pods) =
        split_unhealthy_pods u sorter (find_updated_pods pods hash).1 in
      (unhealthy_pods, (split_update_pods s now healthy_pods hash).0)
