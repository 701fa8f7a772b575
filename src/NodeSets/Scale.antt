-- ===== src/NodeSets/Scale.antt =====
-- internal/controller/nodeset/nodeset_sync.go: the scaling of a NodeSet, its rolling update and the
-- processing of its Pods. Events and logging are left out.
pub mod Burst
pub mod Replicas
use gce_hackathon.Prelude.{
  ℕ, zero, suc, ◌-◌, ◌<◌, min, ℤ, pos, negsuc, pos_part, ◌-ℤ◌, ltb_ℤ, Bool, true, false, not, ◌&&◌,
  Option, none, some, List, [], ◌∷◌, ◌++◌, map, length, take, keep, Bytes, bytes_eq, lookup,
  or_empty, if◌then◌else◌,
}
use gce_hackathon.Objects.{
  Pod, NodeSet, ScalingMode, UpdateStrategy, IntOrString, scaling_mode_text, default_replicas,
}
use gce_hackathon.Objects.Keys.{label_scaling_mode}
use gce_hackathon.Mathutils.{clamp}
use gce_hackathon.Pods.{PodUtil}
use gce_hackathon.Pods.Split.{Sorter, split_active_pods, split_unhealthy_pods, exclude_pods}
use gce_hackathon.Api.{
  Error, Result, ok, err, get_pod, create_pod, fix_claims, expect_deletions, raise_expectations,
  set_expectations, creation_observed, Trace, World, M, ◌>>=◌, ◌>>◌, return, throw, try_run, send,
}
use gce_hackathon.NodeSets.Batches.{batch, for_each}
use gce_hackathon.NodeSets.Cordon.{sync_pod_uncordon}
use gce_hackathon.NodeSets.Condemn.{pod_key, tell, delete_pod_fn, process_node_set_pod}
use gce_hackathon.NodeSets.Rolling.{deref, split_update_pods, pods_to_replace}
use gce_hackathon.NodeSets.Ordinals.{ordinals_to_create}

abbrev pub burst_replicas : ℤ
burst_replicas = pos 250

-- How many of the Pods of a list one scaling takes.
unfoldable pub burst : List Pod → ℕ
unfolding clamp
burst pods = pos_part (clamp (pos (length pods)) (pos 0) burst_replicas)

abbrev pub repeat : ℕ → (Trace → Trace) → Trace → Trace
repeat zero f t = t
repeat (suc n) f t = f (repeat n f t)

abbrev pub errors_of : Option Error → List Error
errors_of none = []
errors_of (some e) = e ∷ []

abbrev pub failure_of : Result (Unit {0}) → List Error
failure_of (ok _) = []
failure_of (err e) = e ∷ []

-- Of the Pods, those made for another scaling mode, and those made for the mode of the NodeSet.
abbrev is_of_mode : ScalingMode → Pod → Bool
is_of_mode mode p =
    bytes_eq (or_empty (lookup label_scaling_mode p.labels)) (scaling_mode_text mode)

unfoldable pub split_by_mode : ScalingMode → List Pod → List Pod × List Pod
unfolding bytes_eq
split_by_mode mode pods = (keep (λ p. not (is_of_mode mode p)) pods, keep (is_of_mode mode) pods)

-- Get of the client writes into the Pod that a batch is given, which later batches share. `newest w p n t`
-- is the Pod after the last `n` requests of a trace: as the latest of them that read it answered, or as
-- it was. A read that fails leaves it as it is.
abbrev or_older : Pod → Result Pod → Pod
or_older p (ok q) = q
or_older p (err e) = p

abbrev is_key : Bytes → Bytes → Pod → Bool
is_key namespace name p = bytes_eq namespace p.namespace && bytes_eq name p.name

unfoldable pub newest : World → Pod → ℕ → Trace → Pod
unfolding bytes_eq
newest w p zero t = p
newest w p (suc n) [] = p
newest w p (suc n) (get_pod namespace name ∷ t) =
    let older = newest w p n t in
    if is_key namespace name p then or_older older (w.read_pod t namespace name) else older
newest w p (suc n) (q ∷ t) = newest w p n t

-- A run, with its result and the Pods as they are after it.
unfoldable pub read_again : World → List Pod → M (Unit {0}) → M (Result (Unit {0}) × List Pod)
unfolding newest
read_again w pods m t =
    let (r, t1) = m t in (ok (r, map (λ p. newest w p (length t1 - length t) t1) pods), t1)

-- `new_aggregate` is NewAggregate of Kubernetes, of at least one error; `order` is the order in
-- which the calls of a batch take effect.
module _ (w : World) (print_object : Pod → Bytes) (order : ℕ → ℕ → List ℕ)
    (new_aggregate : Error → List Error → Error) where
  abbrev pub aggregate : List Error → M (Unit {0})
  aggregate [] = return tt
  aggregate (e ∷ es) = throw (new_aggregate e es)

  abbrev unless_terminating : Result (Unit {0}) → M (Unit {0})
  unless_terminating (ok _) = return tt
  unless_terminating (err e) = if e.namespace_terminating then return tt else throw e

  -- createPodFn. What CreateNodeSetPod does is one request.
  unfoldable pub create_pod_fn : Pod → M (Unit {0})
  create_pod_fn p = try_run (send w (create_pod p)) >>= unless_terminating

  -- fixPodPVCsFn: one request.
  unfoldable pub fix_pod_pvcs_fn : Pod → M (Unit {0})
  fix_pod_pvcs_fn p = send w (fix_claims p)

  -- The three batches after the expectations are set and the kept Pods uncordoned, and what their
  -- errors come to. Creations that were not attempted are taken back from the expectations.
  unfoldable pub scale_batches : List Pod → List Pod → M (Unit {0})
  unfolding create_pod_fn fix_pod_pvcs_fn burst
  scale_batches pods_to_delete pods_to_create =
      batch order create_pod_fn (burst pods_to_create) pods_to_create >>= λ created.
      tell w (repeat (burst pods_to_create - created.0) (◌∷◌ creation_observed)) >>= λ _.
      try_run (for_each order fix_pod_pvcs_fn pods_to_delete) >>= λ fixed.
      batch order (delete_pod_fn w print_object) (burst pods_to_delete) pods_to_delete
      >>= λ deleted. aggregate (errors_of created.1 ++ (failure_of fixed ++ errors_of deleted.1))

  -- doPodScale.
  unfoldable pub do_pod_scale : List Pod → List Pod → List Pod → M (Unit {0})
  unfolding scale_batches burst
  do_pod_scale pods_to_keep pods_to_delete pods_to_create =
      send w (expect_deletions (map pod_key (take (burst pods_to_delete) pods_to_delete)))
      >> (tell w (◌∷◌ (raise_expectations (burst pods_to_create)))
          >> (for_each order (sync_pod_uncordon w print_object)
                (exclude_pods pods_to_keep pods_to_delete)
              >> scale_batches pods_to_delete pods_to_create))

  module _ (u : PodUtil) (parse_time : Bytes → Option ℕ) (sorter : Sorter)
      (scaled_value : Option IntOrString → ℤ → Bool → Option ℤ) where
    -- doPodProcessing. The Pods to keep are those of `pods`, so what the uncordoning reads again is
    -- what is processed.
    unfoldable pub do_pod_processing : NodeSet → ℕ → List Pod → List Pod → Bytes → M (Unit {0})
    unfolding split_update_pods read_again
    do_pod_processing s now pods pods_to_delete hash = send w set_expectations >>= λ _.
        read_again w pods (
          for_each order (sync_pod_uncordon w print_object)
            (split_update_pods u parse_time sorter scaled_value s now pods hash).1)
        >>= λ uncordoned.
            try_run (for_each order (delete_pod_fn w print_object) pods_to_delete) >>= λ deleted.
            try_run (for_each order (process_node_set_pod w print_object) uncordoned.1)
            >>= λ processed.
                aggregate (failure_of uncordoned.0 ++ (failure_of deleted ++ failure_of processed))

    abbrev scale_unless_empty : List Pod → M (Unit {0})
    scale_unless_empty [] = return tt
    scale_unless_empty (p ∷ ps) = do_pod_scale [] (p ∷ ps) []

    -- syncRollingUpdate: the two lists are scaled away, the second unless the first fails.
    unfoldable pub sync_rolling_update : NodeSet → ℕ → List Pod → Bytes → M (Unit {0})
    unfolding pods_to_replace do_pod_scale
    sync_rolling_update s now pods hash =
        let (unhealthy_pods, pods_to_delete) =
          pods_to_replace u parse_time sorter scaled_value s now pods hash in
        scale_unless_empty unhealthy_pods >> scale_unless_empty pods_to_delete

    abbrev update_by : UpdateStrategy → NodeSet → ℕ → List Pod → Bytes → M (Unit {0})
    update_by UpdateStrategy.on_delete s now pods hash = return tt
    update_by _ s now pods hash = sync_rolling_update s now pods hash

    -- syncUpdate.
    unfoldable pub sync_update : NodeSet → ℕ → List Pod → Bytes → M (Unit {0})
    sync_update s now pods hash = update_by s.update_strategy s now pods hash

    -- `new_pods` is newNodeSetPodOrdinal, of each ordinal in turn up to the first error.
    module _ (new_pods : List ℕ → M (List Pod)) where
      abbrev pub by_difference :
          ℤ → NodeSet → ℕ → List Pod → List Pod → List Pod → Bytes → M (Unit {0})
      by_difference (pos zero) s now pods pods_old_scaling pods_new_scaling hash =
          do_pod_processing s now pods_new_scaling pods_old_scaling hash
      by_difference (pos (suc n)) s now pods pods_old_scaling pods_new_scaling hash =
          let (pods_to_delete, pods_to_keep) =
            split_active_pods u parse_time sorter pods_new_scaling (pos (suc n)) in
          do_pod_scale pods_to_keep pods_to_delete []
      by_difference (negsuc n) s now pods pods_old_scaling pods_new_scaling hash =
          new_pods (ordinals_to_create (suc n) pods) >>= λ pods_to_create.
          do_pod_scale pods_new_scaling [] pods_to_create

      -- syncNodeSetPods, of a NodeSet that is not of the mode DaemonSet: the Pods of its mode are
      -- compared with the replicas wanted. New Pods get ordinals that no Pod of any mode has.
      unfoldable pub sync_ordinal_pods : NodeSet → ℕ → List Pod → Bytes → M (Unit {0})
      unfolding split_by_mode ◌-ℤ◌ do_pod_scale do_pod_processing split_active_pods
          ordinals_to_create
      sync_ordinal_pods s now pods hash =
          let (pods_old_scaling, pods_new_scaling) = split_by_mode s.scaling_mode pods in
          by_difference (pos (length pods_new_scaling) -ℤ deref default_replicas s.replicas) s now
            pods pods_old_scaling pods_new_scaling hash
