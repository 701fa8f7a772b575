-- ===== src/NodeSets/Cordon.antt =====
-- internal/controller/nodeset/nodeset_sync.go: cordoning Pods, and draining the Slurm nodes that
-- they stand for. `klog.KObj` of Kubernetes, which prints the name of an object, is `print_object`.
pub mod Sync
pub mod Respect
use gce_hackathon.Prelude.{
  Bool, true, false, not, ◌||◌, Option, none, some, List, [], ◌∷◌, ◌++◌, Bytes, codes, bytes_eq,
  lookup, insert, delete, if◌then◌else◌,
}
use gce_hackathon.Objects.{Pod, Node}
use gce_hackathon.Objects.Keys.{annotation_pod_cordon}
use gce_hackathon.Pods.{is_pod_cordon}
use gce_hackathon.Api.{
  Result, ok, err, patch_pod, Trace, World, M, ◌>>=◌, ◌>>◌, return, try_run, send, fetch_pod,
  fetch_node,
}
use gce_hackathon.SlurmControl.{
  make_node_drain, make_node_undrain, is_node_drain, is_node_reason_ours,
}

abbrev pub or_message : Bytes → Bytes → Bytes
or_message reason [] = reason
or_message reason (c ∷ message) = c ∷ message

-- The text "Pod (<object>) " and what follows.
abbrev pub about_pod : Bytes → Bytes → Bytes
about_pod object rest = codes "Pod (" ++ (object ++ (codes ") " ++ rest))

abbrev unschedulable_or_false : Result Node → Bool
unschedulable_or_false (ok node) = node.unschedulable
unschedulable_or_false (err e) = false

module _ (w : World) where
  -- makePodCordon. The Pod is read again after the patch; the result is its new state.
  unfoldable pub make_pod_cordon : Pod → M Pod
  make_pod_cordon p =
      let to_update = record p {
        annotations = insert annotation_pod_cordon (codes "true") p.annotations;
      } in
      if is_pod_cordon p
      then return p
      else (send w (patch_pod to_update p) >> fetch_pod w p.namespace p.name)

  -- makePodUncordon.
  unfoldable pub make_pod_uncordon : Pod → M Pod
  make_pod_uncordon p =
      let to_update = record p { annotations = delete annotation_pod_cordon p.annotations } in
      if not (is_pod_cordon p)
      then return p
      else (send w (patch_pod to_update p) >> fetch_pod w p.namespace p.name)

  -- isNodeCordoned: false also where the node cannot be read.
  unfoldable pub is_node_cordoned : Pod → M Bool
  is_node_cordoned p =
      try_run (fetch_node w p.node_name) >>= λ node. return (unschedulable_or_false node)

  module _ (print_object : Pod → Bytes) where
    -- syncSlurmNodeDrain.
    unfoldable pub sync_slurm_node_drain : Pod → Bytes → M (Unit {0})
    sync_slurm_node_drain p message =
        make_node_drain w p
          (or_message (about_pod (print_object p) (codes "has been cordoned")) message)

    -- syncSlurmNodeUndrain.
    unfoldable pub sync_slurm_node_undrain : Pod → Bytes → M (Unit {0})
    sync_slurm_node_undrain p message = do
      drains ← is_node_drain w p
      if not drains
          then return tt
          else make_node_undrain w p
              (or_message (about_pod (print_object p) (codes "has been uncordoned")) message)

    -- makePodCordonAndDrain.
    unfoldable pub make_pod_cordon_and_drain : Pod → Bytes → M (Unit {0})
    make_pod_cordon_and_drain p reason = do p1 ← make_pod_cordon p; sync_slurm_node_drain p1 reason

    -- makePodUncordonAndUndrain.
    unfoldable pub make_pod_uncordon_and_undrain : Pod → Bytes → M (Unit {0})
    make_pod_uncordon_and_undrain p reason = do
      p1 ← make_pod_uncordon p
      sync_slurm_node_undrain p1 reason

    -- syncPodUncordon.
    unfoldable pub sync_pod_uncordon : Pod → M (Unit {0})
    sync_pod_uncordon p = do
      cordoned ← is_node_cordoned p
      if cordoned
          then return tt
          else (is_node_reason_ours w p >>= λ ours.
              if not ours then return tt else make_pod_uncordon_and_undrain p [])
