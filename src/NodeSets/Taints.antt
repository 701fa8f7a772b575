-- ===== src/NodeSets/Taints.antt =====
-- The taint of the Kubernetes nodes that run Pods of NodeSets: syncNodeTaint of
-- internal/controller/nodeset/nodeset_sync.go, and pkg/taints/taints.go.
use gce_hackathon.Prelude.{
  ℕ, Bool, false, not, ◌&&◌, Option, none, some, List, map, keep, any, Bytes, codes, bytes_eq,
  if◌then◌else◌,
}
use gce_hackathon.Objects.{Pod, Node, NodeSet, Taint}
use gce_hackathon.Pods.{is_running, is_terminating}
use gce_hackathon.Api.{
  Result, ok, err, patch_node, World, M, ◌>>=◌, return, throw, send, fetch_nodes, fetch_node_sets,
  fetch_pods,
}
use gce_hackathon.NodeSets.Batches.{for_each}

-- TaintNodeWorker.
abbrev pub taint_node_worker : Taint
taint_node_worker = record {
  key = codes "nodeset.slinky.slurm.net/worker";
  value = codes "";
  effect = codes "NoExecute";
}

-- AddOrUpdateTaint and RemoveTaint of k8s.io/kubernetes/pkg/util/taints: the new node and whether it
-- is another one, or an error.
pub record TaintUtil : Type 0 where
  pub add_or_update_taint : Node → Taint → Result (Node × Bool)
  pub remove_taint : Node → Taint → Result (Node × Bool)

abbrev pub has_text : List Bytes → Bytes → Bool
has_text xs x = any (λ y. bytes_eq y x) xs

abbrev pub owned_by : List Bytes → Option Bytes → Bool
owned_by uids none = false
owned_by uids (some uid) = has_text uids uid

-- The UIDs of the NodeSets that taint their nodes.
unfoldable pub tainting_uids : List NodeSet → List Bytes
tainting_uids node_sets = map (λ s. s.uid) (keep (λ s. s.taint_kube_nodes) node_sets)

-- The names of the nodes that run a Pod of such a NodeSet.
unfoldable pub nodes_with_pod : List Bytes → List Pod → List Bytes
unfolding is_running is_terminating
nodes_with_pod uids pods =
    map (λ p. p.node_name)
      (keep (λ p. owned_by uids p.owner && (is_running p && not (is_terminating p))) pods)

module _ (w : World) (util : TaintUtil) where
  abbrev pub patch_if_changed : Node → Result (Node × Bool) → M (Unit {0})
  patch_if_changed node (ok (to_update, updated)) =
      if not updated then return tt else send w (patch_node to_update node)
  patch_if_changed node (err e) = throw e

  -- syncTaintFn, for the nodes that are to have the taint.
  unfoldable pub sync_taint : List Bytes → Node → M (Unit {0})
  sync_taint with_pod node =
      if has_text with_pod node.name
      then patch_if_changed node (util.add_or_update_taint node taint_node_worker)
      else patch_if_changed node (util.remove_taint node taint_node_worker)

  -- syncNodeTaint.
  unfoldable pub sync_node_taint : (ℕ → ℕ → List ℕ) → M (Unit {0})
  unfolding sync_taint tainting_uids nodes_with_pod
  sync_node_taint order = do
    nodes ← fetch_nodes w
    node_sets ← fetch_node_sets w
    pods ← fetch_pods w
    for_each order (sync_taint (nodes_with_pod (tainting_uids node_sets) pods)) nodes
