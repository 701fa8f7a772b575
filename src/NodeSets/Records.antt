-- ===== src/NodeSets/Records.antt =====
-- The pruning of Slurm node records: syncSlurmNodeRecords of
-- internal/controller/nodeset/nodeset_sync.go. Events and logging are left out.
pub mod Justified
use gce_hackathon.Prelude.{
  ℕ, Bool, true, false, not, Option, none, some, List, [], ◌∷◌, ◌++◌, Bytes, codes, bytes_eq,
  lookup, or_empty, if◌then◌else◌,
}
use gce_hackathon.Objects.{Pod, Node, NodeSet, ScalingMode, PruneRecords}
use gce_hackathon.Objects.Keys.{annotation_node_hostname_override}
use gce_hackathon.Names.{get_daemon_set_pod_hostname}
use gce_hackathon.Api.{
  Error, Result, ok, err, World, M, ◌>>=◌, ◌>>◌, return, throw, try_run, fetch_pod, fetch_node,
}
use gce_hackathon.SlurmControl.{delete_node, is_empty}
use gce_hackathon.SlurmControl.PodInfo.{Json, PodInfo, DefunctNode, get_defunct_nodes_for_node_set}
use gce_hackathon.NodeSets.Batches.{for_each}

-- The name of the Slurm node that the Pod of a Kubernetes node has, by the node's name and the
-- annotations read of it.
unfoldable pub maps_to : Bytes → Node → Bytes
unfolding lookup get_daemon_set_pod_hostname
maps_to name node =
    get_daemon_set_pod_hostname name
      (or_empty (lookup annotation_node_hostname_override node.annotations))

module _ (w : World) where
  abbrev pub wrap_deletion : Result (Unit {0}) → M (Unit {0})
  wrap_deletion (ok _) = return tt
  wrap_deletion (err e) =
      throw record e { text = codes "failed to delete defunct Slurm node " ++ e.text }

  abbrev pub delete_record : DefunctNode → M (Unit {0})
  delete_record d = try_run (delete_node w d.name) >>= wrap_deletion

  -- What the Kubernetes node of the record comes to.
  abbrev pub check_kube_node : DefunctNode → Result Node → M (Unit {0})
  check_kube_node d (err e) = if e.not_found then delete_record d else throw e
  check_kube_node d (ok node) =
      if bytes_eq (maps_to d.pod_info.node node) d.name then return tt else delete_record d

  -- What the Pod of the record comes to.
  abbrev pub check_pod : DefunctNode → Result Pod → M (Unit {0})
  check_pod d (ok p) = return tt
  check_pod d (err e) =
      if not e.not_found
      then throw e
      else if is_empty d.pod_info.node
      then return tt
      else (try_run (fetch_node w d.pod_info.node) >>= check_kube_node d)

  -- syncSlurmNodeRecordsFn.
  unfoldable pub sync_slurm_node_record : DefunctNode → M (Unit {0})
  sync_slurm_node_record d =
      try_run (fetch_pod w d.pod_info.namespace d.pod_info.pod_name) >>= check_pod d

  module _ (order : ℕ → ℕ → List ℕ) (json : Json) where
    abbrev pub prune_all : Option (List DefunctNode) → M (Unit {0})
    prune_all none = return tt
    prune_all (some nodes) = for_each order sync_slurm_node_record nodes

    -- syncSlurmNodeRecordsNodeNotFound.
    abbrev pub prune_by_mode : ScalingMode → NodeSet → M (Unit {0})
    prune_by_mode ScalingMode.daemonset s = get_defunct_nodes_for_node_set json w s >>= prune_all
    prune_by_mode _ s = return tt

    unfoldable pub sync_slurm_node_records_node_not_found : NodeSet → M (Unit {0})
    unfolding sync_slurm_node_record
    sync_slurm_node_records_node_not_found s = prune_by_mode s.scaling_mode s

    abbrev pub prune_by_policy : PruneRecords → NodeSet → M (Unit {0})
    prune_by_policy PruneRecords.node_not_found s = sync_slurm_node_records_node_not_found s
    prune_by_policy _ s = return tt

    -- syncSlurmNodeRecords.
    unfoldable pub sync_slurm_node_records : NodeSet → M (Unit {0})
    unfolding sync_slurm_node_records_node_not_found
    sync_slurm_node_records s = prune_by_policy s.prune_slurm_node_records s
