-- ===== src/NodeSets/Steps.antt =====
-- The steps of one synchronization of a NodeSet: `sync` of
-- internal/controller/nodeset/nodeset_sync.go, over internal/syncsteps/syncsteps.go.
pub mod Refresh
use gce_hackathon.Prelude.{ℕ, Bool, true, false, Option, List, [], ◌∷◌, Bytes, codes}
use gce_hackathon.Objects.{Pod, NodeSet}
use gce_hackathon.Pods.{PodUtil}
use gce_hackathon.Api.{Error, Result, Trace, World, M}
use gce_hackathon.SyncSteps.{Step}
use gce_hackathon.SyncSteps as Run
use gce_hackathon.SlurmControl.{refresh_node_cache}
use gce_hackathon.SlurmControl.PodInfo.{Json}
use gce_hackathon.NodeSets.Batches.{error_of}
use gce_hackathon.NodeSets.Taints.{TaintUtil, sync_node_taint}
use gce_hackathon.NodeSets.Cordon.Sync.{sync_cordon}
use gce_hackathon.NodeSets.Records.{sync_slurm_node_records}
use gce_hackathon.NodeSets.Upkeep.{sync_slurm_nodes, sync_slurm_deadline, sync_slurm_topology}

abbrev pub step_of : Bytes → M (Unit {0}) → Bool → Step Trace Error
step_of name run stop = record {
  name = name;
  sync_fn = λ t. error_of (run t);
  stop_on_error = stop;
}

-- Events change nothing that is modelled.
abbrev pub no_event : Bytes → Error → Trace → Trace
no_event name e t = t

-- The steps that apply the Service, the PodDisruptionBudget and the configuration of ssh, and
-- syncNodeSetPods, come as parameters, and so does what the steps take from outside.
module _ (w : World) (order : ℕ → ℕ → List ℕ) (util : TaintUtil) (u : PodUtil) (json : Json)
    (print_object : Pod → Bytes) (propagated : List Bytes) (expand : Bytes → Result (List Bytes))
    (minute infinite_duration : ℕ) (format : ℕ → Bytes)
    (cluster_worker_service cluster_worker_pdb ssh_config : M (Unit {0}))
    (node_set_pods : NodeSet → ℕ → List Pod → Bytes → M (Unit {0})) where
  -- The steps after the cache of Slurm nodes is refreshed.
  abbrev pub steps_on_slurm : NodeSet → ℕ → List Pod → Bytes → List (Step Trace Error)
  steps_on_slurm s now pods hash =
      step_of (codes "SlurmDeadline")
        (sync_slurm_deadline w order expand minute infinite_duration format pods) false
      ∷ step_of (codes "Cordon") (sync_cordon w print_object propagated order pods) false
      ∷ step_of (codes "NodeSetPods") (node_set_pods s now pods hash) false
      ∷ step_of (codes "SlurmNodeRecords") (sync_slurm_node_records w order json s) false
      ∷ step_of (codes "SlurmNodes") (sync_slurm_nodes w order u s now pods) false
      ∷ step_of (codes "SlurmTopology") (sync_slurm_topology w order pods) false
      ∷ []

  unfoldable pub steps : NodeSet → ℕ → List Pod → Bytes → List (Step Trace Error)
  steps s now pods hash =
      step_of (codes "ClusterWorkerService") cluster_worker_service false
      ∷ step_of (codes "ClusterWorkerPDB") cluster_worker_pdb false
      ∷ step_of (codes "SSHConfig") ssh_config false
      ∷ step_of (codes "NodeTaint") (sync_node_taint w util order) false
      ∷ step_of (codes "RefreshNodeCache") (refresh_node_cache w) true
      ∷ steps_on_slurm s now pods hash

  -- The errors of the steps, by their names.
  unfoldable pub sync : NodeSet → ℕ → List Pod → Bytes → Trace → List (Bytes × Error) × Trace
  unfolding steps
  sync s now pods hash t = Run.sync no_event (steps s now pods hash) t
