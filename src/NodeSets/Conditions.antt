-- ===== src/NodeSets/Conditions.antt =====
-- The conditions and the protection of Pods that follow the states of their Slurm nodes:
-- updateNodeSetPodConditions and updateNodeSetPodPDBLabels of
-- internal/controller/nodeset/nodeset_sync_status.go, with pkg/conditions/conditions.go.
pub mod Missing
use gce_hackathon.Prelude.{
  ℕ, Bool, true, false, not, ◌&&◌, ◌||◌, Option, none, some, List, [], ◌∷◌, ◌++◌, map, keep, Bytes,
  codes, bytes_eq, has_prefix, insert, delete, if◌then◌else◌,
}
use gce_hackathon.Objects.{Pod, PodCondition, NodeSet, default_protection}
use gce_hackathon.Objects.Keys.{label_pod_protect}
use gce_hackathon.Names.{get_slurm_node_name}
use gce_hackathon.Slurm.{NodeState}
use gce_hackathon.Api.{
  Error, Result, ok, err, patch_pod, patch_pod_status, World, M, ◌>>=◌, ◌>>◌, return, throw,
  try_run, send, fetch_pod,
}
use gce_hackathon.SlurmControl.Count.{SlurmNodeStatus}
use gce_hackathon.NodeSets.Batches.{for_each}

abbrev pub state_prefix : Bytes
state_prefix = codes "SlurmNodeState"

-- The conditions of Pods, by the states of Slurm nodes: the part after the prefix.
abbrev pub state_name : NodeState → Bytes
state_name NodeState.allocated = codes "Allocated"
state_name NodeState.down = codes "Down"
state_name NodeState.error = codes "Error"
state_name NodeState.future = codes "Future"
state_name NodeState.idle = codes "Idle"
state_name NodeState.mixed = codes "Mixed"
state_name NodeState.unknown = codes "Unknown"
state_name NodeState.completing = codes "Completing"
state_name NodeState.drain = codes "Drain"
state_name NodeState.fail = codes "Fail"
state_name NodeState.invalid = codes "Invalid"
state_name NodeState.invalid_reg = codes "InvalidReg"
state_name NodeState.maintenance = codes "Maintenance"
state_name NodeState.not_responding = codes "NotResponding"
state_name NodeState.undrain = codes "Undrain"

abbrev pub condition_type : NodeState → Bytes
condition_type s = state_prefix ++ state_name s

-- IsConditionTrue, of the first condition of a type.
unfoldable pub is_condition_true : List PodCondition → Bytes → Bool
is_condition_true [] type = false
is_condition_true (c ∷ cs) type =
    let rest = is_condition_true cs type in
    if bytes_eq c.type type then bytes_eq c.status (codes "True") else rest

-- IsNodeBusy, IsNodeDrain, IsNodeDrained and IsNodeDraining.
unfoldable pub is_node_busy : List PodCondition → Bool
unfolding is_condition_true
is_node_busy cs =
    (is_condition_true cs (condition_type NodeState.allocated)
      || is_condition_true cs (condition_type NodeState.mixed))
    || is_condition_true cs (condition_type NodeState.completing)

unfoldable pub has_drain_condition : List PodCondition → Bool
unfolding is_condition_true
has_drain_condition cs =
    is_condition_true cs (condition_type NodeState.drain)
    && not (is_condition_true cs (condition_type NodeState.undrain))

unfoldable pub has_drained_condition : List PodCondition → Bool
unfolding has_drain_condition is_node_busy
has_drained_condition cs = has_drain_condition cs && not (is_node_busy cs)

unfoldable pub has_draining_condition : List PodCondition → Bool
unfolding has_drain_condition is_node_busy
has_draining_condition cs = has_drain_condition cs && is_node_busy cs

-- nodeState: the condition of a state of a node with a reason; it has no time of a change.
abbrev pub node_state : Bytes → NodeState → PodCondition
node_state reason s = record {
  type = condition_type s;
  status = codes "True";
  last_transition = 0;
  message = reason;
}

-- NodeStates of the status, at the name of a node.
unfoldable pub node_conditions : List (Bytes × List NodeState × Bytes) → Bytes → List PodCondition
node_conditions [] name = []
node_conditions ((n, states, reason) ∷ more) name =
    let rest = node_conditions more name in
    if bytes_eq n name then map (node_state reason) states ++ rest else rest

-- `update_pod_condition` is UpdatePodCondition of Kubernetes.
module _ (w : World)
    (update_pod_condition : List PodCondition → PodCondition → List PodCondition) where
  abbrev pub apply_all : List PodCondition → List PodCondition → List PodCondition
  apply_all cs [] = cs
  apply_all cs (c ∷ more) = apply_all (update_pod_condition cs c) more

  -- The Pod with the conditions of the current Slurm states in place of those it had.
  unfoldable pub with_conditions : SlurmNodeStatus → Pod → Pod
  unfolding node_conditions has_prefix
  with_conditions status p = record p {
    conditions =
        apply_all (keep (λ c. not (has_prefix c.type state_prefix)) p.conditions)
          (node_conditions status.node_states (get_slurm_node_name p));
  }

  -- What the answer to the patch of one Pod comes to; `rest` is the loop over the Pods after it. A
  -- Pod that is missing ends the loop without an error.
  abbrev pub after_patch : M (Unit {0}) → Result (Unit {0}) → M (Unit {0})
  after_patch rest (ok _) = rest
  after_patch rest (err e) = if e.not_found then return tt else throw e

  -- updateNodeSetPodConditions.
  unfoldable pub update_node_set_pod_conditions : SlurmNodeStatus → List Pod → M (Unit {0})
  unfolding with_conditions
  update_node_set_pod_conditions status [] = return tt
  update_node_set_pod_conditions status (p ∷ ps) =
      try_run (send w (patch_pod_status (with_conditions status p) p))
      >>= after_patch (update_node_set_pod_conditions status ps)

  abbrev pub protection : Option Bool → Bool
  protection none = default_protection
  protection (some b) = b

  unfoldable pub with_protection : NodeSet → Pod → Pod
  unfolding is_node_busy
  with_protection s p = record p {
    labels =
        if is_node_busy p.conditions && protection s.workload_disruption_protection
        then insert label_pod_protect (codes "true") p.labels
        else delete label_pod_protect p.labels;
  }

  abbrev pub protect_read : NodeSet → Result Pod → M (Unit {0})
  protect_read s (ok p) = send w (patch_pod (with_protection s p) p)
  protect_read s (err e) = if e.not_found then return tt else throw e

  -- syncPodPDBLabelsFn: the Pod is read again.
  unfoldable pub sync_pod_pdb_labels : NodeSet → Pod → M (Unit {0})
  unfolding with_protection
  sync_pod_pdb_labels s p = try_run (fetch_pod w p.namespace p.name) >>= protect_read s

  -- updateNodeSetPodPDBLabels.
  unfoldable pub update_node_set_pod_pdb_labels :
      (ℕ → ℕ → List ℕ) → NodeSet → List Pod → M (Unit {0})
  unfolding sync_pod_pdb_labels
  update_node_set_pod_pdb_labels order s pods = for_each order (sync_pod_pdb_labels s) pods
