-- ===== src/NodeSets/Publish.antt =====
-- syncStatus of internal/controller/nodeset/nodeset_sync_status.go: what is written back of a NodeSet
-- and its Pods. Logging is left out.
use mathlib.Core.Logic.{ite}
use gce_hackathon.Prelude.{
  ℕ, pos_part, ◌+◌, ◌*◌, ℤ, pos, ltb_ℤ, ◌==◌, Bool, true, false, not, ◌&&◌, ◌||◌, List, [], ◌∷◌,
  ◌++◌, count, Bytes, insert, if◌then◌else◌,
}
use gce_hackathon.Objects.{Pod, PodCondition, Node, NodeSet, NodeSetStatus, ScalingMode}
use gce_hackathon.Names.{get_ordinal, padded_decimal, is_empty}
use gce_hackathon.Pods.{PodUtil, is_running, is_healthy}
use gce_hackathon.Slurm.{NodeState, NodeState-discrete}
use gce_hackathon.Api.{
  Error, Result, ok, err, push_duration, World, M, ◌>>=◌, return, throw, try_run, fetch_node,
  fetch_nodes, fetch_node_set, send, update_node_set_status,
}
use gce_hackathon.SlurmControl.{refresh_node_cache}
use gce_hackathon.SlurmControl.PodInfo.{Json, update_node_with_pod_info}
use gce_hackathon.SlurmControl.Count.{SlurmNodeStatus, calculate_node_status}
use gce_hackathon.NodeSets.Batches.{for_each}
use gce_hackathon.NodeSets.Condemn.{tell}
use gce_hackathon.NodeSets.Status.{ReplicaStatus, calculate_replica_status}
use gce_hackathon.NodeSets.Conditions.{
  update_node_set_pod_conditions, update_node_set_pod_pdb_labels,
}

-- The nodes that ordinals are pinned to, by the ordinals in decimal.
abbrev pub Pins : Type 0
Pins = List (Bytes × Bytes)

-- `pod_should_run` is whether a Pod from the template of the NodeSet for a node should run on it
-- (NewNodeSetSimulatedPod and PodShouldRunOnNode).
module _ (w : World) (pod_should_run : NodeSet → Node → Bool) where
  -- A pin, if the node exists and a Pod should run there.
  abbrev pub pin_if : NodeSet → Bytes → Bytes → (Pins → M Pins) → Pins → Result Node → M Pins
  pin_if s ordinal name rest pins (ok node) =
      rest (if pod_should_run s node then insert ordinal name pins else pins)
  pin_if s ordinal name rest pins (err e) = if e.not_found then rest pins else throw e

  -- The first loop of calculateOrdinalToNode, over the pins of the status.
  unfoldable pub keep_pins : NodeSet → Pins → Pins → M Pins
  keep_pins s [] pins = return pins
  keep_pins s ((ordinal, name) ∷ more) pins =
      try_run (fetch_node w name) >>= pin_if s ordinal name (keep_pins s more) pins

  abbrev pub is_pinned : Pod → Bool
  is_pinned p =
      not (is_empty p.node_name || not (is_running p)) && not (ltb_ℤ (get_ordinal p) (pos 0))

  -- The second loop, over the Pods.
  unfoldable pub add_pins : NodeSet → List Pod → Pins → M Pins
  add_pins s [] pins = return pins
  add_pins s (p ∷ ps) pins =
      let rest = add_pins s ps in
      if is_pinned p
      then (try_run (fetch_node w p.node_name)
          >>= pin_if s (padded_decimal 0 (get_ordinal p)) p.node_name rest pins)
      else rest pins

  abbrev pub is_daemonset : ScalingMode → Bool
  is_daemonset ScalingMode.daemonset = true
  is_daemonset _ = false

  -- calculateOrdinalToNode, of the pins that the status has; no pins is nil.
  unfoldable pub calculate_ordinal_to_node : NodeSet → Pins → List Pod → M Pins
  unfolding keep_pins add_pins
  calculate_ordinal_to_node s current pods =
      if not s.pin_to_node || is_daemonset s.scaling_mode
      then return []
      else (keep_pins s current [] >>= add_pins s pods)

  -- getDesiredNodeCountForDaemonSet; `should_run` is the first answer of NodeShouldRunDaemonPod.
  unfoldable pub desired_node_count : (Node → Bool) → M ℕ
  desired_node_count should_run = fetch_nodes w >>= λ nodes. return (count should_run nodes)

  module _ (order : ℕ → ℕ → List ℕ) (json : Json) (u : PodUtil)
      (update_pod_condition : List PodCondition → PodCondition → List PodCondition)
      (retry_on_conflict : M (Unit {0}) → M (Unit {0})) (should_run : NodeSet → Node → Bool)
      (new_aggregate : Error → List Error → Error) (s : NodeSet) where
    -- syncSlurmStatusFn and syncSlurmStatus.
    unfoldable pub tell_slurm : Pod → M (Unit {0})
    tell_slurm p = if not (is_healthy u p) then return tt else update_node_with_pod_info json w s p

    unfoldable pub sync_slurm_status : List Pod → M (Unit {0})
    unfolding tell_slurm
    sync_slurm_status pods = for_each order tell_slurm pods

    -- calculateReplicaStatus, by the hashes of the current and the update revision.
    abbrev pub replica_status_by : ScalingMode → ℕ → Bytes → Bytes → List Pod → M ReplicaStatus
    replica_status_by ScalingMode.daemonset now current update pods =
        desired_node_count (should_run s) >>= λ nodes.
        return (calculate_replica_status u s now current update pods (pos nodes))
    replica_status_by _ now current update pods =
        return (calculate_replica_status u s now current update pods (pos 0))

    abbrev pub count_state : NodeState → SlurmNodeStatus → ℕ
    count_state state status =
        count (λ x. ite (NodeState-discrete x state) true false) status.counters

    abbrev pub status_of : ReplicaStatus → SlurmNodeStatus → Pins → Bytes → ℕ → NodeSetStatus
    status_of r slurm pins hash collisions = record {
      replicas = r.replicas;
      updated_replicas = r.updated;
      ready_replicas = r.ready;
      available_replicas = r.available;
      unavailable_replicas = r.unavailable;
      desired = r.desired;
      slurm_idle = count_state NodeState.idle slurm;
      slurm_allocated = count_state NodeState.allocated slurm + count_state NodeState.mixed slurm;
      slurm_down = count_state NodeState.down slurm;
      slurm_drain = count_state NodeState.drain slurm;
      node_set_hash = hash;
      collision_count = collisions;
      ordinal_to_node = pins;
    }

    abbrev pub write_status : NodeSetStatus → Result NodeSet → M (Unit {0})
    write_status status (ok _) = send w (update_node_set_status status)
    write_status status (err e) = if e.not_found then return tt else throw e

    -- updateNodeSetStatus; `retry_on_conflict` is RetryOnConflict of client-go.
    unfoldable pub write_node_set_status : NodeSetStatus → M (Unit {0})
    write_node_set_status status =
        retry_on_conflict (try_run (fetch_node_set w s.namespace s.name) >>= write_status status)

    abbrev pub second : ℤ
    second = pos 1000000000

    -- The delay after which the NodeSet is synchronized again, if any.
    abbrev pub requeue : NodeSetStatus → SlurmNodeStatus → M (Unit {0})
    requeue status slurm =
        if not (ltb_ℤ s.min_ready_seconds (pos 0))
          && not (status.ready_replicas == status.available_replicas)
        then tell w
            (◌∷◌ (push_duration (pos ((pos_part s.min_ready_seconds + 1) * pos_part second))))
        else if not (slurm.total == status.replicas)
        then tell w (◌∷◌ (push_duration (pos (10 * pos_part second))))
        else return tt

    -- syncNodeSetStatus. The code compares the status with a pointer to the new one, which is never
    -- equal, so that the status is always written.
    unfoldable pub sync_node_set_status :
        ℕ → Bytes → Bytes → ℕ → Bytes → Pins → List Pod → M (Unit {0})
    unfolding write_node_set_status calculate_ordinal_to_node
    sync_node_set_status now current update collisions hash pins pods = do
      r ← replica_status_by s.scaling_mode now current update pods
      slurm ← calculate_node_status w pods
      pins1 ← calculate_ordinal_to_node s pins pods
      written ← write_node_set_status (status_of r slurm pins1 hash collisions)
      requeue (status_of r slurm pins1 hash collisions) slurm

    -- syncNodeSetPodStatus.
    unfoldable pub sync_node_set_pod_status : List Pod → M (Unit {0})
    unfolding update_node_set_pod_conditions update_node_set_pod_pdb_labels
    sync_node_set_pod_status pods = do
      slurm ← calculate_node_status w pods
      conditions ← update_node_set_pod_conditions w update_pod_condition slurm pods
      update_node_set_pod_pdb_labels w update_pod_condition order s pods

    abbrev pub failure : Result (Unit {0}) → List Error
    failure (ok _) = []
    failure (err e) = e ∷ []

    abbrev pub all_errors : List Error → M (Unit {0})
    all_errors [] = return tt
    all_errors (e ∷ es) = throw (new_aggregate e es)

    -- syncStatus, of the errors of the synchronization. An error of the last part is returned
    -- alone.
    unfoldable pub sync_status :
        ℕ → Bytes → Bytes → ℕ → Bytes → Pins → List Pod → List Error → M (Unit {0})
    unfolding sync_slurm_status sync_node_set_status sync_node_set_pod_status
    sync_status now current update collisions hash pins pods errors = do
      refreshed ← try_run (refresh_node_cache w)
      told ← try_run (sync_slurm_status pods)
      published ← try_run (sync_node_set_status now current update collisions hash pins pods)
      done ← sync_node_set_pod_status pods
      all_errors (errors ++ (failure refreshed ++ (failure told ++ failure published)))
