-- ===== src/NodeSets/Status.antt =====
-- internal/controller/nodeset/nodeset_sync_status.go, calculateReplicaStatus: the counters of a
-- NodeSet's status. They are int32 in the code and have no bound here.
pub mod Consistent
use gce_hackathon.Prelude.{
  ℕ, zero, suc, ◌+◌, ◌≤◌, min, ℤ, pos, ◌-ℤ◌, ◌≤ℤ◌, ◌≡◌, refl, Bool, true, false, not, ◌&&◌, Option,
  none, some, List, [], ◌∷◌, Bytes, bytes_eq, length, count, if◌then◌else◌, arith,
}
use gce_hackathon.Objects.{Pod, NodeSet, ScalingMode, default_replicas}
use gce_hackathon.Mathutils.{clamp}
use gce_hackathon.Pods.{PodUtil, is_created, is_running_and_ready, is_terminating}
use gce_hackathon.NodeSets.Rolling.{deref, get_revision}

pub record ReplicaStatus : Type 0 where
  pub replicas : ℕ
  pub ready : ℕ
  pub available : ℕ
  pub unavailable : ℤ
  pub current : ℕ
  pub updated : ℕ
  pub desired : ℤ

abbrev pub bump : Bool → ℕ → ℕ
bump b n = if b then suc n else n

abbrev zero_status : ReplicaStatus
zero_status = record {
  replicas = 0;
  ready = 0;
  available = 0;
  unavailable = pos 0;
  current = 0;
  updated = 0;
  desired = pos 0;
}

module _ (u : PodUtil) (s : NodeSet) (now : ℕ) (current_hash update_hash : Bytes) where
  abbrev is_live : Pod → Bool
  is_live p = is_created p && not (is_terminating p)

  -- What one Pod adds.
  abbrev count_pod : Pod → ReplicaStatus → ReplicaStatus
  count_pod p r = record r {
    replicas = bump (is_created p) r.replicas;
    ready = bump (is_running_and_ready u p) r.ready;
    available =
        bump (is_running_and_ready u p && u.is_pod_available p s.min_ready_seconds now) r.available;
    current = bump (is_live p && bytes_eq (get_revision p.labels) current_hash) r.current;
    updated = bump (is_live p && bytes_eq (get_revision p.labels) update_hash) r.updated;
  }

  -- The loop over the Pods. Its counts do not depend on their order.
  unfoldable pub count_pods : List Pod → ReplicaStatus
  unfolding is_created is_running_and_ready
  count_pods [] = zero_status
  count_pods (p ∷ ps) = count_pod p (count_pods ps)

  abbrev pub with_desired : ScalingMode → ℤ → ReplicaStatus → ReplicaStatus
  with_desired ScalingMode.statefulset nodes r = record r {
    unavailable = clamp (pos r.replicas -ℤ pos r.available) (pos 0) (pos r.replicas);
    desired = deref default_replicas s.replicas;
  }
  with_desired ScalingMode.daemonset nodes r = record r {
    unavailable = clamp (nodes -ℤ pos r.available) (pos 0) nodes;
    desired = nodes;
  }
  with_desired ScalingMode.unspecified nodes r = r

  -- calculateReplicaStatus. `nodes` is the number of nodes that should run a Pod of the NodeSet
  -- (getDesiredNodeCountForDaemonSet).
  unfoldable pub calculate_replica_status : List Pod → ℤ → ReplicaStatus
  unfolding count_pods clamp ◌-ℤ◌
  calculate_replica_status pods nodes = with_desired s.scaling_mode nodes (count_pods pods)
