-- ===== src/Objects.antt =====
-- The objects that the NodeSet controller reads and writes, with the fields that the code uses:
-- the NodeSet (api/v1beta1/nodeset_types.go) with its defaults (internal/defaults/nodeset.go), and
-- the Pods and Nodes of Kubernetes. Their keys of labels and annotations are in Objects/Keys.
pub mod Keys
use gce_hackathon.Prelude.{ℕ, ℤ, pos, Bool, true, List, Option, none, some, Bytes, codes}

pub data Phase : Type 0 where
  unset pending running succeeded failed unknown : Phase

pub record PodCondition : Type 0 where
  pub type : Bytes
  pub status : Bytes
  pub last_transition : ℕ
  pub message : Bytes

-- A reference to an owner; its `blockOwnerDeletion` is set with `controller` and read by none.
pub record OwnerRef : Type 0 where
  pub api_version : Bytes
  pub kind : Bytes
  pub name : Bytes
  pub uid : Bytes
  pub controller : Option Bool

-- A PersistentVolumeClaim.
pub record Claim : Type 0 where
  pub name : Bytes
  pub namespace : Bytes
  pub labels : List (Bytes × Bytes)
  pub deletion_timestamp : Option ℕ
  pub owner_refs : List OwnerRef

-- A volume of a Pod: of the claim that is named, or of another source.
pub record Volume : Type 0 where
  pub name : Bytes
  pub claim_name : Option Bytes

-- Times are counted from the zero time of package `time`, which is 0 and so tested by `IsZero`.
pub record Pod : Type 0 where
  pub name : Bytes
  pub generate_name : Bytes
  pub namespace : Bytes
  pub uid : Bytes
  pub labels : List (Bytes × Bytes)
  pub annotations : List (Bytes × Bytes)
  pub owner : Option Bytes
  pub creation_timestamp : ℕ
  pub deletion_timestamp : Option ℕ
  pub node_name : Bytes
  pub hostname : Bytes
  pub host_network : Bool
  pub phase : Phase
  pub conditions : List PodCondition
  pub volumes : List Volume

pub record NodeCondition : Type 0 where
  pub type : Bytes
  pub status : Bytes
  pub reason : Bytes
  pub message : Bytes

-- A taint, by its key and effect, with its value.
pub record Taint : Type 0 where
  pub key : Bytes
  pub value : Bytes
  pub effect : Bytes

pub record Node : Type 0 where
  pub name : Bytes
  pub unschedulable : Bool
  pub annotations : List (Bytes × Bytes)
  pub conditions : List NodeCondition
  pub taints : List Taint

pub data ScalingMode : Type 0 where
  unspecified statefulset daemonset : ScalingMode

pub data UpdateStrategy : Type 0 where
  unspecified rolling_update on_delete : UpdateStrategy

pub data PruneRecords : Type 0 where
  unspecified never node_not_found : PruneRecords

-- PersistentVolumeClaimRetentionPolicyType: the empty text, Retain, Delete, or another text.
pub data RetentionType : Type 0 where
  unset retain delete other : RetentionType

pub record RetentionPolicy : Type 0 where
  pub when_deleted : RetentionType
  pub when_scaled : RetentionType

-- NodeSetStatus, without the generation, the selector and the conditions, which are copied.
pub record NodeSetStatus : Type 0 where
  pub replicas : ℕ
  pub updated_replicas : ℕ
  pub ready_replicas : ℕ
  pub available_replicas : ℕ
  pub unavailable_replicas : ℤ
  pub desired : ℤ
  pub slurm_idle : ℕ
  pub slurm_allocated : ℕ
  pub slurm_down : ℕ
  pub slurm_drain : ℕ
  pub node_set_hash : Bytes
  pub collision_count : ℕ
  pub ordinal_to_node : List (Bytes × Bytes)

-- A ControllerRevision: its name, its number and its data.
pub record Revision : Type 0 where
  pub name : Bytes
  pub revision : ℕ
  pub raw : Bytes

-- A number, or a text such as "25%".
pub data IntOrString : Type 0 where
  int_value : ℤ → IntOrString
  string_value : Bytes → IntOrString

-- ObjectReference.
pub record Reference : Type 0 where
  pub namespace : Bytes
  pub name : Bytes

-- `ssh_enabled` and `sssd_conf_name` are Ssh.Enabled and Ssh.SssdConfRef.Name.
pub record NodeSet : Type 0 where
  pub name : Bytes
  pub namespace : Bytes
  pub uid : Bytes
  pub deleting : Bool
  pub controller_ref : Reference
  pub replicas : Option ℤ
  pub scaling_mode : ScalingMode
  pub ordinal_padding : ℕ
  pub min_ready_seconds : ℤ
  pub revision_history_limit : ℤ
  pub update_strategy : UpdateStrategy
  pub max_unavailable : Option IntOrString
  pub prune_slurm_node_records : PruneRecords
  pub workload_disruption_protection : Option Bool
  pub pin_to_node : Bool
  pub taint_kube_nodes : Bool
  pub template_hostname : Bytes
  pub partition_enabled : Bool
  pub partition_config : Bytes
  pub volume_claim_templates : List Claim
  pub retention_policy : RetentionPolicy
  pub ssh_enabled : Bool
  pub sssd_conf_name : Bytes

-- `string(nodeset.Spec.ScalingMode)`.
abbrev pub scaling_mode_text : ScalingMode → Bytes
scaling_mode_text ScalingMode.unspecified = codes ""
scaling_mode_text ScalingMode.statefulset = codes "StatefulSet"
scaling_mode_text ScalingMode.daemonset = codes "DaemonSet"

abbrev pub default_replicas : ℤ
default_replicas = pos 1

abbrev pub default_protection : Bool
default_protection = true

abbrev pub default_mode : ScalingMode → ScalingMode
default_mode ScalingMode.unspecified = ScalingMode.statefulset
default_mode m = m

abbrev pub default_strategy : UpdateStrategy → UpdateStrategy
default_strategy UpdateStrategy.unspecified = UpdateStrategy.rolling_update
default_strategy s = s

abbrev pub default_prune : PruneRecords → PruneRecords
default_prune PruneRecords.unspecified = PruneRecords.never
default_prune p = p

-- The empty text counts as Retain.
abbrev pub retain_if_unset : RetentionType → RetentionType
retain_if_unset RetentionType.unset = RetentionType.retain
retain_if_unset t = t

abbrev pub or_default {ℓ} : {A : Type ℓ} → A → Option A → Option A
or_default d none = some d
or_default d (some a) = some a

-- The maximum is set only for a rolling update.
abbrev pub default_max_unavailable : UpdateStrategy → Option IntOrString → Option IntOrString
default_max_unavailable UpdateStrategy.rolling_update m = or_default (string_value (codes "25%")) m
default_max_unavailable s m = m

-- SetNodeSetDefaults, of the fields above.
unfoldable pub set_node_set_defaults : NodeSet → NodeSet
set_node_set_defaults s =
    let strategy = default_strategy s.update_strategy in
    record s {
      replicas = or_default default_replicas s.replicas;
      scaling_mode = default_mode s.scaling_mode;
      workload_disruption_protection =
          or_default default_protection s.workload_disruption_protection;
      update_strategy = strategy;
      max_unavailable = default_max_unavailable strategy s.max_unavailable;
      retention_policy = record {
        when_deleted = retain_if_unset s.retention_policy.when_deleted;
        when_scaled = retain_if_unset s.retention_policy.when_scaled;
      };
      prune_slurm_node_records = default_prune s.prune_slurm_node_records;
    }
