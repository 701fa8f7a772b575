-- ===== src/Examples.antt =====
-- Concrete Pods, NodeSets and answers of the outside, for the tests and examples of the modules
-- below (they model internal/controller/nodeset and internal/utils).
pub mod Utilities
pub mod Choices
pub mod Controls
pub mod Revisions
pub mod Owners
pub mod Upkeep
pub mod Requests
pub mod Texts
pub mod Handlers
use gce_hackathon.Prelude.{
  ℕ, ℤ, pos, Bool, true, false, ◌&&◌, Option, none, some, List, [], ◌∷◌, Perm, Bytes, codes,
  bytes_eq, any, range,
}
use mathlib.Core.List.Perm
use gce_hackathon.Objects.{
  Pod, PodCondition, Node, Phase, NodeSet, ScalingMode, UpdateStrategy, PruneRecords, IntOrString,
  RetentionType,
}
use gce_hackathon.Objects.Keys.{
  annotation_pod_cordon, label_pod_name, label_revision_hash, label_scaling_mode,
}
use gce_hackathon.Pods.{PodUtil}
use gce_hackathon.Slurm.{SlurmNode, NodeState, idle, mixed, drain, Job}
use gce_hackathon.Api.{Error, Result, ok, err, Request, Trace, World}
use gce_hackathon.Batch.Runs.{IsOrder}

abbrev pub readiness : PodUtil
readiness = record {
  is_pod_ready = λ p.
      any (λ c. bytes_eq c.type (codes "Ready") && bytes_eq c.status (codes "True")) p.conditions;
  is_pod_available = λ p seconds now.
      any (λ c. bytes_eq c.type (codes "Ready") && bytes_eq c.status (codes "True")) p.conditions;
  available_ready = λ p seconds now h. h;
}

abbrev pub no_times : Bytes → Option ℕ
no_times s = none

abbrev pub ready_condition : PodCondition
ready_condition = record {
  type = codes "Ready";
  status = codes "True";
  last_transition = 5;
  message = [];
}

-- A Pod by its name, its UID, its time of creation and its conditions, of the old revision.
abbrev pub pod_of : Bytes → Bytes → ℕ → List PodCondition → Pod
pod_of name uid created conditions = record {
  name = name;
  generate_name = codes "gpu-";
  namespace = codes "slurm";
  uid = uid;
  labels = (label_revision_hash, codes "old") ∷ (label_scaling_mode, codes "StatefulSet") ∷ [];
  annotations = [];
  owner = none;
  creation_timestamp = created;
  deletion_timestamp = none;
  node_name = codes "host";
  hostname = name;
  host_network = false;
  phase = Phase.running;
  conditions = conditions;
  volumes = [];
}

abbrev pub healthy_pod : Pod
healthy_pod = pod_of (codes "gpu-0") (codes "u0") 10 (ready_condition ∷ [])

abbrev pub sick_pod : Pod
sick_pod = pod_of (codes "gpu-1") (codes "u1") 20 []

abbrev pub cordoned_pod : Pod
cordoned_pod = record healthy_pod { annotations = (annotation_pod_cordon, codes "true") ∷ [] }

abbrev pub two_pods : List Pod
two_pods = healthy_pod ∷ sick_pod ∷ []

abbrev pub node_set : NodeSet
node_set = record {
  name = codes "gpu";
  namespace = codes "slurm";
  uid = codes "n0";
  deleting = false;
  controller_ref = record { namespace = codes "slurm"; name = codes "slurm" };
  replicas = some (pos 2);
  scaling_mode = ScalingMode.statefulset;
  ordinal_padding = 0;
  min_ready_seconds = pos 0;
  revision_history_limit = pos 0;
  update_strategy = UpdateStrategy.rolling_update;
  max_unavailable = none;
  prune_slurm_node_records = PruneRecords.never;
  workload_disruption_protection = none;
  pin_to_node = false;
  taint_kube_nodes = false;
  template_hostname = [];
  partition_enabled = true;
  partition_config = codes "State=UP";
  volume_claim_templates = [];
  retention_policy = record {
    when_deleted = RetentionType.unset;
    when_scaled = RetentionType.unset;
  };
  ssh_enabled = false;
  sssd_conf_name = [];
}

-- A scaling that takes no number and no percentage.
abbrev pub no_scaling : Option IntOrString → ℤ → Bool → Option ℤ
no_scaling value total up = none

-- The calls of a batch in the order of their indices.
abbrev pub in_turn : ℕ → ℕ → List ℕ
in_turn = range

pub in_turn-IsOrder : IsOrder in_turn
in_turn-IsOrder index size = Perm.refl (range index size)

abbrev pub working_node : SlurmNode
working_node = record {
  name = some (codes "gpu-0");
  states = mixed ∷ drain ∷ [];
  reason = some (codes "fan is broken");
  comment = none;
  topology = none;
}

abbrev pub idle_node : SlurmNode
idle_node = record {
  name = some (codes "gpu-0");
  states = idle ∷ [];
  reason = none;
  comment = none;
  topology = none;
}

abbrev pub host : Node
host = record {
  name = codes "host";
  unschedulable = true;
  annotations = [];
  conditions = [];
  taints = [];
}

abbrev pub missing : Error
missing = record {
  text = codes "missing";
  not_found = true;
  already_exists = false;
  conflict = false;
  namespace_terminating = false;
}

-- An outside that always answers with one Pod, one node and one Slurm node, has no claims, and accepts all writes.
abbrev pub world_of : Pod → Node → SlurmNode → World
world_of p node slurm_node = record {
  read_pod = λ t namespace name. ok p;
  read_node = λ t name. ok node;
  read_claim = λ t namespace name. err missing;
  read_revision = λ t name. err missing;
  read_node_set = λ t namespace name. ok node_set;
  read_nodes = λ t. ok (node ∷ []);
  read_node_sets = λ t. ok [];
  read_pods = λ t. ok (p ∷ []);
  write = λ t q. none;
  has_client = λ t. true;
  read_slurm_node = λ t name. ok slurm_node;
  read_slurm_nodes = λ t. ok (slurm_node ∷ []);
  read_slurm_jobs = λ t. ok [];
}

abbrev pub print_name : Pod → Bytes
print_name p = p.name
