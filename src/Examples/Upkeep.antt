-- ===== src/Examples/Upkeep.antt =====
-- Examples of what is kept up between Pods and Slurm (internal/controller/nodeset/nodeset_sync.go)
-- and of the making of revisions (internal/utils/historycontrol/historycontrol.go).
use gce_hackathon.Prelude.{
  ℕ, zero, suc, ◌≤◌, refl, true, false, Option, none, some, [], ◌∷◌, Bytes, codes, bytes_eq, count,
  if◌then◌else◌, arith,
}
use gce_hackathon.Objects.{NodeSet, ScalingMode, PruneRecords, Revision}
use gce_hackathon.Slurm.{SlurmNode, down, not_responding}
use gce_hackathon.Api.{Error, ok, err, Request, World, return, create_revision}
use gce_hackathon.SlurmControl.PodInfo.{Json}
use gce_hackathon.NodeSets.Records.{sync_slurm_node_records}
use gce_hackathon.NodeSets.Records.Justified.{Justified, sync_slurm_node_records-Justified}
use gce_hackathon.NodeSets.Taints.{TaintUtil}
use gce_hackathon.NodeSets.Steps.{sync}
use gce_hackathon.NodeSets.Steps.Refresh.{touches, sync-refresh_fails}
use gce_hackathon.NodeSets.History.Create.{create_controller_revision}
use gce_hackathon.NodeSets.History.Create.Ends.{
  Ended, Differs, Collides, create_controller_revision-Ended,
}
use gce_hackathon.Examples.{
  readiness, healthy_pod, two_pods, node_set, host, idle_node, world_of, in_turn, in_turn-IsOrder,
  missing, print_name,
}

-- A Slurm node that is gone, with its Pod and its Kubernetes node.
abbrev dead_node : SlurmNode
dead_node = record idle_node { states = down ∷ not_responding ∷ []; comment = some (codes "info") }

abbrev empty_world : World
empty_world = record (world_of healthy_pod host dead_node) {
  read_pod = λ t namespace name. err missing;
  read_node = λ t name. err missing;
}

abbrev pruning_set : NodeSet
pruning_set = record node_set {
  scaling_mode = ScalingMode.daemonset;
  prune_slurm_node_records = PruneRecords.node_not_found;
}

abbrev one_info : Json
one_info = record {
  marshal = λ info. codes "info";
  unmarshal = λ s. (
    true,
    record {
      namespace = codes "slurm";
      pod_name = codes "gpu-abc";
      node = codes "host";
      node_set_name = codes "gpu";
      node_set_uid = codes "n0";
    },
  );
}

sync_slurm_node_records-Justified_example :
    Justified empty_world one_info pruning_set
      (sync_slurm_node_records empty_world in_turn one_info pruning_set []).1
sync_slurm_node_records-Justified_example =
    sync_slurm_node_records-Justified empty_world one_info pruning_set in_turn in_turn-IsOrder [] tt

-- Slurm answers everything that is written with an error.
abbrev failing_world : World
failing_world = record (world_of healthy_pod host idle_node) { write = λ t q. some missing }

abbrev no_taints : TaintUtil
no_taints = record {
  add_or_update_taint = λ node taint. ok (node, true);
  remove_taint = λ node taint. ok (node, false);
}

sync-refresh_fails_example :
    count touches
      (sync failing_world in_turn no_taints readiness one_info print_name []
        (λ s. ok [])
        60
        1000
        (λ n. [])
        (return tt)
        (return tt)
        (return tt)
        (λ s now pods hash. return tt)
        node_set
        100
        two_pods
        (codes "new")
        []).1
    ≤ 0
sync-refresh_fails_example =
    sync-refresh_fails failing_world no_taints in_turn in_turn-IsOrder readiness one_info print_name
      [] (λ s. ok []) 60 1000 (λ n. []) (return tt) (return tt) (return tt)
      (λ s now pods hash. return tt) node_set 100 two_pods (codes "new") (λ t. missing)
      (λ t. omega arith) (λ t. omega arith) (λ t. omega arith) (λ t. refl) (λ t. refl) []

-- The first name is taken.
abbrev revision_name : ℕ → Bytes
revision_name zero = codes "gpu-a"
revision_name (suc n) = codes "gpu-b"

abbrev taken_error : Error
taken_error = record missing { not_found = false; already_exists = true }

abbrev refuse : Request → Option Error
refuse (create_revision r) = if bytes_eq r.name (codes "gpu-a") then some taken_error else none
refuse q = none

abbrev revision_world : World
revision_world = record (world_of healthy_pod host idle_node) {
  write = λ t q. refuse q;
  read_revision = λ t name. ok (record { name = codes "gpu-a"; revision = 1; raw = codes "old" });
}

abbrev new_one : Revision
new_one = record { name = codes "gpu-a"; revision = 2; raw = codes "new" }

names_differ : Differs revision_world revision_name new_one 1 0
unfolding bytes_eq
names_differ zero zero low less high = absurd (omega (arith, less))
names_differ zero (suc j) low less high = refl
names_differ (suc i) j low less high = absurd (omega (arith, less, high))

names_taken : Collides revision_world revision_name new_one 1 (codes "gpu-a" ∷ []) 0
unfolding bytes_eq
names_taken zero t e low high refused clash = refl
names_taken (suc i) t e low high refused clash = cc refused

create_controller_revision-Ended_example :
    Ended (codes "new") (create_controller_revision revision_world revision_name 2 new_one 0 [])
create_controller_revision-Ended_example =
    create_controller_revision-Ended revision_world revision_name new_one (codes "gpu-a" ∷ []) 0
      names_differ names_taken []
