-- ===== src/Examples/Controls.antt =====
-- Examples of the operations on Slurm nodes and Pods
-- (internal/controller/nodeset/slurmcontrol, internal/controller/nodeset/nodeset_sync.go).
use gce_hackathon.Prelude.{
  ℕ, map, lookup, pos, negsuc, ◌-ℤ◌, arith, ◌+◌, ◌≤◌, min, ◌≡◌, refl, true, false, ◌&&◌, some, List,
  [], ◌∷◌, codes, bytes_eq, length, count,
}
use gce_hackathon.Objects.{Pod, NodeSet}
use gce_hackathon.Slurm.{SlurmNode, NodeState-discrete, drain}
use gce_hackathon.Api.{M, Error, ok, slurm_update, get_pod, Trace, World}
use gce_hackathon.Api.Counts.{AtMost, counted}
use gce_hackathon.SlurmControl.{
  has_state, slurm_name, is_node_of, reason_is_ours, make_node_drain, make_node_undrain,
  is_node_drained,
}
use gce_hackathon.SlurmControl.Drain.{is_foreign, drain_keeps_reason_ours}
use gce_hackathon.SlurmControl.Settled.{Applies, Settled, make_node_drain-Settled}
use gce_hackathon.SlurmControl.Count.{count_nodes}
use gce_hackathon.SlurmControl.Count.Partition.{
  is_base, is_drain_flag, has_base, count_nodes-partition,
}
use gce_hackathon.NodeSets.Cordon.{sync_pod_uncordon}
use gce_hackathon.NodeSets.Cordon.Sync.{sync_cordon_pod}
use gce_hackathon.NodeSets.Cordon.Respect.{is_write, IsForeignAt, foreign_reason-respected}
use gce_hackathon.NodeSets.Condemn.{process_condemned}
use gce_hackathon.NodeSets.Condemn.Safety.{process_condemned-waits}
use gce_hackathon.NodeSets.Scale.{newest, split_by_mode, do_pod_scale, sync_ordinal_pods}
use gce_hackathon.NodeSets.Scale.Replicas.{
  surplus, sync_ordinal_pods-surplus, sync_ordinal_pods-missing,
}
use gce_hackathon.Pods.Split.Insertion.{insertion_sorter}
use gce_hackathon.NodeSets.Scale.Burst.{do_pod_scale-burst}
use gce_hackathon.Examples.{
  readiness, no_times, no_scaling, node_set, healthy_pod, cordoned_pod, sick_pod, two_pods, in_turn,
  in_turn-IsOrder, working_node, idle_node, host, world_of, print_name,
}

-- A Pod whose Slurm node works while it drains for a reason of an administrator.
abbrev working_world : World
working_world = world_of healthy_pod host working_node

abbrev idle_world : World
idle_world = world_of healthy_pod host idle_node

-- Slurm sets the state and the reason of the last update.
abbrev slurm_state : Trace → SlurmNode
slurm_state [] = idle_node
slurm_state (slurm_update node msg ∷ t) = record idle_node {
  states = drain ∷ [];
  reason = msg.reason;
}
slurm_state (q ∷ t) = slurm_state t

abbrev applying_world : World
applying_world = record idle_world { read_slurm_node = λ t name. ok (slurm_state t) }

applying_world-Applies : Applies applying_world healthy_pod
unfolding NodeState-discrete
applying_world-Applies = record {
  known = λ t. refl;
  read_again = λ t. refl;
  accepted = λ t node msg. refl;
  drained = λ t node reason.
      (record idle_node { states = drain ∷ []; reason = some reason }, refl, refl, refl);
}

make_node_drain-Settled_example :
    Settled applying_world healthy_pod applying_world-Applies
      (codes "update")
      (make_node_drain applying_world healthy_pod (codes "update") []).1
make_node_drain-Settled_example =
    make_node_drain-Settled applying_world healthy_pod applying_world-Applies (codes "update") []
      {node = idle_node} refl

drain_keeps_reason_ours_example :
    (count is_foreign (make_node_drain idle_world healthy_pod (codes "update") []).1
      ≡ count is_foreign [])
    × (count is_foreign (make_node_undrain idle_world healthy_pod (codes "update") []).1
        ≡ count is_foreign [])
drain_keeps_reason_ours_example = drain_keeps_reason_ours idle_world healthy_pod (codes "update") []

working_is_foreign : IsForeignAt working_world healthy_pod working_node
unfolding reason_is_ours
working_is_foreign t = (refl, refl, refl)

foreign_reason-respected_example :
    (count is_write (sync_pod_uncordon working_world print_name healthy_pod []).1
      ≡ count is_write [])
    × (count is_write (sync_cordon_pod working_world print_name [] healthy_pod []).1
        ≡ count is_write [])
foreign_reason-respected_example =
    foreign_reason-respected working_world print_name healthy_pod [] [] working_node
      working_is_foreign

working_not_drained :
    (is_node_drained working_world healthy_pod (get_pod sick_pod.namespace sick_pod.name ∷ [])).0
    ≡ ok false
unfolding is_node_drained NodeState-discrete
working_not_drained = refl

process_condemned-waits_example :
    count (counted true true) (process_condemned working_world print_name sick_pod []).1
    ≤ count (counted true true) []
process_condemned-waits_example =
    process_condemned-waits working_world print_name sick_pod healthy_pod [] refl
      working_not_drained

abbrev first_error : Error → List Error → Error
first_error e es = e

do_pod_scale-burst_example :
    let t1 = (do_pod_scale idle_world print_name in_turn first_error [] two_pods two_pods []).1 in
    (count (counted true false) t1 ≤ min (length two_pods) 250 + count (counted true false) [])
    × (count (counted false true) t1 ≤ min (length two_pods) 250 + count (counted false true) [])
do_pod_scale-burst_example =
    do_pod_scale-burst idle_world print_name in_turn first_error in_turn-IsOrder [] two_pods
      two_pods []

count_nodes-partition_example :
    let r = count_nodes two_pods (working_node ∷ idle_node ∷ []) in
    (r.total ≡ count (λ n. is_node_of two_pods (slurm_name n)) (working_node ∷ idle_node ∷ []))
    × (count is_base r.counters
        ≡ count
            (λ n. is_node_of two_pods (slurm_name n) && has_base n)
            (working_node ∷ idle_node ∷ []))
    × (count is_drain_flag r.counters
        ≡ count
            (λ n. is_node_of two_pods (slurm_name n) && has_state n.states drain)
            (working_node ∷ idle_node ∷ []))
count_nodes-partition_example = count_nodes-partition two_pods (working_node ∷ idle_node ∷ [])

abbrev one_wanted : NodeSet
one_wanted = record node_set { replicas = some (pos 1) }

abbrev three_wanted : NodeSet
three_wanted = record node_set { replicas = some (pos 3) }

abbrev copies : List ℕ → M (List Pod)
copies ordinals t = (ok (map (λ o. healthy_pod) ordinals), t)

one_too_many :
    surplus idle_world print_name in_turn first_error readiness no_times insertion_sorter no_scaling
      copies one_wanted 0 two_pods
      (codes "new")
    ≡ pos 1
unfolding split_by_mode ◌-ℤ◌ bytes_eq lookup
one_too_many = refl

one_too_few :
    surplus idle_world print_name in_turn first_error readiness no_times insertion_sorter no_scaling
      copies three_wanted 0 two_pods
      (codes "new")
    ≡ negsuc 0
unfolding split_by_mode ◌-ℤ◌ bytes_eq lookup
one_too_few = refl

sync_ordinal_pods-surplus_example :
    let t1 =
      (sync_ordinal_pods idle_world print_name in_turn first_error readiness no_times
        insertion_sorter no_scaling copies one_wanted 0 two_pods
        (codes "new")
        []).1 in
    (count (counted true false) t1 ≤ count (counted true false) [])
    × (count (counted false true) t1 ≤ min 1 250 + count (counted false true) [])
sync_ordinal_pods-surplus_example =
    sync_ordinal_pods-surplus idle_world print_name in_turn first_error readiness no_times
      insertion_sorter no_scaling copies one_wanted 0 two_pods (codes "new") in_turn-IsOrder {n = 0}
      one_too_many []

copies_quiet : (ordinals : List ℕ) → AtMost (counted false true) 0 (copies ordinals)
copies_quiet ordinals t = omega arith

sync_ordinal_pods-missing_example :
    let t1 =
      (sync_ordinal_pods idle_world print_name in_turn first_error readiness no_times
        insertion_sorter no_scaling copies three_wanted 0 two_pods
        (codes "new")
        []).1 in
    count (counted false true) t1 ≤ count (counted false true) []
sync_ordinal_pods-missing_example =
    sync_ordinal_pods-missing idle_world print_name in_turn first_error readiness no_times
      insertion_sorter no_scaling copies three_wanted 0 two_pods (codes "new") in_turn-IsOrder
      copies_quiet {n = 0} one_too_few []

-- A Pod that was read again after its uncordoning is the one that was read.
uncordoned_newest :
    newest idle_world cordoned_pod 1 (get_pod cordoned_pod.namespace cordoned_pod.name ∷ [])
    ≡ healthy_pod
unfolding newest bytes_eq
uncordoned_newest = refl
