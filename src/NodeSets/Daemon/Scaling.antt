-- ===== src/NodeSets/Daemon/Scaling.antt =====
-- The branch of syncNodeSetPods for NodeSets of the mode DaemonSet, and the function as a whole
-- (internal/controller/nodeset/nodeset_sync.go). Events and logging are left out.
use gce_hackathon.Prelude.{
  ℕ, ℤ, Bool, true, false, not, ◌&&◌, Option, none, some, List, [], ◌∷◌, ◌++◌, Bytes, codes, lookup,
  insert, if◌then◌else◌,
}
use gce_hackathon.Objects.{Pod, Node, NodeSet, ScalingMode, IntOrString}
use gce_hackathon.Names.{padded_decimal}
use gce_hackathon.Pods.{PodUtil, is_terminating}
use gce_hackathon.Pods.Split.{Sorter}
use gce_hackathon.Api.{Error, Trace, push_duration, World, M, ◌>>=◌, ◌>>◌, return, fetch_nodes}
use gce_hackathon.NodeSets.Condemn.{tell}
use gce_hackathon.NodeSets.Daemon.{Backoff, Sifted, pods_should_be_on_node}
use gce_hackathon.NodeSets.Scale.{split_by_mode, do_pod_scale, do_pod_processing, sync_ordinal_pods}

abbrev pub list_or_empty : Option (List Pod) → List Pod
list_or_empty none = []
list_or_empty (some ps) = ps

-- The generation that the status of the NodeSet shows is an argument.
unfoldable pub failed_pods_backoff_key : NodeSet → ℤ → Bytes → Bytes
unfolding padded_decimal
failed_pods_backoff_key s generation node_name =
    s.uid ++ (codes "/" ++ (padded_decimal 0 generation ++ (codes "/" ++ node_name)))

-- getNodesToDaemonPods: the Pods by the names of their nodes. IsPodTerminal and GetTargetNodeName of
-- Kubernetes come as parameters; the latter gives none where it returns an error.
module _ (is_pod_terminal : Pod → Bool) (get_target_node_name : Pod → Option Bytes)
    (include_deleted_terminal : Bool) where
  abbrev pub add_to_node :
      Bool → Option Bytes → Pod → List (Bytes × List Pod) → List (Bytes × List Pod)
  add_to_node true target p by_node = by_node
  add_to_node false none p by_node = by_node
  add_to_node false (some name) p by_node =
      insert name (list_or_empty (lookup name by_node) ++ (p ∷ [])) by_node

  abbrev pub is_skipped : Pod → Bool
  is_skipped p = not include_deleted_terminal && (is_pod_terminal p && is_terminating p)

  unfoldable pub get_nodes_to_daemon_pods :
      List Pod → List (Bytes × List Pod) → List (Bytes × List Pod)
  get_nodes_to_daemon_pods [] by_node = by_node
  get_nodes_to_daemon_pods (p ∷ ps) by_node =
      get_nodes_to_daemon_pods ps (add_to_node (is_skipped p) (get_target_node_name p) p by_node)

module _ (w : World) (backoff : Backoff) (u : PodUtil) (parse_time : Bytes → Option ℕ)
    (sorter : Sorter) (should_run : Node → M (Bool × Bool)) (s : NodeSet) (generation : ℤ) where
  -- What the loop over the nodes collects: the nodes that need a Pod, and the Pods to delete.
  pub record Collected : Type 0 where
    pub needing : List Bytes
    pub to_delete : List Pod

  abbrev pub collect : Node → Bool × Sifted backoff → Collected → Collected
  collect node (needs, sifted) rest = record {
    needing = if needs then node.name ∷ rest.needing else rest.needing;
    to_delete = sifted.to_delete ++ rest.to_delete;
  }

  -- The delays are pushed to the store of durations, one for each Pod that is left for later.
  abbrev pub enqueue : List (Pod × ℤ) → Trace → Trace
  enqueue [] t = t
  enqueue ((p, delay) ∷ more) t = enqueue more (push_duration delay ∷ t)

  abbrev pub on_node :
      Node → List (Bytes × List Pod) → backoff.State → Bool × Bool → Bool × Sifted backoff
  on_node node by_node b (runs, continues) =
      pods_should_be_on_node backoff (failed_pods_backoff_key s generation node.name) u parse_time
        sorter runs continues node (lookup node.name by_node) b

  -- The loop over the nodes. `should_run` is NodeShouldRunDaemonPod.
  unfoldable pub over_nodes :
      List Node → List (Bytes × List Pod) → backoff.State → M (Collected × backoff.State)
  over_nodes [] by_node b = return (record { needing = []; to_delete = [] }, b)
  over_nodes (node ∷ nodes) by_node b = should_run node >>= λ runs.
      let result = on_node node by_node b runs in
      tell w (enqueue result.1.postponed)
      >> (over_nodes nodes by_node result.1.state >>= λ rest.
          return (collect node result rest.0, rest.1))

  module _ (print_object : Pod → Bytes) (order : ℕ → ℕ → List ℕ)
      (new_aggregate : Error → List Error → Error)
      (scaled_value : Option IntOrString → ℤ → Bool → Option ℤ) (is_pod_terminal : Pod → Bool)
      (get_target_node_name : Pod → Option Bytes) (new_daemon_pods : List Bytes → M (List Pod))
      (new_pods : List ℕ → M (List Pod)) where
    abbrev pub scale_or_process :
        ℕ → List Pod → List Pod → Bytes → List Pod → List Pod → M (Unit {0})
    scale_or_process now old_scaling new_scaling hash [] [] =
        do_pod_processing w print_object order new_aggregate u parse_time sorter scaled_value s now
          new_scaling old_scaling hash
    scale_or_process now old_scaling new_scaling hash [] (c ∷ cs) =
        do_pod_scale w print_object order new_aggregate new_scaling [] (c ∷ cs)
    scale_or_process now old_scaling new_scaling hash (d ∷ ds) to_create =
        do_pod_scale w print_object order new_aggregate new_scaling (d ∷ ds) to_create

    -- `new_daemon_pods` is newNodeSetPodDaemon, of each node in turn up to the first error. The
    -- state of the backoff that the loop leaves is kept for the next run of the controller.
    unfoldable pub sync_daemon_pods : ℕ → List Pod → Bytes → backoff.State → M (Unit {0})
    unfolding over_nodes get_nodes_to_daemon_pods split_by_mode do_pod_scale do_pod_processing
    sync_daemon_pods now pods hash b =
        let (old_scaling, new_scaling) = split_by_mode s.scaling_mode pods in
        fetch_nodes w >>= λ nodes.
        over_nodes nodes
          (get_nodes_to_daemon_pods is_pod_terminal get_target_node_name false new_scaling []) b
        >>= λ (collected : Collected × backoff.State).
            new_daemon_pods collected.0.needing >>= λ to_create.
            scale_or_process now old_scaling new_scaling hash collected.0.to_delete to_create

    abbrev pub pods_by_mode : ScalingMode → ℕ → List Pod → Bytes → backoff.State → M (Unit {0})
    pods_by_mode ScalingMode.daemonset now pods hash b = sync_daemon_pods now pods hash b
    pods_by_mode _ now pods hash b =
        sync_ordinal_pods w print_object order new_aggregate u parse_time sorter scaled_value
          new_pods s now pods hash

    -- syncNodeSetPods.
    unfoldable pub sync_node_set_pods : ℕ → List Pod → Bytes → backoff.State → M (Unit {0})
    unfolding sync_daemon_pods sync_ordinal_pods
    sync_node_set_pods now pods hash b = pods_by_mode s.scaling_mode now pods hash b
