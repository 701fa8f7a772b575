-- ===== src/NodeSets/Cordon/Sync.antt =====
-- syncCordon (internal/controller/nodeset/nodeset_sync.go): carries the cordon of a Kubernetes node
-- or of a Pod over to its Slurm node.
use gce_hackathon.Prelude.{
  ℕ, Bool, not, ◌||◌, Option, none, some, List, [], ◌∷◌, ◌++◌, Bytes, codes, bytes_eq, lookup,
  if◌then◌else◌,
}
use gce_hackathon.Objects.{Pod, Node, NodeCondition}
use gce_hackathon.Objects.Keys.{annotation_node_cordon_reason}
use gce_hackathon.Pods.{is_pod_cordon}
use gce_hackathon.Api.{Result, ok, err, World, M, ◌>>=◌, return, throw, try_run, fetch_node}
use gce_hackathon.SlurmControl.{
  make_node_drain, make_node_undrain, is_node_down_for_unresponsive, is_node_reason_ours,
}
use gce_hackathon.NodeSets.Cordon.{about_pod, make_pod_cordon_and_drain}
use gce_hackathon.NodeSets.Batches.{for_each}

abbrev or_reason : Bytes → Option Bytes → Bytes
or_reason reason none = reason
or_reason reason (some value) = value

-- "(Reason: Message)", of each condition that is true and of the type given.
abbrev true_reasons : Bytes → List NodeCondition → List Bytes
true_reasons cond_type [] = []
true_reasons cond_type (c ∷ cs) =
    let rest = true_reasons cond_type cs in
    if not (bytes_eq c.type cond_type) || not (bytes_eq c.status (codes "True"))
    then rest
    else (codes "(" ++ (c.reason ++ (codes ": " ++ (c.message ++ codes ")")))) ∷ rest

abbrev all_reasons : List Bytes → List NodeCondition → List Bytes
all_reasons [] cs = []
all_reasons (cond_type ∷ types) cs = true_reasons cond_type cs ++ all_reasons types cs

-- strings.Join(reasons, "; ").
abbrev join_reasons : List Bytes → Bytes
join_reasons [] = []
join_reasons (r ∷ []) = r
join_reasons (r ∷ r' ∷ rs) = r ++ (codes "; " ++ join_reasons (r' ∷ rs))

-- `propagated` is the configured list of the condition types of nodes that give a reason.
module _ (w : World) (print_object : Pod → Bytes) (propagated : List Bytes) where
  abbrev default_reason : Pod → Bytes
  default_reason p =
      codes "Node ("
      ++ (p.node_name
          ++ (codes ") was cordoned, Pod (" ++ (print_object p ++ codes ") must be cordoned")))

  abbrev or_conditions : Bytes → List Bytes → Bytes
  or_conditions reason [] = reason
  or_conditions reason (r ∷ rs) = join_reasons (r ∷ rs)

  -- The reason to give for a Pod on a cordoned node: the node's annotation, else the propagated
  -- conditions of the node that are true, else the default.
  unfoldable pub cordon_reason : Pod → Node → Bytes
  unfolding lookup
  cordon_reason p node =
      or_reason (or_conditions (default_reason p) (all_reasons propagated node.conditions))
        (lookup annotation_node_cordon_reason node.annotations)

  -- The case of a cordoned node: it is read again for the reason.
  unfoldable pub cordon_for_node : Pod → M (Unit {0})
  cordon_for_node p = do
    node ← fetch_node w p.node_name
    make_pod_cordon_and_drain w print_object p (cordon_reason p node)

  -- The `switch` on what was found.
  unfoldable pub cordon_cases : Pod → Bool → Bool → Bool → M (Unit {0})
  cordon_cases p node_is_cordoned unresponsive ours =
      if not ours || unresponsive
      then return tt
      else if node_is_cordoned
      then cordon_for_node p
      else if is_pod_cordon p
      then make_node_drain w p (about_pod (print_object p) (codes "was cordoned"))
      else make_node_undrain w p (about_pod (print_object p) (codes "was uncordoned"))

  unfoldable pub cordon_found : Pod → Result Node → M (Unit {0})
  cordon_found p (ok node) = do
    unresponsive ← is_node_down_for_unresponsive w p
    ours ← is_node_reason_ours w p
    cordon_cases p node.unschedulable unresponsive ours
  cordon_found p (err e) = if e.not_found then return tt else throw e

  -- syncCordonFn, of one Pod. A Pod whose node does not exist is passed over.
  unfoldable pub sync_cordon_pod : Pod → M (Unit {0})
  unfolding cordon_found
  sync_cordon_pod p = try_run (fetch_node w p.node_name) >>= cordon_found p

module _ (w : World) (print_object : Pod → Bytes) (propagated : List Bytes)
    (order : ℕ → ℕ → List ℕ) where
  -- syncCordon, of all Pods.
  unfoldable pub sync_cordon : List Pod → M (Unit {0})
  sync_cordon pods = for_each order (sync_cordon_pod w print_object propagated) pods
