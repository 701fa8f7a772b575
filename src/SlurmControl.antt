-- ===== src/SlurmControl.antt =====
-- internal/controller/nodeset/slurmcontrol/slurmcontrol.go: the operations on Slurm nodes. Logging
-- is left out; the client that `lookupClient` finds is `client_known` of the Api.
pub mod Drain
pub mod Settled
pub mod Requests
pub mod Count
pub mod PodInfo
use mathlib.Core.Logic.{ite}
use gce_hackathon.Prelude.{
  ℕ, ◌+◌, ◌*◌, Bool, true, false, not, ◌&&◌, ◌||◌, Option, none, some, List, [], ◌∷◌, ◌++◌, map,
  any, keep, Bytes, codes, bytes_eq, has_prefix, contains, or_empty, if◌then◌else◌,
}
use gce_hackathon.Objects.{Pod, NodeSet}
use gce_hackathon.Slurm.{
  NodeState, NodeState-discrete, allocated, down, mixed, completing, drain, not_responding, undrain,
  SlurmNode, UpdateState, set_drain, set_undrain, set_idle, UpdateNodeMsg, Job,
}
use gce_hackathon.Api.{
  Error, Result, ok, err, slurm_refresh_nodes, slurm_update, slurm_delete, Trace, World, M, ◌>>=◌,
  ◌>>◌, return, throw, try_run, send, fetch_slurm_node, fetch_slurm_nodes, fetch_slurm_jobs,
  client_known,
}
use gce_hackathon.Names.{get_slurm_node_name}
use gce_hackathon.Stores.{Store}
use gce_hackathon.Stores.Time

-- The texts of the HTTP statuses 404 and 204.
unfoldable pub tolerate_error : Error → Bool
unfolding bytes_eq
tolerate_error e = bytes_eq e.text (codes "Not Found") || bytes_eq e.text (codes "No Content")

-- `node.GetStateAsSet().Has(state)`.
abbrev pub has_state : List NodeState → NodeState → Bool
has_state [] s = false
has_state (x ∷ xs) s = ite (NodeState-discrete x s) true (has_state xs s)

abbrev pub node_reason_prefix : Bytes
node_reason_prefix = codes "slurm-operator:"

abbrev pub is_empty : Bytes → Bool
is_empty [] = true
is_empty (c ∷ s) = false

-- If the reason is not empty, prefix it with nodeReasonPrefix.
unfoldable pub prefixed_reason : Bytes → Bytes
prefixed_reason reason =
    if is_empty reason then codes "" else node_reason_prefix ++ (codes " " ++ reason)

abbrev pub no_update : UpdateNodeMsg
no_update = record { state = none; reason = none; comment = none; topology_str = none }

abbrev is_drain : SlurmNode → Bool
is_drain n = has_state n.states drain

-- What comes of an update that fails.
abbrev pub tolerate : Result (Unit {0}) → M (Unit {0})
tolerate (ok _) = return tt
tolerate (err e) = if tolerate_error e then return tt else throw e

-- What comes of a Slurm node that could not be read: the given result if the error is tolerated.
abbrev pub with_node : {A : Type 0} → A → (SlurmNode → M A) → Result SlurmNode → M A
with_node given f (ok node) = f node
with_node given f (err e) = if tolerate_error e then return given else throw e

-- No reason, or one with the prefix of the operator.
unfoldable pub reason_is_ours : Bytes → Bool
unfolding has_prefix
reason_is_ours reason = not (not (is_empty reason) && not (has_prefix reason node_reason_prefix))

-- `ptr.Deref(node.Name, "")`.
abbrev pub slurm_name : SlurmNode → Bytes
slurm_name n = or_empty n.name

-- `podNodeNameSet.Has(name)`, of the set of the Slurm node names of the Pods.
abbrev pub is_node_of : List Pod → Bytes → Bool
is_node_of pods name = any (λ p. bytes_eq (get_slurm_node_name p) name) pods

module _ (w : World) where
  -- The start of each operation on the Slurm node of a Pod: without a client, or if there is no
  -- such node, the operation ends with the given result.
  unfoldable pub on_slurm_node : {A : Type 0} → A → Pod → (SlurmNode → M A) → M A
  on_slurm_node given p f = do
    known ← client_known w
    if known
        then try_run (fetch_slurm_node w (get_slurm_node_name p)) >>= with_node given f
        else return given

  abbrev pub update_tolerated : SlurmNode → UpdateNodeMsg → M (Unit {0})
  update_tolerated node msg = try_run (send w (slurm_update node msg)) >>= tolerate

  -- RefreshNodeCache.
  unfoldable pub refresh_node_cache : M (Unit {0})
  refresh_node_cache = do
    known ← client_known w
    if known then send w slurm_refresh_nodes else return tt

  -- UpdateNodeTopology.
  unfoldable pub update_node_topology : Pod → Bytes → M (Unit {0})
  unfolding on_slurm_node
  update_node_topology p topology_spec = on_slurm_node tt p λ node.
      if bytes_eq (or_empty node.topology) topology_spec
      then return tt
      else update_tolerated node (record no_update { topology_str = some topology_spec })

  -- MakeNodeDrain.
  unfoldable pub make_node_drain : Pod → Bytes → M (Unit {0})
  unfolding on_slurm_node
  make_node_drain p reason = on_slurm_node tt p λ node.
      if is_drain node && bytes_eq (or_empty node.reason) (prefixed_reason reason)
      then return tt
      else update_tolerated node
          (record no_update { state = some set_drain; reason = some (prefixed_reason reason) })

  -- MakeNodeUndrain.
  unfoldable pub make_node_undrain : Pod → Bytes → M (Unit {0})
  unfolding on_slurm_node
  make_node_undrain p reason = on_slurm_node tt p λ node.
      if not (is_drain node) || has_state node.states undrain
      then return tt
      else update_tolerated node
          (record no_update { state = some set_undrain; reason = some (prefixed_reason reason) })

  -- IsNodeDrain.
  unfoldable pub is_node_drain : Pod → M Bool
  unfolding on_slurm_node
  is_node_drain p = on_slurm_node true p λ node. return (is_drain node)

  -- IsNodeDrained: drained, and with no work left.
  unfoldable pub is_node_drained : Pod → M Bool
  unfolding on_slurm_node
  is_node_drained p = on_slurm_node true p λ node.
      let is_busy =
        has_state node.states allocated
        || (has_state node.states mixed || has_state node.states completing) in
      return ((is_drain node && not (has_state node.states undrain)) && not is_busy)

  -- IsNodeDownForUnresponsive.
  unfoldable pub is_node_down_for_unresponsive : Pod → M Bool
  unfolding on_slurm_node contains
  is_node_down_for_unresponsive p = on_slurm_node true p λ node.
      return
        (has_state node.states down && contains (or_empty node.reason) (codes "Not responding"))

  -- IsNodeReasonOurs.
  unfoldable pub is_node_reason_ours : Pod → M Bool
  unfolding on_slurm_node
  is_node_reason_ours p =
      on_slurm_node true p λ node. return (reason_is_ours (or_empty node.reason))

  -- DeleteNode.
  unfoldable pub delete_node : Bytes → M (Unit {0})
  delete_node name = do
    known ← client_known w
    if known then try_run (send w (slurm_delete name)) >>= tolerate else return tt

  -- GetNodesForPods: the registered Slurm nodes of the Pods, or `none` if the result cannot be used.
  unfoldable pub get_nodes_for_pods : List Pod → M (Option (List Bytes))
  get_nodes_for_pods pods = do
    known ← client_known w
    if known
        then (fetch_slurm_nodes w >>= λ nodes.
            return (some (keep (is_node_of pods) (map slurm_name nodes))))
        else return none
