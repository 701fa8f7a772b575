-- ===== src/SlurmControl/Count.antt =====
-- internal/controller/nodeset/slurmcontrol/slurmcontrol.go, CalculateNodeStatus: how many Slurm
-- nodes of a NodeSet's Pods are in which state.
pub mod Partition
use gce_hackathon.Prelude.{
  ℕ, zero, suc, ◌+◌, Bool, true, false, Option, none, some, List, [], ◌∷◌, ◌++◌, keep, Bytes, codes,
  or_empty, if◌then◌else◌,
}
use gce_hackathon.Objects.{Pod, PodCondition}
use gce_hackathon.Slurm.{
  NodeState, allocated, down, error, future, idle, mixed, unknown, completing, drain, fail, invalid,
  invalid_reg, maintenance, not_responding, undrain, SlurmNode,
}
use gce_hackathon.Api.{
  Error, Result, ok, err, Trace, World, M, ◌>>=◌, return, throw, try_run, fetch_slurm_nodes,
  client_known,
}
use gce_hackathon.SlurmControl.{tolerate_error, has_state, slurm_name, is_node_of}

-- The `switch` over the base states: the first of them that the node has.
abbrev pub first_state : List NodeState → List NodeState → Option NodeState
first_state [] states = none
first_state (s ∷ ss) states = if has_state states s then some s else first_state ss states

abbrev pub base_states : List NodeState
base_states = allocated ∷ down ∷ error ∷ future ∷ idle ∷ mixed ∷ unknown ∷ []

unfoldable pub base_state : SlurmNode → Option NodeState
base_state n = first_state base_states n.states

abbrev pub flag_states : List NodeState
flag_states =
    completing ∷ drain ∷ fail ∷ invalid ∷ invalid_reg ∷ maintenance ∷ not_responding ∷ undrain ∷ []

abbrev pub states_of : List NodeState → List NodeState → List NodeState
states_of [] states = []
states_of (s ∷ ss) states =
    let rest = states_of ss states in if has_state states s then s ∷ rest else rest

abbrev or_none : Option NodeState → List NodeState
or_none none = []
or_none (some s) = s ∷ []

-- The states that are counted of a node: its base state, and its flags.
unfoldable pub counted_states : SlurmNode → List NodeState
unfolding base_state
counted_states n = or_none (base_state n) ++ states_of flag_states n.states

-- SlurmNodeStatus: how many nodes there are, how many of them count for each state, and the states
-- of each node by name. The code has one counter for each state, and for each state of a node a
-- condition with the node's reason as its message.
pub record SlurmNodeStatus : Type 0 where
  pub total : ℕ
  pub counters : List NodeState
  pub node_states : List (Bytes × List NodeState × Bytes)

abbrev pub empty_status : SlurmNodeStatus
empty_status = record { total = 0; counters = []; node_states = [] }

-- The loop over the nodes, of those that are the node of a Pod.
unfoldable pub count_nodes : List Pod → List SlurmNode → SlurmNodeStatus
unfolding counted_states
count_nodes pods [] = empty_status
count_nodes pods (n ∷ ns) =
    let rest = count_nodes pods ns in
    if is_node_of pods (slurm_name n)
    then record {
      total = suc rest.total;
      counters = counted_states n ++ rest.counters;
      node_states = (slurm_name n, counted_states n, or_empty n.reason) ∷ rest.node_states;
    }
    else rest

abbrev with_nodes : List Pod → Result (List SlurmNode) → M SlurmNodeStatus
with_nodes pods (ok nodes) = return (count_nodes pods nodes)
with_nodes pods (err e) = if tolerate_error e then return empty_status else throw e

module _ (w : World) where
  -- CalculateNodeStatus.
  unfoldable pub calculate_node_status : List Pod → M SlurmNodeStatus
  unfolding count_nodes
  calculate_node_status pods = do
    known ← client_known w
    if known then try_run (fetch_slurm_nodes w) >>= with_nodes pods else return empty_status
