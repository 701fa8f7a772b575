-- ===== src/SlurmControl/Count/Partition.antt =====
-- What the counters of CalculateNodeStatus
-- (internal/controller/nodeset/slurmcontrol/slurmcontrol.go) add up to.
use gce_hackathon.Prelude.{
  ◌≡◌, refl, Bool, true, false, ◌&&◌, ◌||◌, List, [], ◌∷◌, All, count, count-append, Bool-cases,
  inl, inr, if◌then◌else◌, arith,
}
use gce_hackathon.Objects.{Pod}
use gce_hackathon.Slurm.{
  NodeState, allocated, down, error, future, idle, mixed, unknown, drain, SlurmNode,
}
use gce_hackathon.SlurmControl.{has_state, slurm_name, is_node_of}
use gce_hackathon.SlurmControl.Count.{
  first_state, base_states, base_state, flag_states, states_of, or_none, counted_states,
  count_nodes,
}

abbrev pub is_base : NodeState → Bool
is_base allocated = true
is_base down = true
is_base error = true
is_base future = true
is_base idle = true
is_base mixed = true
is_base unknown = true
is_base _ = false

abbrev pub is_drain_flag : NodeState → Bool
is_drain_flag drain = true
is_drain_flag _ = false

abbrev pub has_base : SlurmNode → Bool
has_base n =
    has_state n.states allocated
    || has_state n.states down
    || has_state n.states error
    || has_state n.states future
    || has_state n.states idle
    || has_state n.states mixed
    || has_state n.states unknown

count-states_of :
    (p : NodeState → Bool) (ss states : List NodeState)
    → All (λ s. p s ≡ false) ss
    → count p (states_of ss states) ≡ 0
count-states_of p [] states h = refl
count-states_of p (s ∷ ss) states h = ground (arith, h.0, count-states_of p ss states h.1)

one_base :
    (states : List NodeState)
    → count is_base (or_none (first_state base_states states)) ≡ (
        if has_state states allocated
          || has_state states down
          || has_state states error
          || has_state states future
          || has_state states idle
          || has_state states mixed
          || has_state states unknown
        then 1
        else 0)
one_base states = ground arith

count_base-counted :
    (n : SlurmNode) → count is_base (counted_states n) ≡ (if has_base n then 1 else 0)
unfolding counted_states base_state
count_base-counted n = omega (
  arith,
  count-append is_base (or_none (base_state n)) (states_of flag_states n.states),
  count-states_of is_base flag_states n.states
      (refl, (refl, (refl, (refl, (refl, (refl, (refl, (refl, tt)))))))),
  one_base n.states,
)

count_drain-counted :
    (n : SlurmNode)
    → count is_drain_flag (counted_states n) ≡ (if has_state n.states drain then 1 else 0)
unfolding counted_states base_state
count_drain-counted n = ground arith

-- Of any Slurm nodes and any Pods, the total is the number of nodes that are the node of a Pod; the
-- counters of the base states add up to those of them that have a base state, so no node is
-- counted in two base states; and the counter of the flag DRAIN is the number of them that drain.
pub count_nodes-partition :
    (pods : List Pod) (nodes : List SlurmNode)
    → let r = count_nodes pods nodes in
      (r.total ≡ count (λ n. is_node_of pods (slurm_name n)) nodes)
      × (count is_base r.counters ≡ count (λ n. is_node_of pods (slurm_name n) && has_base n) nodes)
      × (count is_drain_flag r.counters
          ≡ count (λ n. is_node_of pods (slurm_name n) && has_state n.states drain) nodes)
unfolding count_nodes
count_nodes-partition pods [] = (refl, refl, refl)
count_nodes-partition pods (n ∷ ns) = elim (Bool-cases (is_node_of pods (slurm_name n))) [
  | inl known ↦
      let rest = count_nodes-partition pods ns in
      rw known (
        omega (arith, rest.0),
        ground (
          arith,
          rest.1,
          count_base-counted n,
          count-append is_base (counted_states n) (count_nodes pods ns).counters,
        ),
        ground (
          arith,
          rest.2,
          count_drain-counted n,
          count-append is_drain_flag (counted_states n) (count_nodes pods ns).counters,
        ),
      )
  | inr other ↦ rw other (count_nodes-partition pods ns)
]
