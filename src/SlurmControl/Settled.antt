-- ===== src/SlurmControl/Settled.antt =====
-- What MakeNodeDrain (internal/controller/nodeset/slurmcontrol/slurmcontrol.go) leads to.
use gce_hackathon.Prelude.{
  ◌≡◌, refl, ap, ◌∙◌, true, ◌&&◌, none, some, ◌∷◌, Bytes, bytes_eq, bytes_eq_sound, bytes_eq_refl,
  or_empty, inl, inr, Bool-cases, arith,
}
use gce_hackathon.Objects.{Pod}
use gce_hackathon.Slurm.{SlurmNode, UpdateNodeMsg, set_drain, drain}
use gce_hackathon.Api.{slurm_get, slurm_update, Trace, World, ok}
use gce_hackathon.Names.{get_slurm_node_name}
use gce_hackathon.SlurmControl.{
  prefixed_reason, reason_is_ours, no_update, has_state, make_node_drain, is_node_drain,
  is_node_reason_ours,
}
use gce_hackathon.SlurmControl.Drain.{prefixed_reason-is_ours}

-- There is a client of Slurm, a read changes nothing, and an update that drains a node is accepted: the
-- node is read afterwards as one that drains, with the reason of the update.
pub record Applies (w : World) (p : Pod) : Type 0 where
  pub known : (t : Trace) → w.has_client t ≡ true
  pub read_again :
      (t : Trace)
      → w.read_slurm_node (slurm_get (get_slurm_node_name p) ∷ t) (get_slurm_node_name p)
        ≡ w.read_slurm_node t (get_slurm_node_name p)
  pub accepted :
      (t : Trace) (node : SlurmNode) (msg : UpdateNodeMsg)
      → w.write t (slurm_update node msg) ≡ none
  pub drained :
      (t : Trace) (node : SlurmNode) (reason : Bytes)
      → (after : SlurmNode) × (w.read_slurm_node
            (slurm_update node (record no_update { state = some set_drain; reason = some reason })
              ∷ t)
            (get_slurm_node_name p)
          ≡ ok after)
        × (has_state after.states drain ≡ true)
        × (after.reason ≡ some reason)

module _ (w : World) (p : Pod) (applies : Applies w p) (reason : Bytes) where
  -- The node drains for the reason: to drain it again sends no update.
  abbrev pub Settled : Trace → Type 0
  Settled t =
      ((make_node_drain w p reason t).1 ≡ slurm_get (get_slurm_node_name p) ∷ t)
      × ((is_node_drain w p t).0 ≡ ok true)
      × ((is_node_reason_ours w p t).0 ≡ ok true)

  drained-Settled :
      (t : Trace) (node : SlurmNode)
      → w.read_slurm_node t (get_slurm_node_name p) ≡ ok node
      → has_state node.states drain ≡ true
      → bytes_eq (or_empty node.reason) (prefixed_reason reason) ≡ true
      → Settled t
  unfolding make_node_drain is_node_drain is_node_reason_ours
  drained-Settled t node read drains same =
      let ours =
        ap reason_is_ours (bytes_eq_sound (or_empty node.reason) (prefixed_reason reason) same)
        ∙ prefixed_reason-is_ours reason in
      (
        rw (applies.known t, read, drains, same) refl,
        rw (applies.known t, read, drains) refl,
        rw (applies.known t, read, ours) refl,
      )

  -- Where Slurm is reachable and applies what it is sent, MakeNodeDrain of a node that can be read leads
  -- to a node that drains, with a reason that IsNodeReasonOurs takes for the operator's, and a second
  -- MakeNodeDrain for the same reason sends no update.
  pub make_node_drain-Settled :
      (t : Trace) {node : SlurmNode}
      → w.read_slurm_node t (get_slurm_node_name p) ≡ ok node
      → Settled (make_node_drain w p reason t).1
  unfolding make_node_drain
  make_node_drain-Settled t {node} read =
      let name = get_slurm_node_name p in
      let msg = record no_update {
        state = some set_drain;
        reason = some (prefixed_reason reason);
      } in
      let (after, found, drains, given) =
        applies.drained (slurm_get name ∷ t) node (prefixed_reason reason) in
      elim (Bool-cases
        (has_state node.states drain && bytes_eq (or_empty node.reason) (prefixed_reason reason))) [
          | inl done ↦
              rw (applies.known t, read, done)
                (drained-Settled (slurm_get name ∷ t) node (applies.read_again t ∙ read)
                  (grind (arith, done)) (grind (arith, done)))
          | inr not_yet ↦
              rw (applies.known t, read, not_yet, applies.accepted (slurm_get name ∷ t) node msg)
                (drained-Settled (slurm_update node msg ∷ slurm_get name ∷ t) after found drains (
                  ap (λ r. bytes_eq (or_empty r) (prefixed_reason reason)) given
                  ∙ bytes_eq_refl (prefixed_reason reason)))
        ]
