-- ===== src/SlurmControl/Drain.antt =====
-- Draining and undraining Slurm nodes (internal/controller/nodeset/slurmcontrol/slurmcontrol.go):
-- which requests are sent, and with which reason.
use gce_hackathon.Prelude.{
  ◌↔◌, ◌⊎◌, ◌≡◌, refl, Bool, true, false, not, ◌&&◌, some, [], ◌∷◌, Bytes, bytes_eq, or_empty,
  count, if◌then◌else◌, arith,
}
use gce_hackathon.Objects.{Pod}
use gce_hackathon.Slurm.{
  SlurmNode, UpdateNodeMsg, set_drain, set_undrain, undrain, allocated, mixed, completing, drain,
}
use gce_hackathon.Api.{Request, slurm_get, slurm_update, Trace, World, Error, ok, err}
use gce_hackathon.Names.{get_slurm_node_name}
use gce_hackathon.SlurmControl.{
  prefixed_reason, reason_is_ours, no_update, has_state, tolerate_error, make_node_drain,
  make_node_undrain, is_node_drained,
}

-- The reason that the operator gives is one that it later takes for its own, whatever the text.
pub prefixed_reason-is_ours : (reason : Bytes) → reason_is_ours (prefixed_reason reason) ≡ true
unfolding reason_is_ours prefixed_reason
prefixed_reason-is_ours [] = refl
prefixed_reason-is_ours (c ∷ s) = refl

abbrev foreign_reason : UpdateNodeMsg → Bool
foreign_reason msg = not (reason_is_ours (or_empty msg.reason))

-- An update of a Slurm node with a reason that is not the operator's.
abbrev pub is_foreign : Request → Bool
is_foreign (slurm_update node msg) = foreign_reason msg
is_foreign q = false

module _ (w : World) (p : Pod) (reason : Bytes) (t : Trace) where
  -- What `make_node_drain` sends to a node that it can read: nothing if the node drains for the same
  -- reason already, and otherwise one update that drains it for that reason.
  pub make_node_drain_requests :
      {node : SlurmNode}
      → w.has_client t ≡ true
      → w.read_slurm_node t (get_slurm_node_name p) ≡ ok node
      → (make_node_drain w p reason t).1 ≡ (
          if has_state node.states drain && bytes_eq (or_empty node.reason) (prefixed_reason reason)
          then slurm_get (get_slurm_node_name p) ∷ t
          else slurm_update node
              (record no_update { state = some set_drain; reason = some (prefixed_reason reason) })
            ∷ slurm_get (get_slurm_node_name p)
            ∷ t)
  unfolding make_node_drain
  make_node_drain_requests known read = ground arith

  -- What `make_node_undrain` sends to a node that it can read: one update, if the node drains and
  -- its undrain is not under way, and nothing otherwise.
  pub make_node_undrain_requests :
      {node : SlurmNode}
      → w.has_client t ≡ true
      → w.read_slurm_node t (get_slurm_node_name p) ≡ ok node
      → (make_node_undrain w p reason t).1 ≡ (
          if has_state node.states drain && not (has_state node.states undrain)
          then slurm_update node (record no_update {
            state = some set_undrain;
            reason = some (prefixed_reason reason);
          })
            ∷ slurm_get (get_slurm_node_name p)
            ∷ t
          else slurm_get (get_slurm_node_name p) ∷ t)
  unfolding make_node_undrain
  make_node_undrain_requests known read = ground arith

  -- Whatever the Slurm client answers, draining and undraining send no update with a reason that the
  -- operator would not take for its own.
  pub drain_keeps_reason_ours :
      (count is_foreign (make_node_drain w p reason t).1 ≡ count is_foreign t)
      × (count is_foreign (make_node_undrain w p reason t).1 ≡ count is_foreign t)
  unfolding make_node_drain make_node_undrain
  drain_keeps_reason_ours = (
    ground (arith, prefixed_reason-is_ours reason),
    ground (arith, prefixed_reason-is_ours reason),
  )

module _ (w : World) (p : Pod) (t : Trace) where
  -- Of a node that can be read, `is_node_drained` holds exactly when it drains, is not being
  -- undrained, and does no work.
  pub is_node_drained_iff :
      {node : SlurmNode}
      → w.has_client t ≡ true
      → w.read_slurm_node t (get_slurm_node_name p) ≡ ok node
      → ((is_node_drained w p t).0 ≡ ok true) ↔ (
          (has_state node.states drain ≡ true)
          × (has_state node.states undrain ≡ false)
          × (has_state node.states allocated ≡ false)
          × (has_state node.states mixed ≡ false)
          × (has_state node.states completing ≡ false))
  unfolding is_node_drained
  is_node_drained_iff known read = (λ h. ground arith, λ h. ground arith)

  -- Without a client, and where the node does not exist, every node counts as drained.
  pub is_node_drained_absent :
      (w.has_client t ≡ false)
        ⊎ ((e : Error) × (w.read_slurm_node t (get_slurm_node_name p) ≡ err e)
            × (tolerate_error e ≡ true))
      → (is_node_drained w p t).0 ≡ ok true
  unfolding is_node_drained
  is_node_drained_absent h = ground arith
