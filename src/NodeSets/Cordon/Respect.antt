-- ===== src/NodeSets/Cordon/Respect.antt =====
-- Cordoning and uncordoning Pods, and draining their Slurm nodes
-- (internal/controller/nodeset/nodeset_sync.go): what is left alone.
use gce_hackathon.Prelude.{
  ◌≡◌, refl, Bool, true, false, not, List, [], ◌∷◌, Bytes, count, or_empty, arith,
}
use gce_hackathon.Objects.{Pod, Node}
use gce_hackathon.Api.{
  ok, Request, Trace, World, return, patch_pod, delete_pod, create_pod, fix_claims, update_pod,
  create_claim, update_claim, patch_pod_status, update_node_set_status, patch_node, slurm_update,
  slurm_delete, slurm_get, get_node,
}
use gce_hackathon.Api.Counts.{counted, AtMost, bind-AtMost, return-AtMost, if-AtMost}
use gce_hackathon.Slurm.{SlurmNode}
use gce_hackathon.Names.{get_slurm_node_name}
use gce_hackathon.SlurmControl.{
  reason_is_ours, is_node_down_for_unresponsive, is_node_drain, is_node_reason_ours,
}
use gce_hackathon.SlurmControl.Requests.{
  make_node_drain-AtMost, make_node_undrain-AtMost, is_node_drain-AtMost,
  is_node_reason_ours-AtMost,
}
use gce_hackathon.NodeSets.Cordon.{
  make_pod_cordon, make_pod_uncordon, is_node_cordoned, sync_slurm_node_drain,
  sync_slurm_node_undrain, make_pod_cordon_and_drain, make_pod_uncordon_and_undrain,
  sync_pod_uncordon,
}
use gce_hackathon.NodeSets.Cordon.Sync.{cordon_cases, sync_cordon_pod}

module _ (creations deletions : Bool) (w : World) where
  pub make_pod_cordon-AtMost :
      (p : Pod) → AtMost (counted creations deletions) 0 (make_pod_cordon w p)
  unfolding make_pod_cordon
  make_pod_cordon-AtMost p t = ground arith

  pub make_pod_uncordon-AtMost :
      (p : Pod) → AtMost (counted creations deletions) 0 (make_pod_uncordon w p)
  unfolding make_pod_uncordon
  make_pod_uncordon-AtMost p t = ground arith

  is_node_cordoned-AtMost :
      (p : Pod) → AtMost (counted creations deletions) 0 (is_node_cordoned w p)
  unfolding is_node_cordoned
  is_node_cordoned-AtMost p t = ground arith

  module _ (print_object : Pod → Bytes) where
    pub make_pod_cordon_and_drain-AtMost :
        (p : Pod) (reason : Bytes)
        → AtMost (counted creations deletions) 0 (make_pod_cordon_and_drain w print_object p reason)
    unfolding make_pod_cordon_and_drain sync_slurm_node_drain
    make_pod_cordon_and_drain-AtMost p reason =
        bind-AtMost (counted creations deletions) 0 0 (make_pod_cordon w p) _
          (make_pod_cordon-AtMost p) (λ p1. make_node_drain-AtMost creations deletions w p1 _)

    make_pod_uncordon_and_undrain-AtMost :
        (p : Pod) (reason : Bytes)
        → AtMost
            (counted creations deletions)
            0
            (make_pod_uncordon_and_undrain w print_object p reason)
    unfolding make_pod_uncordon_and_undrain sync_slurm_node_undrain
    make_pod_uncordon_and_undrain-AtMost p reason =
        bind-AtMost (counted creations deletions) 0 0 (make_pod_uncordon w p) _
          (make_pod_uncordon-AtMost p)
          (λ p1.
            bind-AtMost (counted creations deletions) 0 0 (is_node_drain w p1) _
              (is_node_drain-AtMost creations deletions w p1)
              (λ drains.
                if-AtMost (counted creations deletions) 0 (not drains) (return (tt {0})) _
                  (return-AtMost (counted creations deletions) (tt {0}))
                  (make_node_undrain-AtMost creations deletions w p1 _)))

    -- Cordoning and uncordoning create and delete no Pods.
    pub sync_pod_uncordon-AtMost :
        (p : Pod) → AtMost (counted creations deletions) 0 (sync_pod_uncordon w print_object p)
    unfolding sync_pod_uncordon
    sync_pod_uncordon-AtMost p =
        bind-AtMost (counted creations deletions) 0 0 (is_node_cordoned w p) _
          (is_node_cordoned-AtMost p)
          (λ cordoned.
            if-AtMost (counted creations deletions) 0 cordoned (return (tt {0})) _
              (return-AtMost (counted creations deletions) (tt {0}))
              (bind-AtMost (counted creations deletions) 0 0 (is_node_reason_ours w p) _
                (is_node_reason_ours-AtMost creations deletions w p)
                (λ ours.
                  if-AtMost (counted creations deletions) 0 (not ours) (return (tt {0})) _
                    (return-AtMost (counted creations deletions) (tt {0}))
                    (make_pod_uncordon_and_undrain-AtMost p []))))

-- A request that changes something outside the controller.
abbrev pub is_write : Request → Bool
is_write (patch_pod p q) = true
is_write (delete_pod namespace name) = true
is_write (create_pod p) = true
is_write (fix_claims p) = true
is_write (update_pod p) = true
is_write (patch_pod_status p q) = true
is_write (update_node_set_status status) = true
is_write (create_claim c) = true
is_write (update_claim c) = true
is_write (patch_node m n) = true
is_write (slurm_update node msg) = true
is_write (slurm_delete name) = true
is_write _ = false

-- Whatever was requested before, the Slurm node of the Pod can be read, and its reason is neither
-- empty nor the operator's.
abbrev pub IsForeignAt : World → Pod → SlurmNode → Type 0
IsForeignAt w p node =
    (t : Trace)
    → (w.has_client t ≡ true)
      × (w.read_slurm_node t (get_slurm_node_name p) ≡ ok node)
      × (reason_is_ours (or_empty node.reason) ≡ false)

is_node_reason_ours-foreign :
    (w : World) (p : Pod) (node : SlurmNode)
    → IsForeignAt w p node
    → (t : Trace) → is_node_reason_ours w p t ≡ (ok false, slurm_get (get_slurm_node_name p) ∷ t)
unfolding is_node_reason_ours
is_node_reason_ours-foreign w p node foreign t =
    rw ((foreign t).0, (foreign t).1, (foreign t).2) refl

module _ (w : World) (print_object : Pod → Bytes) (p : Pod) (t : Trace) where
  -- A Pod on a Kubernetes node that can be read and is cordoned is not uncordoned by
  -- `sync_pod_uncordon`: nothing is written.
  pub sync_pod_uncordon-cordoned :
      {node : Node}
      → w.read_node t p.node_name ≡ ok node
      → node.unschedulable ≡ true
      → count is_write (sync_pod_uncordon w print_object p t).1 ≡ count is_write t
  unfolding sync_pod_uncordon is_node_cordoned
  sync_pod_uncordon-cordoned read cordoned = rw (read, cordoned) refl

  -- Where the Slurm node of a Pod has a reason that somebody else gave, neither `sync_pod_uncordon`
  -- nor `sync_cordon_pod` writes anything, whatever else the two read.
  pub foreign_reason-respected :
      (propagated : List Bytes) (node : SlurmNode)
      → IsForeignAt w p node
      → (count is_write (sync_pod_uncordon w print_object p t).1 ≡ count is_write t)
        × (count is_write (sync_cordon_pod w print_object propagated p t).1 ≡ count is_write t)
  unfolding sync_pod_uncordon is_node_cordoned sync_cordon_pod is_node_down_for_unresponsive
      cordon_cases
  foreign_reason-respected propagated node foreign = (
    ground (arith, is_node_reason_ours-foreign w p node foreign (get_node p.node_name ∷ t)),
    ground (
      arith,
      foreign (get_node p.node_name ∷ t),
      is_node_reason_ours-foreign w p node foreign
          (slurm_get (get_slurm_node_name p) ∷ get_node p.node_name ∷ t),
    ),
  )
