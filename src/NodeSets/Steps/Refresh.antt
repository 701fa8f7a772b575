-- ===== src/NodeSets/Steps/Refresh.antt =====
-- Without a refreshed cache of Slurm nodes no Pod and no Slurm node is touched: `sync` of
-- internal/controller/nodeset/nodeset_sync.go.
use gce_hackathon.Prelude.{
  ℕ, ◌≤◌, ◌≡◌, refl, ap, Bool, true, false, some, List, ◌∷◌, Bytes, count, Option-cases, inl, inr,
  arith,
}
use gce_hackathon.Objects.{Pod, Node, NodeSet}
use gce_hackathon.Pods.{PodUtil}
use gce_hackathon.Api.{
  Error, Result, ok, err, Request, patch_pod, patch_pod_status, delete_pod, create_pod, fix_claims,
  update_pod, slurm_update, slurm_delete, slurm_refresh_nodes, Trace, World, M, fetch_nodes,
  fetch_node_sets, fetch_pods,
}
use gce_hackathon.Api.Counts.{AtMost, then-AtMost}
use gce_hackathon.Batch.Runs.{IsOrder}
use gce_hackathon.SyncSteps.{Step}
use gce_hackathon.SyncSteps as Run
use gce_hackathon.SlurmControl.{refresh_node_cache}
use gce_hackathon.SlurmControl.PodInfo.{Json}
use gce_hackathon.NodeSets.Batches.{error_of}
use gce_hackathon.NodeSets.Batches.Counts.{for_each-AtMost, error_of-trace}
use gce_hackathon.NodeSets.Taints.{
  TaintUtil, patch_if_changed, sync_taint, sync_node_taint, tainting_uids, nodes_with_pod,
}
use gce_hackathon.NodeSets.Steps.{step_of, no_event, steps, sync}

-- A request that changes Pods or Slurm nodes.
abbrev pub touches : Request → Bool
touches (patch_pod p q) = true
touches (patch_pod_status p q) = true
touches (delete_pod namespace name) = true
touches (create_pod p) = true
touches (fix_claims p) = true
touches (update_pod p) = true
touches (slurm_update node msg) = true
touches (slurm_delete name) = true
touches _ = false

-- A step that is not one to stop at is followed by the next.
step_goes :
    (step : Step Trace Error) (steps : List (Step Trace Error)) (t : Trace)
    → step.stop_on_error ≡ false
    → (Run.sync no_event (step ∷ steps) t).1 ≡ (Run.sync no_event steps (step.sync_fn t).1).1
unfolding Run.sync
step_goes step rest t h = elim (Option-cases (step.sync_fn t).0) [
  | inl fine ↦ rw (fine, Run.sync)
  | inr (e, failed) ↦ rw (failed, h, Run.sync)
]

-- A step that is one to stop at, and fails, is the last.
step_stops :
    (step : Step Trace Error) (steps : List (Step Trace Error)) (t : Trace) {e : Error}
    → step.stop_on_error ≡ true
    → (step.sync_fn t).0 ≡ some e
    → (Run.sync no_event (step ∷ steps) t).1 ≡ (step.sync_fn t).1
unfolding Run.sync
step_stops step rest t h failed = rw (failed, h, Run.sync)

abbrev IsQuiet : List (Step Trace Error) → Type 0
IsQuiet rest = (t : Trace) → count touches (Run.sync no_event rest t).1 ≤ count touches t

IsQuiet-goes :
    (name : Bytes) (m : M (Unit {0})) (rest : List (Step Trace Error))
    → AtMost touches 0 m
    → IsQuiet rest
    → IsQuiet (step_of name m false ∷ rest)
IsQuiet-goes name m rest quiet next t =
    rw (step_goes (step_of name m false) rest t refl)
      (omega (arith, next (error_of (m t)).1, ap (count touches) (error_of-trace (m t)), quiet t))

IsQuiet-stops :
    (name : Bytes) (m : M (Unit {0})) (rest : List (Step Trace Error))
    → ((t : Trace)
        → (e : Error) × ((error_of (m t)).0 ≡ some e)
          × (count touches (error_of (m t)).1 ≤ count touches t))
    → IsQuiet (step_of name m true ∷ rest)
IsQuiet-stops name m rest fails t =
    let (e, failed, quiet) = fails t in
    rw (step_stops (step_of name m true) rest t refl failed) quiet

module _ (w : World) (util : TaintUtil) where
  patch_if_changed-AtMost :
      (node : Node) (r : Result (Node × Bool)) → AtMost touches 0 (patch_if_changed w util node r)
  patch_if_changed-AtMost node (err e) t = omega arith
  patch_if_changed-AtMost node (ok (to_update, true)) t = ground arith
  patch_if_changed-AtMost node (ok (to_update, false)) t = ground arith

  sync_taint-AtMost :
      (with_pod : List Bytes) (node : Node) → AtMost touches 0 (sync_taint w util with_pod node)
  unfolding sync_taint
  sync_taint-AtMost with_pod node t = ground (
    arith,
    patch_if_changed-AtMost node (util.add_or_update_taint node _) t,
    patch_if_changed-AtMost node (util.remove_taint node _) t,
  )

  module _ (order : ℕ → ℕ → List ℕ) (any_order : IsOrder order) where
    sync_node_taint-AtMost : AtMost touches 0 (sync_node_taint w util order)
    unfolding sync_node_taint
    sync_node_taint-AtMost =
        then-AtMost touches 0 (fetch_nodes w) _ (λ t. omega arith)
          (λ nodes.
            then-AtMost touches 0 (fetch_node_sets w) _ (λ t. omega arith)
              (λ node_sets.
                then-AtMost touches 0 (fetch_pods w) _ (λ t. omega arith)
                  (λ pods.
                    for_each-AtMost touches false
                      (sync_taint w util (nodes_with_pod (tainting_uids node_sets) pods))
                      (sync_taint-AtMost (nodes_with_pod (tainting_uids node_sets) pods)) order
                      any_order nodes)))

    module _ (u : PodUtil) (json : Json) (print_object : Pod → Bytes) (propagated : List Bytes)
        (expand : Bytes → Result (List Bytes)) (minute infinite_duration : ℕ) (format : ℕ → Bytes)
        (service pdb ssh_config : M (Unit {0}))
        (node_set_pods : NodeSet → ℕ → List Pod → Bytes → M (Unit {0})) where
      -- Suppose that the steps for the Service, the PodDisruptionBudget and the configuration of
      -- ssh touch no Pods and no Slurm nodes, and that there is a client of Slurm, which answers
      -- each request to refresh its cache of nodes with an error. Then one run of the steps of a
      -- NodeSet makes no request that creates, updates, patches or deletes a Pod, mends its claims,
      -- or updates or deletes a Slurm node, whatever the Pods are and whatever else is answered.
      pub sync-refresh_fails :
          (s : NodeSet) (now : ℕ) (pods : List Pod) (hash : Bytes) (e : Trace → Error)
          → AtMost touches 0 service
          → AtMost touches 0 pdb
          → AtMost touches 0 ssh_config
          → ((t : Trace) → w.has_client t ≡ true)
          → ((t : Trace) → w.write t slurm_refresh_nodes ≡ some (e t))
          → (t : Trace)
          → count touches
              (sync w order util u json print_object propagated expand minute infinite_duration
                format service pdb ssh_config node_set_pods s now pods hash t).1
            ≤ count touches t
      unfolding sync steps refresh_node_cache
      sync-refresh_fails s now pods hash e quiet_service quiet_pdb quiet_ssh client fails t =
          IsQuiet-goes _ service _ quiet_service
            (IsQuiet-goes _ pdb _ quiet_pdb (
              IsQuiet-goes _ ssh_config _ quiet_ssh (
                IsQuiet-goes _ (sync_node_taint w util order) _ sync_node_taint-AtMost (
                  IsQuiet-stops _ (refresh_node_cache w) _
                    (λ t1. rw (client t1, fails t1) (e t1, refl, omega arith))))))
            t
