-- ===== src/NodeSets/Upkeep.antt =====
-- What the NodeSet controller keeps up between Pods and their Slurm nodes: syncSlurmNodes,
-- syncSlurmDeadline with GetNodeDeadlines, and syncSlurmTopology
-- (internal/controller/nodeset/nodeset_sync.go and slurmcontrol/slurmcontrol.go). Events and logging
-- are left out.
use gce_hackathon.Prelude.{
  ℕ, ◌+◌, ◌*◌, ◌==◌, Bool, not, ◌||◌, Option, none, some, List, [], ◌∷◌, ◌++◌, any, Bytes, codes,
  bytes_eq, lookup, insert, delete, or_empty, if◌then◌else◌,
}
use gce_hackathon.Objects.{Pod, Node, NodeSet}
use gce_hackathon.Objects.Keys.{annotation_pod_deadline, annotation_node_topology_spec}
use gce_hackathon.Names.{get_slurm_node_name, is_empty}
use gce_hackathon.Slurm.{Job}
use gce_hackathon.Pods.{PodUtil, is_running_and_available, is_healthy}
use gce_hackathon.Stores.{Store}
use gce_hackathon.Stores.Time
use gce_hackathon.Api.{
  Error, Result, ok, err, delete_pod, patch_pod, World, M, ◌>>=◌, ◌>>◌, return, throw, try_run,
  send, fetch_node, fetch_slurm_jobs, client_known,
}
use gce_hackathon.SlurmControl.{is_node_of, get_nodes_for_pods, update_node_topology}
use gce_hackathon.NodeSets.Condemn.{unless_not_found}
use gce_hackathon.NodeSets.Batches.{for_each}

abbrev pub has_text : List Bytes → Bytes → Bool
has_text xs x = any (λ y. bytes_eq y x) xs

module _ (w : World) (order : ℕ → ℕ → List ℕ) where
  module _ (u : PodUtil) where
    -- syncSlurmNodesFn, at the time `now`.
    unfoldable pub sync_slurm_node : NodeSet → ℕ → List Bytes → Pod → M (Unit {0})
    sync_slurm_node s now registered p =
        if has_text registered (get_slurm_node_name p)
          || (not (is_running_and_available u p s.min_ready_seconds now) || not (is_healthy u p))
        then return tt
        else (try_run (send w (delete_pod p.namespace p.name)) >>= unless_not_found)

    abbrev pub delete_unregistered : NodeSet → ℕ → List Pod → Option (List Bytes) → M (Unit {0})
    delete_unregistered s now pods none = return tt
    delete_unregistered s now pods (some registered) =
        for_each order (sync_slurm_node s now registered) pods

    -- syncSlurmNodes.
    unfoldable pub sync_slurm_nodes : NodeSet → ℕ → List Pod → M (Unit {0})
    unfolding sync_slurm_node
    sync_slurm_nodes s now pods = get_nodes_for_pods w pods >>= delete_unregistered s now pods

  -- A job ends its time limit after its start; `minute` is a minute in the unit of times,
  -- `infinite_duration` what counts for a limit that is infinite.
  module _ (expand : Bytes → Result (List Bytes)) (minute infinite_duration : ℕ) where
    unfoldable pub job_deadline : Job → ℕ
    job_deadline j =
        j.start_time + (if j.infinite then infinite_duration else j.time_limit * minute)

    abbrev pub push_each : List Bytes → ℕ → Store ℕ → Store ℕ
    push_each [] deadline store = store
    push_each (name ∷ names) deadline store =
        push_each names deadline (Time.push Time.greater name deadline store)

    abbrev pub push_job : List Pod → Job → List Bytes → Store ℕ → Store ℕ
    push_job pods j names store =
        if any (is_node_of pods) names then push_each names (job_deadline j) store else store

    -- The loop over the jobs; a host list that cannot be expanded ends it.
    unfoldable pub push_jobs : List Pod → List Job → Store ℕ → Result (Store ℕ)
    unfolding job_deadline
    push_jobs pods [] store = ok store
    push_jobs pods (j ∷ jobs) store =
        let rest = push_jobs pods jobs in
        if not j.running
        then rest store
        else elim (expand j.nodes) [ ok names ↦ rest (push_job pods j names store) | err e ↦ err e ]

    abbrev pub lift : {A : Type 0} → Result A → M A
    lift (ok a) = return a
    lift (err e) = throw e

    -- GetNodeDeadlines.
    unfoldable pub get_node_deadlines : List Pod → M (Store ℕ)
    unfolding push_jobs
    get_node_deadlines pods = do
      known ← client_known w
      if known then (fetch_slurm_jobs w >>= λ jobs. lift (push_jobs pods jobs [])) else return []

    -- `format` is Format of package time with the layout RFC3339. The zero time is 0.
    module _ (format : ℕ → Bytes) where
      unfoldable pub with_deadline : ℕ → Pod → Pod
      with_deadline deadline p = record p {
        annotations =
            if deadline == 0
            then delete annotation_pod_deadline p.annotations
            else insert annotation_pod_deadline (format deadline) p.annotations;
      }

      -- syncSlurmDeadlineFn. The Pods of a NodeSet have annotations, so the map is not nil.
      unfoldable pub sync_pod_deadline : Store ℕ → Pod → M (Unit {0})
      unfolding with_deadline
      sync_pod_deadline deadlines p =
          let deadline = Time.peek (get_slurm_node_name p) deadlines in
          try_run (send w (patch_pod (with_deadline deadline p) p)) >>= unless_not_found

      -- syncSlurmDeadline.
      unfoldable pub sync_slurm_deadline : List Pod → M (Unit {0})
      unfolding get_node_deadlines sync_pod_deadline
      sync_slurm_deadline pods = do
        deadlines ← get_node_deadlines pods
        for_each order (sync_pod_deadline deadlines) pods

  abbrev pub wrap : Bytes → Error → Error
  wrap text e = record e { text = text ++ e.text }

  abbrev pub tolerate_missing : Bytes → Result (Unit {0}) → M (Unit {0})
  tolerate_missing text (ok _) = return tt
  tolerate_missing text (err e) = if not e.not_found then throw (wrap text e) else return tt

  abbrev pub wrap_failure : Bytes → Result (Unit {0}) → M (Unit {0})
  wrap_failure text (ok _) = return tt
  wrap_failure text (err e) = throw (wrap text e)

  abbrev pub with_topology : Bytes → Pod → Pod
  with_topology spec p = record p {
    annotations = insert annotation_node_topology_spec spec p.annotations;
  }

  abbrev pub carry_topology : Pod → Result Node → M (Unit {0})
  carry_topology p (ok node) =
      let spec = or_empty (lookup annotation_node_topology_spec node.annotations) in
      try_run (send w (patch_pod (with_topology spec p) p))
      >>= tolerate_missing (codes "failed to patch pod annotations: ")
      >> (try_run (update_node_topology w p spec)
          >>= wrap_failure (codes "failed to update Slurm node topology: "))
  carry_topology p (err e) = if e.not_found then return tt else throw e

  -- syncSlurmTopologyFn.
  unfoldable pub sync_pod_topology : Pod → M (Unit {0})
  sync_pod_topology p =
      if is_empty p.node_name
      then return tt
      else (try_run (fetch_node w p.node_name) >>= carry_topology p)

  -- syncSlurmTopology.
  unfoldable pub sync_slurm_topology : List Pod → M (Unit {0})
  unfolding sync_pod_topology
  sync_slurm_topology pods = for_each order sync_pod_topology pods
