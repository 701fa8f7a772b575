-- ===== src/NodeSets/Reconcile.antt =====
-- Sync of internal/controller/nodeset/nodeset_sync.go: one reconcile of a NodeSet. Logging is left
-- out.
use gce_hackathon.Prelude.{Bool, List, [], ◌∷◌, ◌++◌, Bytes, codes, if◌then◌else◌}
use gce_hackathon.Objects.{Pod, NodeSet, Revision, set_node_set_defaults}
use gce_hackathon.Api.{
  Error, Result, ok, err, delete_expectations, push_duration, Trace, World, M, ◌>>=◌, ◌>>◌, return,
  throw, try_run, fetch_node_set,
}
use gce_hackathon.NodeSets.Condemn.{tell, thirty_seconds}
use gce_hackathon.NodeSets.History.Latest.{Revisions}

-- `satisfied` is SatisfiedExpectations of Kubernetes for the key of the NodeSet. The other
-- parameters are the parts that Sync calls: `adopt_orphan_revisions`, `list_revisions`,
-- `get_revisions` (getNodeSetRevisions), `hash_of` (GetRevision of the labels of a revision),
-- `get_pods` (getNodeSetPods), `sync` (Steps), `sync_update` and `truncate_history` (Scale and
-- History), and `sync_status`, which is given the errors so far and returns them with its own.
module _ (w : World) (satisfied : Trace → Bool) (adopt_orphan_revisions : NodeSet → M (Unit {0}))
    (list_revisions : NodeSet → M (List Revision))
    (get_revisions : NodeSet → List Revision → M Revisions) (hash_of : Revision → Bytes)
    (get_pods : NodeSet → M (List Pod)) (sync : NodeSet → List Pod → Bytes → M (Unit {0}))
    (sync_update : NodeSet → List Pod → Bytes → M (Unit {0}))
    (truncate_history : NodeSet → List Revision → Revisions → M (Unit {0}))
    (sync_status : NodeSet → List Pod → Revisions → Bytes → List Error → M (Unit {0})) where
  abbrev pub if_satisfied : M (Unit {0}) → M (Unit {0}) → M (Unit {0})
  if_satisfied m n t = if satisfied t then m t else n t

  module _ (s : NodeSet) (revisions : List Revision) (r : Revisions) (pods : List Pod)
      (hash : Bytes) where
    abbrev pub finish : List Error → M (Unit {0})
    finish errors = sync_status s pods r hash errors

    abbrev pub or_finish : (Error → Error) → M (Unit {0}) → Result (Unit {0}) → M (Unit {0})
    or_finish wrap next (ok _) = next
    or_finish wrap next (err e) = finish (wrap e ∷ [])

    abbrev pub clean_up_failed : Error → Error
    clean_up_failed e = record e {
      text = codes "failed to clean up revisions of NodeSet" ++ e.text;
    }

    -- After the steps: the update and the history, if the expectations are satisfied by then.
    abbrev pub update_and_truncate : M (Unit {0})
    update_and_truncate =
        if_satisfied
          (try_run (sync_update s pods hash)
            >>= or_finish (λ e. e)
                (try_run (truncate_history s revisions r)
                  >>= or_finish clean_up_failed (finish [])))
          (finish [])

    unfoldable pub sync_all : M (Unit {0})
    sync_all =
        if_satisfied
          (if s.deleting
            then finish []
            else (try_run (sync s pods hash) >>= or_finish (λ e. e) update_and_truncate))
          (finish [])

  unfoldable pub sync_live : NodeSet → M (Unit {0})
  unfolding sync_all
  sync_live s =
      tell w (◌∷◌ (push_duration thirty_seconds))
      >> (adopt_orphan_revisions s
          >> (list_revisions s >>= λ revisions. get_revisions s revisions >>= λ r.
              get_pods s >>= λ pods. sync_all s revisions r pods (hash_of r.update)))

  abbrev pub sync_found : Result NodeSet → M (Unit {0})
  sync_found (ok s) =
      let defaulted = set_node_set_defaults s in
      if defaulted.deleting then return tt else sync_live defaulted
  sync_found (err e) = if e.not_found then tell w (◌∷◌ delete_expectations) else throw e

  -- Sync, of the NodeSet of a name.
  unfoldable pub sync_node_set : Bytes → Bytes → M (Unit {0})
  unfolding sync_live
  sync_node_set namespace name = try_run (fetch_node_set w namespace name) >>= sync_found
