-- ===== src/Claims/Update.antt =====
-- UpdateNodeSetPod of internal/controller/nodeset/podcontrol/podcontrol.go. Events and logging are
-- left out.
use gce_hackathon.Prelude.{Bool, true, false, List, Bytes, if◌then◌else◌}
use gce_hackathon.Objects.{Pod, NodeSet, Claim}
use gce_hackathon.Api.{
  Error, Result, ok, err, update_pod, World, M, ◌>>=◌, return, try_run, send, fetch_pod,
}
use gce_hackathon.Names.{is_identity_match, update_identity}
use gce_hackathon.Claims.Store.{
  create_persistent_volume_claims, pod_pvcs_match_retention_policy,
  update_pod_pvcs_for_retention_policy,
}
use gce_hackathon.Claims.Volumes.{is_storage_match, update_storage}

-- What one attempt comes to, and the Pod that the next attempt starts with.
pub record Attempt : Type 0 where
  pub outcome : Result (Unit {0})
  pub pod : Pod

module _ (w : World) (selector_labels : NodeSet → List (Bytes × Bytes))
    (iterate : List (Bytes × Claim) → List (Bytes × Claim))
    (new_aggregate : Error → List Error → Error) where
  abbrev pub pod_after : Pod → Result Pod → Pod
  pod_after p (ok updated) = updated
  pod_after p (err e) = p

  abbrev pub after_write : NodeSet → Pod → Result (Unit {0}) → M Attempt
  after_write s p (ok _) = return (record { outcome = ok tt; pod = p })
  after_write s p (err e) = try_run (fetch_pod w s.namespace p.name) >>= λ updated.
      return (record { outcome = err e; pod = pod_after p updated })

  -- Commit the update if the Pod is dirty.
  abbrev pub commit : NodeSet → Pod → Bool → M Attempt
  commit s p consistent =
      if consistent
      then return (record { outcome = ok tt; pod = p })
      else (try_run (send w (update_pod p)) >>= after_write s p)

  abbrev pub after_claims : NodeSet → Pod → Result (Unit {0}) → M Attempt
  after_claims s p (ok _) = commit s p false
  after_claims s p (err e) = return (record { outcome = err e; pod = p })

  abbrev pub check_claims : NodeSet → Pod → Bool → Result Bool → M Attempt
  check_claims s p consistent (ok true) = commit s p consistent
  check_claims s p consistent (ok false) =
      try_run (update_pod_pvcs_for_retention_policy w s p) >>= after_claims s p
  check_claims s p consistent (err e) = return (record { outcome = err e; pod = p })

  abbrev pub after_storage : NodeSet → Pod → Bool → Result (Unit {0}) → M Attempt
  after_storage s p consistent (ok _) =
      try_run (pod_pvcs_match_retention_policy w s p) >>= check_claims s p consistent
  after_storage s p consistent (err e) = return (record { outcome = err e; pod = p })

  abbrev pub check_storage : NodeSet → Pod → Bool → M Attempt
  check_storage s p consistent =
      let p1 = update_storage selector_labels iterate s p in
      if is_storage_match s p
      then after_storage s p consistent (ok tt)
      else (try_run (create_persistent_volume_claims w selector_labels iterate new_aggregate s p1)
          >>= after_storage s p1 false)

  -- One attempt: the Pod gets its identity, its storage and its claims where it lacks them, and is
  -- written where it was changed.
  unfoldable pub update_pod_attempt : NodeSet → Pod → M Attempt
  unfolding create_persistent_volume_claims update_pod_pvcs_for_retention_policy
      pod_pvcs_match_retention_policy
  update_pod_attempt s p =
      if is_identity_match s p
      then check_storage s p true
      else check_storage s (update_identity s p) false

  abbrev pub outcome_of : Attempt → M (Unit {0})
  outcome_of a t = (a.outcome, t)

  -- UpdateNodeSetPod. RetryOnConflict of client-go makes the attempts, the first at the Pod given,
  -- each later one at the Pod that the one before it left, and returns the last.
  unfoldable pub update_node_set_pod :
      ((Pod → M Attempt) → Pod → M Attempt) → NodeSet → Pod → M (Unit {0})
  unfolding update_pod_attempt
  update_node_set_pod retry_on_conflict s p =
      retry_on_conflict (update_pod_attempt s) p >>= outcome_of
