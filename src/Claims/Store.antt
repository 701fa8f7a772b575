-- ===== src/Claims/Store.antt =====
-- Reading and writing the claims of a Pod: PodPVCsMatchRetentionPolicy,
-- UpdatePodPVCsForRetentionPolicy, IsPodPVCsStale and createPersistentVolumeClaims
-- (internal/controller/nodeset/podcontrol/podcontrol.go). Events and logging are left out.
pub mod Mended
use gce_hackathon.Prelude.{
  Bool, true, false, not, List, [], ◌∷◌, ◌++◌, Option, none, some, Bytes, codes, if◌then◌else◌, map,
}
use gce_hackathon.Objects.{Pod, NodeSet, Claim}
use gce_hackathon.Api.{
  Error, Result, ok, err, create_claim, create_pod, update_claim, World, M, ◌>>=◌, ◌>>◌, return,
  throw, try_run, send, fetch_claim,
}
use gce_hackathon.Pods.{is_set}
use gce_hackathon.Claims.{
  of_pod, is_retain, get_retention_policy, has_stale_owner_ref, is_claim_owner_up_to_date,
  update_claim_owner_ref,
}
use gce_hackathon.Claims.Names.{claim_name, get_persistent_volume_claims}

-- A new error with a text of its own in front of another's. Errors that wrap another with %w are
-- found by errors.As, so what is asked of the inner one is asked of the outer one too.
abbrev pub wrap : Bytes → Error → Error
wrap text e = record e { text = text ++ e.text }

abbrev pub plain : Bytes → Error
plain text = record {
  text = text;
  not_found = false;
  already_exists = false;
  conflict = false;
  namespace_terminating = false;
}

module _ (w : World) where
  -- One round of the loop of PodPVCsMatchRetentionPolicy; `rest` are the rounds after it. An error
  -- of a read is not wrapped.
  abbrev pub check_claim : NodeSet → Pod → Bytes → M Bool → Result Claim → M Bool
  check_claim s p name rest (ok claim) =
      if is_claim_owner_up_to_date claim.owner_refs s p then rest else return false
  check_claim s p name rest (err e) =
      if e.not_found then rest else throw (plain (codes "could not retrieve claim " ++ name))

  unfoldable pub claims_match : NodeSet → Pod → List Claim → M Bool
  claims_match s p [] = return true
  claims_match s p (template ∷ templates) =
      let name = claim_name s p template.name in
      try_run (fetch_claim w s.namespace name) >>= check_claim s p name (claims_match s p templates)

  -- PodPVCsMatchRetentionPolicy.
  unfoldable pub pod_pvcs_match_retention_policy : NodeSet → Pod → M Bool
  unfolding claims_match
  pod_pvcs_match_retention_policy s p = claims_match s p s.volume_claim_templates

  abbrev pub wrap_failure : Bytes → Result (Unit {0}) → M (Unit {0})
  wrap_failure text (ok _) = return tt
  wrap_failure text (err e) = throw (wrap text e)

  abbrev pub refresh_claim : NodeSet → Pod → Bytes → Result Claim → M (Unit {0})
  refresh_claim s p name (ok claim) =
      if not (is_claim_owner_up_to_date claim.owner_refs s p)
      then try_run (
          send w (
            update_claim record claim { owner_refs = update_claim_owner_ref claim.owner_refs s p }))
        >>= wrap_failure (codes "could not update claim ")
      else return tt
  refresh_claim s p name (err e) =
      if e.not_found then return tt else throw (wrap (codes "could not retrieve claim ") e)

  -- The loop of UpdatePodPVCsForRetentionPolicy, which an error ends.
  unfoldable pub refresh_claims : NodeSet → Pod → List Claim → M (Unit {0})
  refresh_claims s p [] = return tt
  refresh_claims s p (template ∷ templates) =
      let name = claim_name s p template.name in
      try_run (fetch_claim w s.namespace name)
      >>= refresh_claim s p name
      >> refresh_claims s p templates

  -- UpdatePodPVCsForRetentionPolicy.
  unfoldable pub update_pod_pvcs_for_retention_policy : NodeSet → Pod → M (Unit {0})
  unfolding refresh_claims
  update_pod_pvcs_for_retention_policy s p = refresh_claims s p s.volume_claim_templates

  -- `iterate` is the order in which a map of claims is gone through.
  module _ (selector_labels : NodeSet → List (Bytes × Bytes))
      (iterate : List (Bytes × Claim) → List (Bytes × Claim)) where
    abbrev pub stale_claim : Pod → M Bool → Result Claim → M Bool
    stale_claim p rest (ok claim) =
        if has_stale_owner_ref claim.owner_refs (of_pod p) then return true else rest
    stale_claim p rest (err e) = if e.not_found then rest else throw e

    unfoldable pub claims_stale : Pod → List (Bytes × Claim) → M Bool
    claims_stale p [] = return false
    claims_stale p ((_, claim) ∷ claims) =
        try_run (fetch_claim w claim.namespace claim.name) >>= stale_claim p (claims_stale p claims)

    -- IsPodPVCsStale.
    unfoldable pub is_pod_pvcs_stale : NodeSet → Pod → M Bool
    unfolding claims_stale
    is_pod_pvcs_stale s p =
        if is_retain (get_retention_policy s).when_scaled
        then return false
        else claims_stale p (iterate (get_persistent_volume_claims selector_labels s p))

    abbrev pub creation_errors : Result (Unit {0}) → List Error
    creation_errors (ok _) = []
    creation_errors (err e) = wrap (codes "failed to create PVC ") e ∷ []

    -- The errors of one round of the loop of createPersistentVolumeClaims.
    abbrev pub ensure_claim : Claim → Result Claim → M (List Error)
    ensure_claim claim (ok found) = return (
        if is_set found.deletion_timestamp
        then plain (codes "pvc " ++ (claim.name ++ codes " is being deleted")) ∷ []
        else [])
    ensure_claim claim (err e) =
        if e.not_found
        then (try_run (send w (create_claim claim)) >>= λ r. return (creation_errors r))
        else return (wrap (codes "failed to retrieve PVC ") e ∷ [])

    unfoldable pub ensure_claims : NodeSet → List (Bytes × Claim) → M (List Error)
    ensure_claims s [] = return []
    ensure_claims s ((_, claim) ∷ claims) =
        try_run (fetch_claim w s.namespace claim.name) >>= ensure_claim claim >>= λ errors.
        ensure_claims s claims >>= λ more. return (errors ++ more)

    -- `new_aggregate` is NewAggregate of Kubernetes, of at least one error.
    module _ (new_aggregate : Error → List Error → Error) where
      abbrev pub aggregate : List Error → M (Unit {0})
      aggregate [] = return tt
      aggregate (e ∷ es) = throw (new_aggregate e es)

      -- createPersistentVolumeClaims: errors are collected, and all claims are gone through.
      unfoldable pub create_persistent_volume_claims : NodeSet → Pod → M (Unit {0})
      unfolding ensure_claims
      create_persistent_volume_claims s p =
          ensure_claims s (iterate (get_persistent_volume_claims selector_labels s p)) >>= aggregate

      abbrev pub mend_after_creation : NodeSet → Pod → Result (Unit {0}) → M (Unit {0})
      mend_after_creation s p (ok _) = update_pod_pvcs_for_retention_policy s p
      mend_after_creation s p (err e) =
          if e.already_exists
          then throw e
          else (update_pod_pvcs_for_retention_policy s p >> throw e)

      -- CreateNodeSetPod.
      unfoldable pub create_node_set_pod : NodeSet → Pod → M (Unit {0})
      unfolding create_persistent_volume_claims update_pod_pvcs_for_retention_policy
      create_node_set_pod s p =
          create_persistent_volume_claims s p
          >> (try_run (send w (create_pod p)) >>= mend_after_creation s p)
