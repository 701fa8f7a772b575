-- ===== src/NodeSets/Conditions/Missing.antt =====
-- A Pod that is missing ends updateNodeSetPodConditions
-- (internal/controller/nodeset/nodeset_sync_status.go).
use gce_hackathon.Prelude.{◌≡◌, refl, true, none, some, List, [], ◌∷◌, ◌++◌, All}
use gce_hackathon.Objects.{Pod, PodCondition}
use gce_hackathon.Api.{Error, ok, patch_pod_status, Trace, World}
use gce_hackathon.SlurmControl.Count.{SlurmNodeStatus}
use gce_hackathon.NodeSets.Conditions.{with_conditions, update_node_set_pod_conditions}

module _ (w : World) (update : List PodCondition → PodCondition → List PodCondition)
    (status : SlurmNodeStatus) where
  -- The patch of the conditions of the Pod is accepted, whenever it is made.
  abbrev pub IsPatched : Pod → Type 0
  IsPatched p =
      (t : Trace) → w.write t (patch_pod_status (with_conditions w update status p) p) ≡ none

  -- The patch is answered by an error that says that the Pod is missing.
  abbrev pub IsMissing : Pod → (Trace → Error) → Type 0
  IsMissing p e =
      (t : Trace)
      → (w.write t (patch_pod_status (with_conditions w update status p) p) ≡ some (e t))
        × ((e t).not_found ≡ true)

  -- Where the patches of some first Pods are accepted and the next Pod is missing, the loop returns
  -- no error, and makes the same requests whatever Pods come after: these keep the conditions that
  -- they have.
  pub conditions-stop :
      (before after : List Pod) (p : Pod) (e : Trace → Error)
      → All IsPatched before
      → IsMissing p e
      → (t : Trace)
      → ((update_node_set_pod_conditions w update status (before ++ (p ∷ after)) t).0 ≡ ok tt)
        × ((update_node_set_pod_conditions w update status (before ++ (p ∷ after)) t).1
            ≡ (update_node_set_pod_conditions w update status (before ++ (p ∷ [])) t).1)
  unfolding update_node_set_pod_conditions
  conditions-stop [] after p e patched missing t = rw ((missing t).0, (missing t).1) (refl, refl)
  conditions-stop (q ∷ before) after p e patched missing t = rw (patched.0 t) (
      conditions-stop before after p e patched.1 missing
        (patch_pod_status (with_conditions w update status q) q ∷ t))
