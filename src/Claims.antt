-- ===== src/Claims.antt =====
-- The owner references of the claims of Pods
-- (internal/controller/nodeset/podcontrol/podcontrol.go), which say what deletes a claim. Logging
-- is left out.
pub mod Scrub
pub mod Choose
pub mod UpToDate
pub mod Settled
pub mod Names
pub mod Store
pub mod Volumes
pub mod Update
use gce_hackathon.Prelude.{
  Bool, true, false, not, ◌&&◌, ◌||◌, Option, none, some, List, [], ◌∷◌, ◌++◌, Bytes, codes,
  bytes_eq, any, keep, if◌then◌else◌,
}
use gce_hackathon.Objects.{
  Pod, NodeSet, Claim, OwnerRef, RetentionPolicy, RetentionType, retain, delete, retain_if_unset,
}
use gce_hackathon.Pods.{is_pod_cordon}

-- An owner, with its group, version and kind.
pub record Owner : Type 0 where
  pub name : Bytes
  pub uid : Bytes
  pub group_version : Bytes
  pub kind : Bytes

-- With NodeSetGVK.
abbrev pub of_node_set : NodeSet → Owner
of_node_set s = record {
  name = s.name;
  uid = s.uid;
  group_version = codes "slinky.slurm.net/v1beta1";
  kind = codes "NodeSet";
}

-- With podGVK.
abbrev pub of_pod : Pod → Owner
of_pod p = record { name = p.name; uid = p.uid; group_version = codes "v1"; kind = codes "Pod" }

abbrev pub is_true : Option Bool → Bool
is_true none = false
is_true (some b) = b

unfoldable pub matches_ref : OwnerRef → Owner → Bool
matches_ref r o =
    bytes_eq o.group_version r.api_version && (bytes_eq o.kind r.kind && bytes_eq r.name o.name)

unfoldable pub has_owner_ref : List OwnerRef → Owner → Bool
has_owner_ref refs o = any (λ r. bytes_eq r.uid o.uid) refs

-- The first reference that matches decides.
unfoldable pub has_stale_owner_ref : List OwnerRef → Owner → Bool
unfolding matches_ref
has_stale_owner_ref [] o = false
has_stale_owner_ref (r ∷ refs) o =
    let rest = has_stale_owner_ref refs o in
    if matches_ref r o then not (bytes_eq r.uid o.uid) else rest

-- getPersistentVolumeClaimRetentionPolicy.
unfoldable pub get_retention_policy : NodeSet → RetentionPolicy
get_retention_policy s = record {
  when_deleted = retain_if_unset s.retention_policy.when_deleted;
  when_scaled = retain_if_unset s.retention_policy.when_scaled;
}

abbrev pub is_retain : RetentionType → Bool
is_retain retain = true
is_retain _ = false

abbrev pub is_delete : RetentionType → Bool
is_delete delete = true
is_delete _ = false

abbrev pub retains : NodeSet → Bool
retains s =
    let policy = get_retention_policy s in
    is_retain policy.when_scaled && is_retain policy.when_deleted

-- The loop of hasUnexpectedController at one reference.
unfoldable pub is_unexpected : Owner → Owner → OwnerRef → Bool
unfolding matches_ref
is_unexpected set pod r =
    if matches_ref r set
    then not (bytes_eq r.uid set.uid)
    else if matches_ref r pod
    then not (bytes_eq r.uid pod.uid)
    else is_true r.controller

unfoldable pub has_unexpected_controller : List OwnerRef → NodeSet → Pod → Bool
unfolding is_unexpected
has_unexpected_controller refs s p =
    not (retains s) && any (is_unexpected (of_node_set s) (of_pod p)) refs

unfoldable pub is_non_controller : Owner → Owner → OwnerRef → Bool
is_non_controller set pod r =
    (bytes_eq r.uid set.uid || bytes_eq r.uid pod.uid) && not (is_true r.controller)

unfoldable pub has_non_controller_owner : List OwnerRef → NodeSet → Pod → Bool
unfolding is_non_controller
has_non_controller_owner refs s p = any (is_non_controller (of_node_set s) (of_pod p)) refs

-- `==` on bool.
abbrev pub same : Bool → Bool → Bool
same true b = b
same false b = not b

-- The switch of isClaimOwnerUpToDate on the policy: are there the right references to the NodeSet
-- and to the Pod, where the Pod is scaled down or not? An unknown policy is treated as Retain.
unfoldable pub follows_policy : RetentionPolicy → Bool → Bool → Bool → Bool
follows_policy policy down has_set has_pod =
    if is_retain policy.when_deleted && is_retain policy.when_scaled
    then not (has_set || has_pod)
    else if is_delete policy.when_deleted && is_retain policy.when_scaled
    then not (not has_set || has_pod)
    else if is_retain policy.when_deleted && is_delete policy.when_scaled
    then not has_set && same down has_pod
    else if is_delete policy.when_deleted && is_delete policy.when_scaled
    then not (same down has_set) && same down has_pod
    else not (has_set || has_pod)

unfoldable pub is_claim_owner_up_to_date : List OwnerRef → NodeSet → Pod → Bool
unfolding has_owner_ref has_stale_owner_ref has_unexpected_controller has_non_controller_owner
    follows_policy is_pod_cordon
is_claim_owner_up_to_date refs s p =
    let has_set = has_owner_ref refs (of_node_set s) in
    let has_pod = has_owner_ref refs (of_pod p) in
    if has_stale_owner_ref refs (of_node_set s) || has_stale_owner_ref refs (of_pod p)
    then true
    else if has_unexpected_controller refs s p
    then not (has_set || has_pod)
    else if has_non_controller_owner refs s p
    then false
    else follows_policy (get_retention_policy s) (is_pod_cordon p) has_set has_pod

unfoldable pub remove_refs : List OwnerRef → (OwnerRef → Bool) → List OwnerRef
remove_refs refs predicate = keep (λ r. not (predicate r)) refs

-- metav1.NewControllerRef.
abbrev pub new_controller_ref : Owner → OwnerRef
new_controller_ref o = record {
  api_version = o.group_version;
  kind = o.kind;
  name = o.name;
  uid = o.uid;
  controller = some true;
}

unfoldable pub add_controller_ref : List OwnerRef → Owner → List OwnerRef
add_controller_ref refs o =
    if any (λ r. bytes_eq r.uid o.uid) refs then refs else refs ++ (new_controller_ref o ∷ [])

-- The switch of updateClaimOwnerRefForSetAndPod on the policy.
unfoldable pub add_by_policy :
    RetentionPolicy → Bool → List OwnerRef → Owner → Owner → List OwnerRef
unfolding add_controller_ref
add_by_policy policy down refs set pod =
    if is_retain policy.when_scaled && is_retain policy.when_deleted
    then refs
    else if is_retain policy.when_scaled && is_delete policy.when_deleted
    then add_controller_ref refs set
    else if is_delete policy.when_scaled && is_retain policy.when_deleted
    then (if down then add_controller_ref refs pod else refs)
    else if is_delete policy.when_scaled && is_delete policy.when_deleted
    then (if down then add_controller_ref refs pod else add_controller_ref refs set)
    else refs

-- A reference to the NodeSet or to the Pod.
abbrev pub is_ours : Owner → Owner → OwnerRef → Bool
is_ours set pod r = matches_ref r set || matches_ref r pod

-- The references of the claim after updateClaimOwnerRefForSetAndPod.
unfoldable pub update_claim_owner_ref : List OwnerRef → NodeSet → Pod → List OwnerRef
unfolding matches_ref has_unexpected_controller remove_refs add_by_policy is_pod_cordon
update_claim_owner_ref refs s p =
    let scrubbed = remove_refs refs (is_ours (of_node_set s) (of_pod p)) in
    if has_unexpected_controller refs s p
    then scrubbed
    else add_by_policy (get_retention_policy s) (is_pod_cordon p) scrubbed (of_node_set s)
        (of_pod p)
