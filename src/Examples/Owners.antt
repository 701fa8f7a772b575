-- ===== src/Examples/Owners.antt =====
-- Examples of the claims of Pods (internal/controller/nodeset/podcontrol/podcontrol.go and
-- internal/controller/nodeset/utils/utils.go).
use mathlib.Core.List.Perm
use gce_hackathon.Prelude.{
  ◌≡◌, refl, subst, pos, ltb_ℤ, true, false, ◌&&◌, Option, none, some, List, [], ◌∷◌, Bytes, codes,
  bytes_eq, Bool-cases, inl, inr, All, if◌then◌else◌, arith,
}
use gce_hackathon.Objects.{NodeSet, Claim, OwnerRef, delete}
use gce_hackathon.Api.{Result, ok, err, Request, update_claim, Trace, World}
use gce_hackathon.Names.{
  is_statefulset, get_ordinal, get_parent_name_and_ordinal, nodeset_pod_regex, parent_and_ordinal,
  all_digits,
}
use gce_hackathon.Pods.Annotations.{parse_int32}
use gce_hackathon.Claims.{
  of_node_set, of_pod, matches_ref, is_claim_owner_up_to_date, update_claim_owner_ref, remove_refs,
  is_ours, new_controller_ref,
}
use gce_hackathon.Claims.Scrub.{IsOwned}
use gce_hackathon.Claims.Settled.{update_claim_owner_ref-settles}
use gce_hackathon.Claims.Store.{
  pod_pvcs_match_retention_policy, update_pod_pvcs_for_retention_policy,
}
use gce_hackathon.Claims.Store.Mended.{IsClaimStore, IsTidy, update_pod_pvcs-mends}
use gce_hackathon.Claims.Volumes.{is_storage_match, update_storage}
use gce_hackathon.Claims.Volumes.Match.{update_storage-matches}
use gce_hackathon.Examples.{node_set, healthy_pod, host, idle_node, world_of, missing}

abbrev template : Claim
template = record {
  name = codes "scratch";
  namespace = [];
  labels = [];
  deletion_timestamp = none;
  owner_refs = [];
}

-- A NodeSet whose claims are deleted with it and with their Pods.
abbrev deleting_set : NodeSet
deleting_set = record node_set {
  volume_claim_templates = template ∷ [];
  retention_policy = record { when_deleted = delete; when_scaled = delete };
}

-- The NodeSet by an earlier UID.
abbrev stale_ref : OwnerRef
stale_ref = record (new_controller_ref (of_node_set deleting_set)) { uid = codes "old" }

abbrev claim_refs : List OwnerRef
claim_refs = new_controller_ref (of_node_set deleting_set) ∷ stale_ref ∷ []

claim_refs-IsOwned : All (IsOwned (of_node_set deleting_set) (of_pod healthy_pod)) claim_refs
unfolding bytes_eq matches_ref
claim_refs-IsOwned = (((λ _. refl), λ e. cc e), (((λ e. cc e), λ e. cc e), tt))

uids_differ : bytes_eq deleting_set.uid healthy_pod.uid ≡ false
unfolding bytes_eq
uids_differ = refl

update_claim_owner_ref-settles_example :
    (is_claim_owner_up_to_date
        (update_claim_owner_ref
          (update_claim_owner_ref claim_refs deleting_set healthy_pod)
          deleting_set
          healthy_pod)
        deleting_set
        healthy_pod
      ≡ true)
    × (remove_refs
          (update_claim_owner_ref claim_refs deleting_set healthy_pod)
          (is_ours (of_node_set deleting_set) (of_pod healthy_pod))
        ≡ remove_refs claim_refs (is_ours (of_node_set deleting_set) (of_pod healthy_pod)))
update_claim_owner_ref-settles_example =
    update_claim_owner_ref-settles deleting_set healthy_pod uids_differ claim_refs
      claim_refs-IsOwned

has_ordinal :
    (is_statefulset deleting_set.scaling_mode && ltb_ℤ (get_ordinal healthy_pod) (pos 0)) ≡ false
unfolding get_ordinal get_parent_name_and_ordinal nodeset_pod_regex parent_and_ordinal parse_int32
    all_digits
has_ordinal = refl

update_storage-matches_example :
    is_storage_match deleting_set
      (update_storage (λ s. []) (λ claims. claims) deleting_set healthy_pod)
    ≡ true
update_storage-matches_example =
    update_storage-matches deleting_set healthy_pod (λ s. []) (λ claims. claims) (Perm.refl _)
      has_ordinal

-- An API server with one claim at first, of no owner.
abbrev first_claim : Claim
first_claim = record template { name = codes "scratch-gpu-0"; namespace = codes "slurm" }

abbrev as_update : Request → Option Claim
as_update (update_claim c) = some c
as_update _ = none

abbrev answer : Option Claim → Bytes → Bytes → Result Claim → Result Claim
answer none namespace name before = before
answer (some c) namespace name before =
    if bytes_eq c.namespace namespace && bytes_eq c.name name then ok c else before

unfoldable stored : Trace → Bytes → Bytes → Result Claim
stored [] namespace name = answer (some first_claim) namespace name (err missing)
stored (q ∷ t) namespace name = answer (as_update q) namespace name (stored t namespace name)

abbrev claim_world : World
claim_world = record (world_of healthy_pod host idle_node) { read_claim = stored }

abbrev IsNamed : Bytes → Bytes → Result Claim → Type 0
IsNamed namespace name (ok c) =
    (bytes_eq c.namespace namespace ≡ true) × (bytes_eq c.name name ≡ true)
IsNamed namespace name (err e) = Unit

answer-IsNamed :
    (o : Option Claim) (namespace name : Bytes) (before : Result Claim)
    → IsNamed namespace name before
    → IsNamed namespace name (answer o namespace name before)
answer-IsNamed none namespace name before h = h
answer-IsNamed (some c) namespace name before h =
    elim (Bool-cases (bytes_eq c.namespace namespace && bytes_eq c.name name)) [
      | inl e ↦ rw e (ground (arith, e), ground (arith, e))
      | inr e ↦ rw e h
    ]

stored-IsNamed :
    (t : Trace) (namespace name : Bytes) → IsNamed namespace name (stored t namespace name)
unfolding stored
stored-IsNamed [] namespace name = answer-IsNamed (some first_claim) namespace name (err missing) tt
stored-IsNamed (q ∷ t) namespace name =
    answer-IsNamed (as_update q) namespace name (stored t namespace name)
      (stored-IsNamed t namespace name)

claim_world-IsClaimStore : IsClaimStore claim_world
unfolding stored
claim_world-IsClaimStore = record {
  reads_update = λ t c namespace name h. refl;
  reads_read = λ t namespace1 name1 namespace name. refl;
  reads_named =
      λ t c namespace name h. subst (IsNamed namespace name) h (stored-IsNamed t namespace name);
}

first-IsTidy :
    (name : Bytes)
    → IsTidy claim_world claim_world-IsClaimStore deleting_set healthy_pod uids_differ
        (stored [] deleting_set.namespace name)
unfolding stored
first-IsTidy name =
    elim (Bool-cases
      (bytes_eq first_claim.namespace deleting_set.namespace && bytes_eq first_claim.name name)) [
        | inl e ↦ rw e (tt, tt)
        | inr e ↦ rw e tt
      ]

abbrev IsMissing : Result Claim → Type 0
IsMissing (ok c) = Unit
IsMissing (err e) = e.not_found ≡ true

answer-IsMissing :
    (o : Option Claim) (namespace name : Bytes) (before : Result Claim)
    → IsMissing before
    → IsMissing (answer o namespace name before)
answer-IsMissing none namespace name before h = h
answer-IsMissing (some c) namespace name before h =
    elim (Bool-cases (bytes_eq c.namespace namespace && bytes_eq c.name name)) [
      | inl e ↦ rw e tt
      | inr e ↦ rw e h
    ]

stored-IsMissing : (t : Trace) (namespace name : Bytes) → IsMissing (stored t namespace name)
unfolding stored
stored-IsMissing [] namespace name =
    answer-IsMissing (some first_claim) namespace name (err missing) refl
stored-IsMissing (q ∷ t) namespace name =
    answer-IsMissing (as_update q) namespace name (stored t namespace name)
      (stored-IsMissing t namespace name)

update_pod_pvcs-mends_example :
    let after = update_pod_pvcs_for_retention_policy claim_world deleting_set healthy_pod [] in
    (after.0 ≡ ok tt)
    × ((pod_pvcs_match_retention_policy claim_world deleting_set healthy_pod after.1).0 ≡ ok true)
update_pod_pvcs-mends_example =
    update_pod_pvcs-mends claim_world claim_world-IsClaimStore deleting_set healthy_pod uids_differ
      (λ t c. refl)
      (λ t name e h. subst IsMissing h (stored-IsMissing t deleting_set.namespace name)) []
      first-IsTidy
