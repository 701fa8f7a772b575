-- ===== src/Claims/Choose.antt =====
-- Which owner reference the retention policy of a NodeSet wants on a claim: an account of the
-- switches of updateClaimOwnerRefForSetAndPod and isClaimOwnerUpToDate
-- (internal/controller/nodeset/podcontrol/podcontrol.go) that both follow.
use mathlib.Core.List.{append-nil}
use gce_hackathon.Prelude.{
  ◌≡◌, refl, sym, Bool, true, false, ◌&&◌, ◌||◌, List, [], ◌∷◌, ◌++◌, if◌then◌else◌, arith,
}
use gce_hackathon.Objects.{OwnerRef, RetentionPolicy, RetentionType}
use gce_hackathon.Claims.{
  Owner, has_owner_ref, is_retain, is_delete, follows_policy, add_controller_ref, add_by_policy,
  new_controller_ref,
}

exclusive : (t : RetentionType) → (is_retain t && is_delete t) ≡ false
exclusive RetentionType.unset = refl
exclusive RetentionType.retain = refl
exclusive RetentionType.delete = refl
exclusive RetentionType.other = refl

-- Which owner a policy wants for the claim of a Pod that is scaled down or not.
pub data Choice : Type 0 where
  nobody the_set the_pod : Choice

abbrev pub choice : RetentionPolicy → Bool → Choice
choice policy down =
    if is_delete policy.when_scaled
      && (down && (is_delete policy.when_deleted || is_retain policy.when_deleted))
    then the_pod
    else if is_delete policy.when_deleted
        && (is_retain policy.when_scaled || is_delete policy.when_scaled)
    then the_set
    else nobody

abbrev pub chosen : Choice → Owner → Owner → List OwnerRef
chosen nobody set pod = []
chosen the_set set pod = new_controller_ref set ∷ []
chosen the_pod set pod = new_controller_ref pod ∷ []

abbrev pub is_the_set : Choice → Bool
is_the_set the_set = true
is_the_set _ = false

abbrev pub is_the_pod : Choice → Bool
is_the_pod the_pod = true
is_the_pod _ = false

pub follows-choice :
    (policy : RetentionPolicy) (down : Bool)
    → follows_policy policy down (is_the_set (choice policy down)) (is_the_pod (choice policy down))
      ≡ true
unfolding follows_policy
follows-choice policy down =
    ground (arith, exclusive policy.when_deleted, exclusive policy.when_scaled)

abbrev pub add_choice : Choice → List OwnerRef → Owner → Owner → List OwnerRef
add_choice nobody refs set pod = refs
add_choice the_set refs set pod = add_controller_ref refs set
add_choice the_pod refs set pod = add_controller_ref refs pod

pub add_by_policy_eq :
    (policy : RetentionPolicy) (down : Bool) (refs : List OwnerRef) (set pod : Owner)
    → add_by_policy policy down refs set pod ≡ add_choice (choice policy down) refs set pod
unfolding add_by_policy
add_by_policy_eq policy down refs set pod =
    ground (arith, exclusive policy.when_deleted, exclusive policy.when_scaled)

pub add_choice-chosen :
    (c : Choice) (refs : List OwnerRef) (set pod : Owner)
    → has_owner_ref refs set ≡ false
    → has_owner_ref refs pod ≡ false
    → add_choice c refs set pod ≡ refs ++ chosen c set pod
unfolding add_controller_ref has_owner_ref
add_choice-chosen nobody refs set pod h k = sym (append-nil refs)
add_choice-chosen the_set refs set pod h k = ground (arith, h)
add_choice-chosen the_pod refs set pod h k = ground (arith, k)
