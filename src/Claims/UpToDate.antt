-- ===== src/Claims/UpToDate.antt =====
-- Updating the owner references of a claim makes them right: updateClaimOwnerRefForSetAndPod and
-- isClaimOwnerUpToDate (internal/controller/nodeset/podcontrol/podcontrol.go).
use mathlib.Core.List.{append-nil}
use gce_hackathon.Prelude.{
  ◌≡◌, refl, Bool, true, false, not, ◌&&◌, ◌||◌, List, [], ◌∷◌, ◌++◌, bytes_eq, bytes_eq_refl,
  bytes_eq_iff, any, All, Bool-cases, inl, inr, if◌then◌else◌, arith, sym, ◌∙◌,
}
use gce_hackathon.Objects.{NodeSet, Pod, OwnerRef}
use gce_hackathon.Pods.{is_pod_cordon}
use gce_hackathon.Claims.{
  Owner, of_node_set, of_pod, matches_ref, has_owner_ref, has_stale_owner_ref, retains,
  get_retention_policy, is_unexpected, is_non_controller, has_unexpected_controller,
  has_non_controller_owner, follows_policy, is_claim_owner_up_to_date, new_controller_ref,
  update_claim_owner_ref,
}
use gce_hackathon.Claims.Choose.{
  Choice, nobody, the_set, the_pod, choice, chosen, is_the_set, is_the_pod, follows-choice,
  add_by_policy_eq, add_choice-chosen,
}
use gce_hackathon.Claims.Scrub.{
  IsOwned, IsCurrent, scrub, any-append, has_owner_ref-scrub, has_stale_owner_ref-scrub,
  unexpected-scrub, unexpected-scrub_eq, non_controller-scrub,
}

module _ (s : NodeSet) (p : Pod) (distinct : bytes_eq s.uid p.uid ≡ false) where
  abbrev set : Owner
  set = of_node_set s

  abbrev pod : Owner
  pod = of_pod p

  abbrev set_ref : OwnerRef
  set_ref = new_controller_ref set

  abbrev pod_ref : OwnerRef
  pod_ref = new_controller_ref pod

  pub matches-set_ref : (matches_ref set_ref set ≡ true) × (matches_ref set_ref pod ≡ false)
  unfolding matches_ref bytes_eq
  matches-set_ref = (ground (arith, bytes_eq_refl s.name), refl)

  pub matches-pod_ref : (matches_ref pod_ref pod ≡ true) × (matches_ref pod_ref set ≡ false)
  unfolding matches_ref bytes_eq
  matches-pod_ref = (ground (arith, bytes_eq_refl p.name), refl)

  -- What the tests answer on the references that are left and one or none more.
  record Answers (has_set has_pod : Bool) (more : List OwnerRef) : Type 0 where
    has_set_eq : has_owner_ref more set ≡ has_set
    has_pod_eq : has_owner_ref more pod ≡ has_pod
    set_stale : has_stale_owner_ref more set ≡ false
    pod_stale : has_stale_owner_ref more pod ≡ false
    non_controller : any (is_non_controller set pod) more ≡ false
    unexpected : any (is_unexpected set pod) more ≡ false

  pub distinct_sym : bytes_eq p.uid s.uid ≡ false
  distinct_sym = ground (arith, distinct, bytes_eq_iff p.uid s.uid, bytes_eq_iff s.uid p.uid)

  none-Answers : Answers false false []
  unfolding has_owner_ref has_stale_owner_ref
  none-Answers = record {
    has_set_eq = refl;
    has_pod_eq = refl;
    set_stale = refl;
    pod_stale = refl;
    non_controller = refl;
    unexpected = refl;
  }

  set_ref-Answers : Answers true false (set_ref ∷ [])
  unfolding has_owner_ref has_stale_owner_ref is_non_controller is_unexpected
  set_ref-Answers = record {
    has_set_eq = ground (arith, bytes_eq_refl s.uid);
    has_pod_eq = ground (arith, distinct);
    set_stale = ground (arith, matches-set_ref.0, bytes_eq_refl s.uid);
    pod_stale = ground (arith, matches-set_ref.1);
    non_controller = ground arith;
    unexpected = ground (arith, matches-set_ref.0, bytes_eq_refl s.uid);
  }

  pod_ref-Answers : Answers false true (pod_ref ∷ [])
  unfolding has_owner_ref has_stale_owner_ref is_non_controller is_unexpected
  pod_ref-Answers = record {
    has_set_eq = ground (arith, distinct_sym);
    has_pod_eq = ground (arith, bytes_eq_refl p.uid);
    set_stale = ground (arith, matches-pod_ref.1);
    pod_stale = ground (arith, matches-pod_ref.0, bytes_eq_refl p.uid);
    non_controller = ground arith;
    unexpected = ground (arith, matches-pod_ref.0, matches-pod_ref.1, bytes_eq_refl p.uid);
  }

  -- The answer on references that are scrubbed and extended.
  up_to_date-extended :
      {has_set has_pod : Bool} {more : List OwnerRef} (refs : List OwnerRef)
      → All (IsOwned set pod) refs
      → Answers has_set has_pod more
      → is_claim_owner_up_to_date (scrub set pod refs ++ more) s p ≡ (
          if not (retains s) && any (is_unexpected set pod) (scrub set pod refs)
          then not (has_set || has_pod)
          else follows_policy (get_retention_policy s) (is_pod_cordon p) has_set has_pod)
  unfolding is_claim_owner_up_to_date has_owner_ref has_unexpected_controller
      has_non_controller_owner
  up_to_date-extended {has_set} {has_pod} {more} refs owned a =
      let S = scrub set pod refs in
      ground (
        arith,
        any-append (λ (r : OwnerRef). bytes_eq r.uid s.uid) S more,
        any-append (λ (r : OwnerRef). bytes_eq r.uid p.uid) S more,
        any-append (is_non_controller set pod) S more,
        any-append (is_unexpected set pod) S more,
        has_owner_ref-scrub set pod refs owned,
        has_stale_owner_ref-scrub set pod refs more,
        non_controller-scrub set pod refs owned,
        a.has_set_eq,
        a.has_pod_eq,
        a.set_stale,
        a.pod_stale,
        a.non_controller,
        a.unexpected,
      )

  chosen-Answers : (c : Choice) → Answers (is_the_set c) (is_the_pod c) (chosen c set pod)
  chosen-Answers nobody = none-Answers
  chosen-Answers the_set = set_ref-Answers
  chosen-Answers the_pod = pod_ref-Answers

  abbrev pub wanted : Choice
  wanted = choice (get_retention_policy s) (is_pod_cordon p)

  abbrev pub updated : List OwnerRef → List OwnerRef
  updated refs = update_claim_owner_ref refs s p

  pub updated-expected :
      (refs : List OwnerRef)
      → All (IsOwned set pod) refs
      → has_unexpected_controller refs s p ≡ false
      → updated refs ≡ scrub set pod refs ++ chosen wanted set pod
  unfolding update_claim_owner_ref scrub
  updated-expected refs owned h =
      let (no_set, no_pod) = has_owner_ref-scrub set pod refs owned in
      rw h (
        add_by_policy_eq (get_retention_policy s) (is_pod_cordon p) (scrub set pod refs) set pod
        ∙ add_choice-chosen wanted (scrub set pod refs) set pod no_set no_pod)

  pub updated-unexpected :
      (refs : List OwnerRef)
      → has_unexpected_controller refs s p ≡ true
      → updated refs ≡ scrub set pod refs ++ []
  unfolding update_claim_owner_ref scrub
  updated-unexpected refs h = rw h (sym (append-nil (scrub set pod refs)))

  right_after_expected :
      (refs : List OwnerRef)
      → All (IsOwned set pod) refs
      → has_unexpected_controller refs s p ≡ false
      → is_claim_owner_up_to_date (updated refs) s p ≡ true
  unfolding has_unexpected_controller
  right_after_expected refs owned h = rw (updated-expected refs owned h) (
      up_to_date-extended refs owned (chosen-Answers wanted)
      ∙ ground (
        arith,
        unexpected-scrub set pod refs,
        follows-choice (get_retention_policy s) (is_pod_cordon p),
      ))

  right_after_unexpected :
      (refs : List OwnerRef)
      → All (IsOwned set pod) refs
      → All (IsCurrent set pod) refs
      → has_unexpected_controller refs s p ≡ true
      → is_claim_owner_up_to_date (updated refs) s p ≡ true
  unfolding has_unexpected_controller
  right_after_unexpected refs owned current h = rw (updated-unexpected refs h) (
      up_to_date-extended refs owned none-Answers
      ∙ ground (arith, unexpected-scrub_eq set pod refs current, h))

  pub up_to_date-updated :
      (refs : List OwnerRef)
      → All (IsOwned set pod) refs
      → All (IsCurrent set pod) refs
      → is_claim_owner_up_to_date (updated refs) s p ≡ true
  up_to_date-updated refs owned current = elim (Bool-cases (has_unexpected_controller refs s p)) [
    | inl h ↦ right_after_unexpected refs owned current h
    | inr h ↦ right_after_expected refs owned h
  ]
