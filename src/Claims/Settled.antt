-- ===== src/Claims/Settled.antt =====
-- What repeated updates of the owner references of a claim come to
-- (internal/controller/nodeset/podcontrol/podcontrol.go).
use mathlib.Core.List.{append-nil}
use gce_hackathon.Prelude.{
  ◌≡◌, refl, ap, ◌∙◌, Bool, true, false, not, List, [], ◌∷◌, ◌++◌, bytes_eq, bytes_eq_refl, keep,
  All, Bool-cases, inl, inr, arith,
}
use gce_hackathon.Objects.{NodeSet, Pod, OwnerRef}
use gce_hackathon.Claims.{
  Owner, of_node_set, of_pod, has_unexpected_controller, is_claim_owner_up_to_date,
  update_claim_owner_ref, is_ours, remove_refs,
}
use gce_hackathon.Claims.Choose.{Choice, nobody, the_set, the_pod, chosen}
use gce_hackathon.Claims.Scrub.{IsOwned, IsCurrent, scrub, IsOwned-scrub, IsCurrent-scrub}
use gce_hackathon.Claims.UpToDate.{
  wanted, updated-expected, updated-unexpected, matches-set_ref, matches-pod_ref, distinct_sym,
  up_to_date-updated,
}

pub All-append {ℓ κ} :
    {A : Type ℓ} (P : A → Type κ) (xs ys : List A) → All P xs → All P ys → All P (xs ++ ys)
All-append P [] ys h k = k
All-append P (x ∷ xs) ys h k = (h.0, All-append P xs ys h.1 k)

keep-append {ℓ} :
    {A : Type ℓ} (f : A → Bool) (xs ys : List A) → keep f (xs ++ ys) ≡ keep f xs ++ keep f ys
keep-append f [] ys = refl
keep-append f (x ∷ xs) ys = ground (arith, keep-append f xs ys)

keep-keep {ℓ} : {A : Type ℓ} (f : A → Bool) (xs : List A) → keep f (keep f xs) ≡ keep f xs
keep-keep f [] = refl
keep-keep f (x ∷ xs) = ground (arith, keep-keep f xs)

module _ (s : NodeSet) (p : Pod) (distinct : bytes_eq s.uid p.uid ≡ false) where
  abbrev set : Owner
  set = of_node_set s

  abbrev pod : Owner
  pod = of_pod p

  chosen-IsOwned : (c : Choice) → All (IsOwned set pod) (chosen c set pod)
  chosen-IsOwned nobody = tt
  chosen-IsOwned the_set = (((λ _. (matches-set_ref s p distinct).0), λ e. cc (e, distinct)), tt)
  chosen-IsOwned the_pod =
      (((λ e. cc (e, distinct_sym s p distinct)), λ _. (matches-pod_ref s p distinct).0), tt)

  chosen-IsCurrent : (c : Choice) → All (IsCurrent set pod) (chosen c set pod)
  chosen-IsCurrent nobody = tt
  chosen-IsCurrent the_set =
      (((λ _. bytes_eq_refl s.uid), λ e. cc (e, (matches-set_ref s p distinct).1)), tt)
  chosen-IsCurrent the_pod =
      (((λ e. cc (e, (matches-pod_ref s p distinct).1)), λ _. bytes_eq_refl p.uid), tt)

  keep-chosen : (c : Choice) → keep (λ r. not (is_ours set pod r)) (chosen c set pod) ≡ []
  keep-chosen nobody = refl
  keep-chosen the_set = ground (arith, (matches-set_ref s p distinct).0)
  keep-chosen the_pod = ground (arith, (matches-pod_ref s p distinct).0)

  -- The references are those left and none or one more, with or without another controller.
  updated_form :
      (refs : List OwnerRef)
      → All (IsOwned set pod) refs
      → (c : Choice) × (update_claim_owner_ref refs s p ≡ scrub set pod refs ++ chosen c set pod)
  updated_form refs owned = elim (Bool-cases (has_unexpected_controller refs s p)) [
    | inl h ↦ (nobody, updated-unexpected s p distinct refs h)
    | inr h ↦ (wanted s p distinct, updated-expected s p distinct refs owned h)
  ]

  pub tidy-updated :
      (refs : List OwnerRef)
      → All (IsOwned set pod) refs
      → All (IsOwned set pod) (update_claim_owner_ref refs s p)
        × All (IsCurrent set pod) (update_claim_owner_ref refs s p)
  tidy-updated refs owned =
      let (c, e) = updated_form refs owned in
      let S = scrub set pod refs in
      rw e (
        All-append (IsOwned set pod) S (chosen c set pod) (IsOwned-scrub set pod refs owned)
            (chosen-IsOwned c),
        All-append (IsCurrent set pod) S (chosen c set pod) (IsCurrent-scrub set pod refs)
            (chosen-IsCurrent c),
      )

  -- Suppose that the NodeSet and the Pod have different UIDs, and that the owner references of a
  -- claim that have the UID of one of them name that one, with its version and kind. Then after two
  -- updates the claim is up to date, whatever references with other UIDs name the NodeSet or the
  -- Pod, whatever other controllers the claim has, and whatever the retention policy is. An update
  -- keeps the references that name neither of the two, in their order.
  pub update_claim_owner_ref-settles :
      (refs : List OwnerRef)
      → All (IsOwned set pod) refs
      → (is_claim_owner_up_to_date
            (update_claim_owner_ref (update_claim_owner_ref refs s p) s p)
            s
            p
          ≡ true)
        × (remove_refs (update_claim_owner_ref refs s p) (is_ours set pod)
            ≡ remove_refs refs (is_ours set pod))
  unfolding remove_refs scrub
  update_claim_owner_ref-settles refs owned =
      let (c, e) = updated_form refs owned in
      let (owned1, current1) = tidy-updated refs owned in
      let foreign = λ (r : OwnerRef). not (is_ours set pod r) in
      (
        up_to_date-updated s p distinct (update_claim_owner_ref refs s p) owned1 current1,
        ap (keep foreign) e
            ∙ keep-append foreign (keep foreign refs) (chosen c set pod)
            ∙ rw (keep-chosen c, keep-keep foreign refs) (append-nil (keep foreign refs)),
      )
