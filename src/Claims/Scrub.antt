-- ===== src/Claims/Scrub.antt =====
-- What is left of the owner references of a claim once those to a NodeSet and a Pod are removed
-- (removeRefs in internal/controller/nodeset/podcontrol/podcontrol.go).
use gce_hackathon.Prelude.{
  ◌≡◌, refl, Bool, true, false, ◌||◌, List, [], ◌∷◌, ◌++◌, bytes_eq, any, All, arith,
}
use gce_hackathon.Objects.{OwnerRef}
use gce_hackathon.Claims.{
  Owner, matches_ref, has_owner_ref, has_stale_owner_ref, is_unexpected, is_non_controller, is_ours,
  remove_refs,
}

pub any-append {ℓ} :
    {A : Type ℓ} (f : A → Bool) (xs ys : List A) → any f (xs ++ ys) ≡ (any f xs || any f ys)
any-append f [] ys = refl
any-append f (x ∷ xs) ys = ground (arith, any-append f xs ys)

module _ (set pod : Owner) where
  -- A reference by the UID of an owner names that owner.
  abbrev pub IsOwned : OwnerRef → Type 0
  IsOwned r =
      (bytes_eq r.uid set.uid ≡ true → matches_ref r set ≡ true)
      × (bytes_eq r.uid pod.uid ≡ true → matches_ref r pod ≡ true)

  -- A reference that names an owner has its UID.
  abbrev pub IsCurrent : OwnerRef → Type 0
  IsCurrent r =
      (matches_ref r set ≡ true → bytes_eq r.uid set.uid ≡ true)
      × (matches_ref r pod ≡ true → bytes_eq r.uid pod.uid ≡ true)

  unfoldable pub scrub : List OwnerRef → List OwnerRef
  scrub refs = remove_refs refs (is_ours set pod)

  pub has_owner_ref-scrub :
      (refs : List OwnerRef)
      → All IsOwned refs
      → (has_owner_ref (scrub refs) set ≡ false) × (has_owner_ref (scrub refs) pod ≡ false)
  unfolding scrub remove_refs has_owner_ref
  has_owner_ref-scrub [] h = (refl, refl)
  has_owner_ref-scrub (r ∷ refs) h =
      let ih = has_owner_ref-scrub refs h.1 in
      (ground (arith, h.0.0, h.0.1, ih.0), ground (arith, h.0.0, h.0.1, ih.1))

  pub has_stale_owner_ref-scrub :
      (refs more : List OwnerRef)
      → (has_stale_owner_ref (scrub refs ++ more) set ≡ has_stale_owner_ref more set)
        × (has_stale_owner_ref (scrub refs ++ more) pod ≡ has_stale_owner_ref more pod)
  unfolding scrub remove_refs has_stale_owner_ref
  has_stale_owner_ref-scrub [] more = (refl, refl)
  has_stale_owner_ref-scrub (r ∷ refs) more =
      let ih = has_stale_owner_ref-scrub refs more in (ground (arith, ih.0), ground (arith, ih.1))

  pub unexpected-scrub :
      (refs : List OwnerRef)
      → any (is_unexpected set pod) refs ≡ false
      → any (is_unexpected set pod) (scrub refs) ≡ false
  unfolding scrub remove_refs
  unexpected-scrub [] h = refl
  unexpected-scrub (r ∷ refs) h = ground (arith, unexpected-scrub refs)

  -- Where no reference that names an owner has another UID, other controllers are left.
  pub unexpected-scrub_eq :
      (refs : List OwnerRef)
      → All IsCurrent refs
      → any (is_unexpected set pod) (scrub refs) ≡ any (is_unexpected set pod) refs
  unfolding scrub remove_refs is_unexpected
  unexpected-scrub_eq [] h = refl
  unexpected-scrub_eq (r ∷ refs) h = ground (arith, h.0.0, h.0.1, unexpected-scrub_eq refs h.1)

  pub non_controller-scrub :
      (refs : List OwnerRef)
      → All IsOwned refs
      → any (is_non_controller set pod) (scrub refs) ≡ false
  unfolding scrub remove_refs is_non_controller
  non_controller-scrub [] h = refl
  non_controller-scrub (r ∷ refs) h = ground (arith, h.0.0, h.0.1, non_controller-scrub refs h.1)

  pub IsOwned-scrub : (refs : List OwnerRef) → All IsOwned refs → All IsOwned (scrub refs)
  unfolding scrub remove_refs
  IsOwned-scrub [] h = tt
  IsOwned-scrub (r ∷ refs) h = ground (arith, h.0.0, h.0.1, IsOwned-scrub refs h.1)

  pub IsCurrent-scrub : (refs : List OwnerRef) → All IsCurrent (scrub refs)
  unfolding scrub remove_refs
  IsCurrent-scrub [] = tt
  IsCurrent-scrub (r ∷ refs) = ground (arith, IsCurrent-scrub refs)
