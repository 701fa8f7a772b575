-- ===== src/Claims/Volumes/Match.antt =====
-- After UpdateStorage a Pod has the storage that IsStorageMatch asks for
-- (internal/controller/nodeset/utils/utils.go).
use gce_hackathon.Prelude.{
  ◌<◌, ◌≡◌, refl, sym, ◌∙◌, pos, ltb_ℤ, Bool, true, false, not, ◌&&◌, List, [], ◌∷◌, Perm, Bytes,
  map, keep, count, count-append, count-perm, all, lookup, insert, lookup-insert, bytes_eq,
  bytes_eq_iff, bytes_eq_refl, arith, ◌⊎◌, inl, inr, Bool-cases, All, ap, bytes_eq_sound,
}
use gce_hackathon.Objects.{Pod, NodeSet, Claim, Volume, ScalingMode}
use gce_hackathon.Names.{get_ordinal, get_parent_name_and_ordinal, is_statefulset}
use gce_hackathon.Pods.{is_set}
use gce_hackathon.Claims.Names.{
  name_by, claim_name, claim_of, put_claims, get_persistent_volume_claims,
}
use gce_hackathon.Claims.Volumes.{
  volume_of, put_volumes, is_of_claim, volume_matches, template_matches, is_storage_match,
  new_volumes, update_storage,
}

-- Volumes of one name: those that are there, and those of another claim than `claim`.
abbrev is_named : Bytes → Volume → Bool
is_named name v = bytes_eq v.name name

abbrev is_bad : Bytes → Bytes → Volume → Bool
is_bad name claim v = bytes_eq v.name name && not (is_of_claim claim v.claim_name)

put_volumes-matches :
    (name claim : Bytes) (vs : List Volume) (m : List (Bytes × Volume))
    → count (is_bad name claim) vs ≡ 0
    → (0 < count (is_named name) vs) ⊎ (volume_matches claim (lookup name m) ≡ true)
    → volume_matches claim (lookup name (put_volumes vs m)) ≡ true
unfolding put_volumes
put_volumes-matches name claim [] m good h = ground (arith, h)
put_volumes-matches name claim (v ∷ vs) m good h =
    put_volumes-matches name claim vs (insert v.name v m) (ground arith)
      (ground (arith, lookup-insert v.name name v m))

module _ (s : NodeSet) (p : Pod) where
  abbrev is_wrong : Bytes × Claim → Bool
  is_wrong (name, claim) = not (bytes_eq claim.name (claim_name s p name))

  abbrev has_key : Bytes → Bytes × Claim → Bool
  has_key n (name, claim) = bytes_eq name n

  insert-right :
      (k : Bytes) (c : Claim) (m : List (Bytes × Claim))
      → bytes_eq c.name (claim_name s p k) ≡ true
      → count is_wrong m ≡ 0
      → count is_wrong (insert k c m) ≡ 0
  unfolding insert
  insert-right k c [] h good = ground (arith, h)
  insert-right k c ((j, d) ∷ m) h good = ground (arith, h, insert-right k c m h)

  insert-key :
      (n k : Bytes) (c : Claim) (m : List (Bytes × Claim))
      → (bytes_eq k n ≡ true) ⊎ (0 < count (has_key n) m)
      → 0 < count (has_key n) (insert k c m)
  unfolding insert
  insert-key n k c [] h = ground (arith, h)
  insert-key n k c ((j, d) ∷ m) h =
      ground (arith, h, bytes_eq_iff k n, bytes_eq_iff j n, bytes_eq_iff j k, insert-key n k c m)

  module _ (selector_labels : NodeSet → List (Bytes × Bytes)) where
    put_claims-right :
        (templates : List Claim) (m : List (Bytes × Claim))
        → count is_wrong m ≡ 0
        → count is_wrong (put_claims selector_labels s p templates m) ≡ 0
    unfolding put_claims claim_of
    put_claims-right [] m good = good
    put_claims-right (c ∷ cs) m good =
        put_claims-right cs (insert c.name (claim_of selector_labels s p c) m) (
          insert-right c.name (claim_of selector_labels s p c) m
            (bytes_eq_refl (claim_name s p c.name)) good)

    put_claims-key :
        (n : Bytes) (templates : List Claim) (m : List (Bytes × Claim))
        → 0 < count (has_key n) m
        → 0 < count (has_key n) (put_claims selector_labels s p templates m)
    unfolding put_claims
    put_claims-key n [] m h = h
    put_claims-key n (c ∷ cs) m h =
        put_claims-key n cs (insert c.name (claim_of selector_labels s p c) m)
          (insert-key n c.name (claim_of selector_labels s p c) m (inr h))

    -- Every template has its claim.
    put_claims-All :
        (templates : List Claim) (m : List (Bytes × Claim))
        → All
            (λ c. 0 < count (has_key c.name) (put_claims selector_labels s p templates m))
            templates
    unfolding put_claims claim_of
    put_claims-All [] m = tt
    put_claims-All (c ∷ cs) m =
        let claim = claim_of selector_labels s p c in
        (
          put_claims-key c.name cs (insert c.name claim m)
              (insert-key c.name c.name claim m (inl (bytes_eq_refl c.name))),
          put_claims-All cs (insert c.name claim m),
        )

    to_volumes-bad :
        (n : Bytes) (m : List (Bytes × Claim))
        → count is_wrong m ≡ 0
        → count (is_bad n (claim_name s p n)) (map volume_of m) ≡ 0
    to_volumes-bad n [] h = refl
    to_volumes-bad n ((k, c) ∷ m) h = elim (Bool-cases (bytes_eq k n)) [
      | inl e ↦
          let same = bytes_eq_sound k n e in
          ground (arith, e, ap (claim_name s p) same, to_volumes-bad n m)
      | inr e ↦ ground (arith, e, to_volumes-bad n m)
    ]

    to_volumes-named :
        (n : Bytes) (m : List (Bytes × Claim))
        → count (is_named n) (map volume_of m) ≡ count (has_key n) m
    to_volumes-named n [] = refl
    to_volumes-named n ((k, c) ∷ m) = ground (arith, to_volumes-named n m)

    key-lookup :
        (n : Bytes) (m : List (Bytes × Claim))
        → 0 < count (has_key n) m
        → is_set (lookup n m) ≡ true
    unfolding lookup
    key-lookup n [] h = absurd (omega (arith, h))
    key-lookup n ((k, c) ∷ m) h = ground (arith, h, key-lookup n m)

    -- No volume that is kept has the name of a claim.
    kept-good :
        (n claim : Bytes) (m : List (Bytes × Claim)) (vs : List Volume)
        → is_set (lookup n m) ≡ true
        → count (is_bad n claim) (keep (λ v. not (is_set (lookup v.name m))) vs) ≡ 0
    kept-good n claim m [] h = refl
    kept-good n claim m (v ∷ vs) h = elim (Bool-cases (bytes_eq v.name n)) [
      | inl e ↦
          let same = bytes_eq_sound v.name n e in
          ground (arith, h, ap (λ (k : Bytes). is_set (lookup k m)) same, kept-good n claim m vs h)
      | inr e ↦ ground (arith, e, kept-good n claim m vs h)
    ]

    name_by-volumes :
        (mode : ScalingMode) (vs : List Volume) (n : Bytes)
        → name_by mode s (record p { volumes = vs }) n ≡ name_by mode s p n
    unfolding get_ordinal get_parent_name_and_ordinal
    name_by-volumes ScalingMode.unspecified vs n = refl
    name_by-volumes ScalingMode.statefulset vs n = refl
    name_by-volumes ScalingMode.daemonset vs n = refl

    claim_name-volumes :
        (vs : List Volume) (n : Bytes)
        → claim_name s (record p { volumes = vs }) n ≡ claim_name s p n
    unfolding claim_name
    claim_name-volumes vs n = name_by-volumes s.scaling_mode vs n

    module _ (iterate : List (Bytes × Claim) → List (Bytes × Claim))
        (permutes : Perm
          (iterate (get_persistent_volume_claims selector_labels s p))
          (get_persistent_volume_claims selector_labels s p)) where
      abbrev claims : List (Bytes × Claim)
      claims = get_persistent_volume_claims selector_labels s p

      abbrev volumes : List Volume
      volumes = new_volumes selector_labels iterate s p

      new_volume-matches :
          (n : Bytes)
          → 0 < count (has_key n) claims
          → volume_matches (claim_name s p n) (lookup n (put_volumes volumes [])) ≡ true
      unfolding new_volumes get_persistent_volume_claims
      new_volume-matches n h =
          let name = claim_name s p n in
          let made = map volume_of (iterate claims) in
          let kept = keep (λ (v : Volume). not (is_set (lookup v.name claims))) p.volumes in
          let right : count is_wrong (iterate claims) ≡ 0 =
            count-perm is_wrong permutes ∙ put_claims-right s.volume_claim_templates [] refl in
          put_volumes-matches n name volumes []
            (omega (
              arith,
              count-append (is_bad n name) made kept,
              to_volumes-bad n (iterate claims) right,
              kept-good n name claims p.volumes (key-lookup n claims h),
            ))
            (inl (
              omega (
                arith,
                count-append (is_named n) made kept,
                to_volumes-named n (iterate claims),
                count-perm (has_key n) permutes,
                h,
              )))

      all-templates :
          (cs : List Claim)
          → All (λ c. 0 < count (has_key c.name) claims) cs
          → all (template_matches s (record p { volumes = volumes }) (put_volumes volumes [])) cs
            ≡ true
      unfolding template_matches
      all-templates [] h = refl
      all-templates (c ∷ cs) h = ground (
        arith,
        rw (sym (claim_name-volumes volumes c.name)) at (new_volume-matches c.name h.0),
        all-templates cs h.1,
      )

      -- Where the Pod of a NodeSet has an ordinal or the NodeSet is not of the mode StatefulSet,
      -- the Pod has the storage that IsStorageMatch asks for after UpdateStorage, whatever volumes
      -- it had before and in whatever order the map of its claims is gone through.
      pub update_storage-matches :
          (is_statefulset s.scaling_mode && ltb_ℤ (get_ordinal p) (pos 0)) ≡ false
          → is_storage_match s (update_storage selector_labels iterate s p) ≡ true
      unfolding is_storage_match update_storage get_persistent_volume_claims get_ordinal
          get_parent_name_and_ordinal
      update_storage-matches h =
          rw h (all-templates s.volume_claim_templates (put_claims-All s.volume_claim_templates []))
