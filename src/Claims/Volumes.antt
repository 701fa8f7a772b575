-- ===== src/Claims/Volumes.antt =====
-- The volumes of a Pod that stand for its claims: UpdateStorage and IsStorageMatch
-- (internal/controller/nodeset/utils/utils.go).
pub mod Match
use gce_hackathon.Prelude.{
  ℤ, pos, ltb_ℤ, Bool, true, false, not, ◌&&◌, Option, none, some, List, [], ◌∷◌, ◌++◌, Bytes, map,
  keep, all, lookup, insert, bytes_eq, if◌then◌else◌,
}
use gce_hackathon.Objects.{Pod, NodeSet, Claim, Volume}
use gce_hackathon.Names.{get_ordinal, is_statefulset}
use gce_hackathon.Pods.{is_set}
use gce_hackathon.Claims.Names.{claim_name, get_persistent_volume_claims}

abbrev pub volume_of : Bytes × Claim → Volume
volume_of (name, claim) = record { name = name; claim_name = some claim.name }

-- The assignments `volumes[volume.Name] = volume`, in order.
unfoldable pub put_volumes : List Volume → List (Bytes × Volume) → List (Bytes × Volume)
put_volumes [] volumes = volumes
put_volumes (v ∷ vs) volumes = put_volumes vs (insert v.name v volumes)

-- There is a volume, and it is of the claim of that name.
abbrev pub is_of_claim : Bytes → Option Bytes → Bool
is_of_claim name none = false
is_of_claim name (some claim) = bytes_eq claim name

abbrev pub volume_matches : Bytes → Option Volume → Bool
volume_matches name none = false
volume_matches name (some v) = is_of_claim name v.claim_name

unfoldable pub template_matches : NodeSet → Pod → List (Bytes × Volume) → Claim → Bool
unfolding claim_name
template_matches s p volumes template =
    volume_matches (claim_name s p template.name) (lookup template.name volumes)

unfoldable pub is_storage_match : NodeSet → Pod → Bool
unfolding put_volumes template_matches
is_storage_match s p =
    if is_statefulset s.scaling_mode && ltb_ℤ (get_ordinal p) (pos 0)
    then false
    else all (template_matches s p (put_volumes p.volumes [])) s.volume_claim_templates

-- `iterate` is the order in which a map of claims is gone through.
module _ (selector_labels : NodeSet → List (Bytes × Bytes))
    (iterate : List (Bytes × Claim) → List (Bytes × Claim)) where
  -- The new volumes, of the claims, and in front of the current ones of no claim's name.
  unfoldable pub new_volumes : NodeSet → Pod → List Volume
  unfolding get_persistent_volume_claims
  new_volumes s p =
      let claims = get_persistent_volume_claims selector_labels s p in
      map volume_of (iterate claims) ++ keep (λ v. not (is_set (lookup v.name claims))) p.volumes

  unfoldable pub update_storage : NodeSet → Pod → Pod
  unfolding new_volumes
  update_storage s p = record p { volumes = new_volumes s p }
