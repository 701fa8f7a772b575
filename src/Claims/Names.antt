-- ===== src/Claims/Names.antt =====
-- The claims of a Pod: their names and contents (GetPersistentVolumeClaims in
-- internal/controller/nodeset/utils/utils.go).
use gce_hackathon.Prelude.{List, [], ◌∷◌, Bytes, lookup, insert, or_empty}
use gce_hackathon.Objects.{Pod, NodeSet, Claim, ScalingMode}
use gce_hackathon.Objects.Keys.{label_pod_hostname}
use gce_hackathon.Names.{
  get_ordinal, get_padded_ordinal, get_persistent_volume_claim_name_ordinal,
  get_persistent_volume_claim_name_node_name,
}

-- The name of the claim of a template, by its name, for a Pod: by the ordinal, or by the host name.
abbrev pub name_by : ScalingMode → NodeSet → Pod → Bytes → Bytes
name_by ScalingMode.statefulset s p template =
    get_persistent_volume_claim_name_ordinal s template (get_padded_ordinal s (get_ordinal p))
name_by _ s p template =
    get_persistent_volume_claim_name_node_name s template
      (or_empty (lookup label_pod_hostname p.labels))

unfoldable pub claim_name : NodeSet → Pod → Bytes → Bytes
claim_name s p template = name_by s.scaling_mode s p template

-- maps.Copy: each binding of the second map is put into the first.
abbrev pub copy_into : List (Bytes × Bytes) → List (Bytes × Bytes) → List (Bytes × Bytes)
copy_into m [] = m
copy_into m ((k, v) ∷ more) = copy_into (insert k v m) more

-- The labels that select the Pods of a NodeSet (package labels) come as a parameter. Labels that
-- are nil are empty.
module _ (selector_labels : NodeSet → List (Bytes × Bytes)) where
  unfoldable pub claim_of : NodeSet → Pod → Claim → Claim
  unfolding claim_name
  claim_of s p template = record template {
    name = claim_name s p template.name;
    namespace = s.namespace;
    labels = copy_into template.labels (selector_labels s);
  }

  -- The assignments `claims[templates[i].Name] = *claim`, in order.
  unfoldable pub put_claims :
      NodeSet → Pod → List Claim → List (Bytes × Claim) → List (Bytes × Claim)
  unfolding claim_of
  put_claims s p [] claims = claims
  put_claims s p (template ∷ templates) claims =
      put_claims s p templates (insert template.name (claim_of s p template) claims)

  -- GetPersistentVolumeClaims, by the names of the templates.
  unfoldable pub get_persistent_volume_claims : NodeSet → Pod → List (Bytes × Claim)
  unfolding put_claims
  get_persistent_volume_claims s p = put_claims s p s.volume_claim_templates []
