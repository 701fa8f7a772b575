-- ===== src/Webhooks/Controllers/Reserved.antt =====
-- The files that a Controller may refer to (internal/webhook/controller_webhook.go).
use gce_hackathon.Prelude.{
  ◌≤◌, ltb, length, ◌≡◌, ◌≢◌, false, Option, none, some, List, [], ◌∷◌, map, All, Bytes, codes,
  bytes_eq_refl, arith,
}
use gce_hackathon.Conf.Controller.{cluster_name}
use gce_hackathon.Webhooks.{Refusal, DeepEqual, long_cluster_name}
use gce_hackathon.Webhooks.Admitted.{append_nil, refuse_if-nil, no_error-nil}
use gce_hackathon.Webhooks.Controllers.{
  ControllerSpec, deny_config_files, is_among, check_file, check_files, check_config_map,
  check_refs, validate_controller, validate_create_controller,
}

-- A file by another name than those that the operator writes.
abbrev pub IsAllowed : Bytes → Type 0
IsAllowed file = (file ≢ codes "slurm.conf") × (file ≢ codes "slurmdbd.conf")

-- A ConfigMap that was read and has only such files.
abbrev pub IsAllowedMap : Option (List (Bytes × Bytes)) → Type 0
IsAllowedMap none = ⊥
IsAllowedMap (some files) = All IsAllowed (map (λ entry. entry.0) files)

-- A name that is not among some others is none of them.
not_among :
    (files : List Bytes) (file : Bytes) → is_among files file ≡ false → All (λ f. file ≢ f) files
not_among [] file h = tt
not_among (f ∷ files) file h =
    (λ same. grind (arith, h, bytes_eq_refl f, same), not_among files file (grind (arith, h)))

check_file-not_among :
    (file : Bytes) → (check_file file).1 ≡ [] → is_among deny_config_files file ≡ false
unfolding check_file
check_file-not_among file h = grind (arith, h)

check_file-IsAllowed : (file : Bytes) → (check_file file).1 ≡ [] → IsAllowed file
check_file-IsAllowed file h =
    let others = not_among deny_config_files file (check_file-not_among file h) in
    (others.0, others.1.0)

check_files-IsAllowed : (files : List Bytes) → (check_files files).1 ≡ [] → All IsAllowed files
unfolding check_files
check_files-IsAllowed [] h = tt
check_files-IsAllowed (file ∷ files) h =
    let parts = append_nil (check_file file).1 (check_files files).1 h in
    (check_file-IsAllowed file parts.0, check_files-IsAllowed files parts.1)

check_config_map-IsAllowedMap :
    (ref : Bytes) (data_ : Option (List (Bytes × Bytes)))
    → (check_config_map ref data_).1 ≡ []
    → IsAllowedMap data_
unfolding check_config_map
check_config_map-IsAllowedMap ref none h = grind (arith, h)
check_config_map-IsAllowedMap ref (some files) h =
    check_files-IsAllowed (map (λ entry. entry.0) files) h

module _ {Aggregate : Type 0} (new_aggregate : List Refusal → Option Aggregate) (eq : DeepEqual)
    (get_config_map : Bytes → Bytes → Option (List (Bytes × Bytes))) where
  refs-IsAllowedMap :
      (namespace : Bytes) (refs : List Bytes)
      → (check_refs new_aggregate eq get_config_map namespace refs).1 ≡ []
      → All (λ ref. IsAllowedMap (get_config_map namespace ref)) refs
  refs-IsAllowedMap namespace [] h = tt
  refs-IsAllowedMap namespace (ref ∷ refs) h =
      let parts =
        append_nil (check_config_map ref (get_config_map namespace ref)).1
          (check_refs new_aggregate eq get_config_map namespace refs).1 h in
      (
        check_config_map-IsAllowedMap ref (get_config_map namespace ref) parts.0,
        refs-IsAllowedMap namespace refs parts.1,
      )

  -- A Controller that the webhook admits at its creation refers only to ConfigMaps that can be read
  -- and that have no file by the name slurm.conf or slurmdbd.conf, and the name of its cluster has at
  -- most 40 bytes; NewAggregate is taken to make an error of any list of errors that is not empty.
  pub validate_create_controller-allowed :
      ((r : Refusal) (rs : List Refusal) → new_aggregate (r ∷ rs) ≢ none)
      → (c : ControllerSpec)
      → (validate_create_controller new_aggregate eq get_config_map c).1 ≡ none
      → All (λ ref. IsAllowedMap (get_config_map c.controller.namespace ref)) c.config_file_refs
        × (length (cluster_name c.controller) ≤ 40)
  unfolding validate_create_controller validate_controller
  validate_create_controller-allowed never_none c h =
      let parts =
        append_nil (validate_controller new_aggregate eq get_config_map c).1 _
          (no_error-nil new_aggregate never_none _ h) in
      let short =
        refuse_if-nil (ltb 40 (length (cluster_name c.controller)))
          (long_cluster_name (cluster_name c.controller)) parts.1 in
      (refs-IsAllowedMap c.controller.namespace c.config_file_refs parts.0, ground arith)
