-- ===== src/Webhooks/Controllers.antt =====
-- internal/webhook/controller_webhook.go.
pub mod Reserved
use gce_hackathon.Prelude.{
  ltb, length, Bool, not, Option, none, some, List, [], ◌∷◌, ◌++◌, map, any, Bytes, codes, bytes_eq,
  if◌then◌else◌,
}
use gce_hackathon.Conf.Controller.{Controller, cluster_name}
use gce_hackathon.Webhooks.{
  Warning, unknown_config_file, Refusal, reserved_config_file, long_cluster_name, unread_config_map,
  cluster_name_changed, slurm_key_changed, jwt_key_changed, persistence_changed, SecretKey,
  auth_jwt_ref, DeepEqual, refuse_if, Answer,
}

-- The fields of a Controller that only its webhook reads.
pub record ControllerSpec : Type 0 where
  pub controller : Controller
  pub config_file_refs : List Bytes
  pub slurm_key_name : Bytes
  pub jwt_key_ref : Option SecretKey
  pub jwt_hs256_key_ref : Option SecretKey
  pub persistence_enabled : Option Bool

abbrev pub deny_config_files : List Bytes
deny_config_files = codes "slurm.conf" ∷ codes "slurmdbd.conf" ∷ []

abbrev pub known_config_files : List Bytes
known_config_files =
    codes "acct_gather.conf"
    ∷ codes "burst_buffer.conf"
    ∷ codes "cgroup.conf"
    ∷ codes "cli_filter.lua"
    ∷ codes "gres.conf"
    ∷ codes "helpers.conf"
    ∷ codes "job_container.conf"
    ∷ codes "job_submit.lua"
    ∷ codes "mpi.conf"
    ∷ codes "namespace.yaml"
    ∷ codes "oci.conf"
    ∷ codes "plugstack.conf"
    ∷ codes "topology.conf"
    ∷ codes "topology.yaml"
    ∷ []

abbrev pub is_among : List Bytes → Bytes → Bool
is_among files file = any (λ f. bytes_eq f file) files

abbrev pub Findings : Type 0
Findings = List Warning × List Refusal

abbrev joined : Findings → Findings → Findings
joined (warnings, errors) (warnings', errors') = (warnings ++ warnings', errors ++ errors')

unfoldable pub check_file : Bytes → Findings
check_file file =
    if is_among deny_config_files file
    then ([], reserved_config_file file ∷ [])
    else if not (is_among known_config_files file)
    then (unknown_config_file file ∷ [], [])
    else ([], [])

unfoldable pub check_files : List Bytes → Findings
check_files [] = ([], [])
check_files (file ∷ files) = joined (check_file file) (check_files files)

-- The files of a ConfigMap, where it can be read.
unfoldable pub check_config_map : Bytes → Option (List (Bytes × Bytes)) → Findings
check_config_map ref none = ([], unread_config_map ref ∷ [])
check_config_map ref (some files) = check_files (map (λ entry. entry.0) files)

-- `get_config_map` reads the data of the ConfigMap of a namespace and a name; the order of the
-- entries is the one in which the code ranges over the map.
module _ {Aggregate : Type 0} (new_aggregate : List Refusal → Option Aggregate) (eq : DeepEqual)
    (get_config_map : Bytes → Bytes → Option (List (Bytes × Bytes))) where
  abbrev pub check_refs : Bytes → List Bytes → Findings
  check_refs namespace [] = ([], [])
  check_refs namespace (ref ∷ refs) =
      joined (check_config_map ref (get_config_map namespace ref)) (check_refs namespace refs)

  -- validateController.
  unfoldable pub validate_controller : ControllerSpec → Findings
  validate_controller c = check_refs c.controller.namespace c.config_file_refs

  unfoldable pub validate_create_controller : ControllerSpec → Answer Aggregate
  unfolding cluster_name refuse_if validate_controller
  validate_create_controller c =
      let (warnings, errors) = validate_controller c in
      let name = cluster_name c.controller in
      (
        warnings,
        new_aggregate (errors ++ refuse_if (ltb 40 (length name)) (long_cluster_name name)),
      )

  unfoldable pub validate_update_controller : ControllerSpec → ControllerSpec → Answer Aggregate
  unfolding cluster_name refuse_if validate_controller auth_jwt_ref
  validate_update_controller old c =
      let (warnings, errors) = validate_controller c in
      (
        warnings,
        new_aggregate (
            errors
            ++ (refuse_if (not (bytes_eq (cluster_name c.controller) (cluster_name old.controller)))
                  cluster_name_changed
                ++ (refuse_if (not (eq.names c.slurm_key_name old.slurm_key_name)) slurm_key_changed
                    ++ (refuse_if
                          (not (
                            eq.secret_keys (auth_jwt_ref c.jwt_key_ref c.jwt_hs256_key_ref)
                              (auth_jwt_ref old.jwt_key_ref old.jwt_hs256_key_ref)))
                          jwt_key_changed
                        ++ refuse_if (not (eq.flags c.persistence_enabled old.persistence_enabled))
                            persistence_changed)))),
      )
