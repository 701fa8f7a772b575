-- ===== src/Examples/Requests.antt =====
-- Examples of the requests that the webhooks (internal/webhook) admit, and of an event of a Secret
-- (internal/controller/nodeset/eventhandler/eventhandler_secret.go).
use gce_hackathon.Prelude.{
  ℕ, zero, suc, ◌+◌, ◌*◌, any, ◌≤◌, ℤ, pos, negsuc, ◌≡◌, refl, ap₂, ◌≢◌, Bool, true, false, ◌&&◌,
  Option, none, some, List, [], ◌∷◌, Bytes, codes, bytes_eq, bytes_eq_sound, lookup, length, All,
  arith,
}
use gce_hackathon.Objects.{
  NodeSet, Claim, IntOrString, int_value, string_value, Reference, set_node_set_defaults,
}
use gce_hackathon.Pods.Split.Insertion.{insertion_sorter}
use gce_hackathon.Pods.{is_terminating}
use gce_hackathon.NodeSets.Rolling.{find_updated_pods, get_revision, pods_to_replace}
use gce_hackathon.Conf.Controller.{Controller, cluster_name}
use gce_hackathon.Webhooks.Controllers.{
  ControllerSpec, check_config_map, check_file, check_files, validate_controller,
  validate_create_controller,
}
use gce_hackathon.Webhooks.Controllers.Reserved.{IsAllowedMap, validate_create_controller-allowed}
use gce_hackathon.Webhooks.{Refusal, DeepEqual, validate_create_node_set, validate_update_node_set}
use gce_hackathon.Webhooks.Admitted.{Admitted, created, updated, Valid, Keeps, Admitted-Keeps}
use gce_hackathon.Events.Controllers.{secret_event}
use gce_hackathon.Events.Controllers.Panic.{is_unread, has_secret, secret_event-panics}
use gce_hackathon.Webhooks.Progress.{Admitted-replaces}
use gce_hackathon.Examples.{readiness, no_times, two_pods, node_set}

abbrev aggregate : List Refusal → Option (List Refusal)
aggregate [] = none
aggregate (r ∷ rs) = some (r ∷ rs)

aggregate-never_none : (r : Refusal) (rs : List Refusal) → aggregate (r ∷ rs) ≢ none
aggregate-never_none r rs h = grind (arith, h)

abbrev both_empty : List Claim → List Claim → Bool
both_empty [] [] = true
both_empty _ _ = false

abbrev equality : DeepEqual
equality = record {
  references = λ a b. bytes_eq a.namespace b.namespace && bytes_eq a.name b.name;
  claims = both_empty;
  secret_keys = λ a b. bytes_eq a.name b.name && bytes_eq a.key b.key;
  names = bytes_eq;
  flags = λ a b. true;
}

references_sound : (a b : Reference) → equality.references a b ≡ true → a ≡ b
references_sound a b h =
    ap₂ (λ namespace name. record { namespace = namespace; name = name })
      (bytes_eq_sound a.namespace b.namespace (grind (arith, h)))
      (bytes_eq_sound a.name b.name (grind (arith, h)))

claims_sound : (a b : List Claim) → equality.claims a b ≡ true → a ≡ b
claims_sound [] [] h = refl
claims_sound [] (c ∷ b) h = grind (arith, h)
claims_sound (c ∷ a) b h = grind (arith, h)

abbrev grown : NodeSet
grown = record node_set { replicas = some (pos 3); max_unavailable = some (int_value (pos 1)) }

grown-Admitted : Admitted aggregate equality node_set grown
unfolding validate_create_node_set validate_update_node_set bytes_eq
grown-Admitted = updated (created refl) refl

Admitted-Keeps_example : Valid grown × Keeps aggregate equality node_set grown
Admitted-Keeps_example =
    Admitted-Keeps aggregate equality aggregate-never_none references_sound claims_sound node_set
      grown grown-Admitted

-- A quarter, rounded up.
quarter : ℕ → ℕ
quarter zero = 0
quarter (suc zero) = 1
quarter (suc (suc zero)) = 1
quarter (suc (suc (suc zero))) = 1
quarter (suc (suc (suc (suc n)))) = suc (quarter n)

quarter_rounds : (n : ℕ) → 25 * n ≤ 100 * quarter n
unfolding quarter
quarter_rounds zero = ground arith
quarter_rounds (suc zero) = ground arith
quarter_rounds (suc (suc zero)) = ground arith
quarter_rounds (suc (suc (suc zero))) = ground arith
quarter_rounds (suc (suc (suc (suc n)))) = omega (arith, quarter_rounds n)

-- Numbers, and the texts as if each were 25%.
abbrev scale : Option IntOrString → ℤ → Bool → Option ℤ
scale none total up = none
scale (some (int_value v)) total up = some v
scale (some (string_value v)) (pos n) up = some (pos (quarter n))
scale (some (string_value v)) (negsuc n) up = none

Admitted-replaces_example :
    let (unhealthy_pods, pods_to_delete) =
      pods_to_replace readiness no_times insertion_sorter scale
        (set_node_set_defaults node_set)
        0
        two_pods
        (codes "new") in
    1 ≤ length unhealthy_pods + length pods_to_delete
unfolding find_updated_pods is_terminating bytes_eq get_revision lookup validate_create_node_set
Admitted-replaces_example =
    Admitted-replaces aggregate equality aggregate-never_none references_sound claims_sound
      readiness no_times insertion_sorter scale 0 two_pods (codes "new") node_set node_set
      (created refl) ((λ v total up. refl), (λ n. (quarter n, refl, quarter_rounds n))) tt
      (2, refl, ground arith) (λ same. grind (arith, same)) (ground arith)

abbrev controller : Controller
controller = record {
  name = codes "slurm";
  namespace = codes "slurm";
  cluster_name_spec = [];
  external_host = none;
  has_jwks = false;
  metrics_enabled = false;
  extra_conf = [];
}

abbrev controller_spec : ControllerSpec
controller_spec = record {
  controller = controller;
  config_file_refs = codes "files" ∷ [];
  slurm_key_name = codes "key";
  jwt_key_ref = none;
  jwt_hs256_key_ref = none;
  persistence_enabled = none;
}

-- One ConfigMap, with the file gres.conf.
abbrev config_maps : Bytes → Bytes → Option (List (Bytes × Bytes))
config_maps namespace name = some ((codes "gres.conf", codes "AutoDetect=nvml") ∷ [])

controller_admitted :
    (validate_create_controller aggregate equality config_maps controller_spec).1 ≡ none
unfolding validate_create_controller validate_controller check_config_map check_files check_file
    bytes_eq cluster_name
controller_admitted = refl

validate_create_controller-allowed_example :
    All (λ ref. IsAllowedMap (config_maps (codes "slurm") ref)) (codes "files" ∷ [])
    × (length (cluster_name controller) ≤ 40)
validate_create_controller-allowed_example =
    validate_create_controller-allowed aggregate equality config_maps aggregate-never_none
      controller_spec controller_admitted

secret_event-panics_example :
    (secret_event none (some (controller_spec ∷ [])) (codes "slurm") (codes "key")).1
    ≡ (is_unread none && any (has_secret (codes "slurm") (codes "key")) (controller_spec ∷ []))
secret_event-panics_example =
    secret_event-panics none (some (controller_spec ∷ [])) (codes "slurm") (codes "key")
