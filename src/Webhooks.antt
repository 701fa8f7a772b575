-- ===== src/Webhooks.antt =====
-- internal/webhook: what the webhooks answer to requests to create, update and delete objects, in
-- nodeset_webhook.go, loginset_webhook.go, token_webhook.go, accounting_webhook.go and
-- restapi_webhook.go. The webhook of Controllers is in Webhooks/Controllers.
pub mod Controllers
pub mod Binding
pub mod Admitted
pub mod Progress
use gce_hackathon.Prelude.{
  ℤ, pos, ltb_ℤ, Bool, true, false, not, ◌&&◌, Option, none, some, List, [], ◌∷◌, ◌++◌, Bytes,
  codes, bytes_eq, if◌then◌else◌,
}
use gce_hackathon.Objects.{NodeSet, Claim, IntOrString, int_value, string_value, Reference}
use gce_hackathon.Names.{is_empty}

pub data Warning : Type 0 where
  taint_kube_nodes_deprecated : Warning
  unknown_config_file : Bytes → Warning

-- The errors of validation.
pub data Refusal : Type 0 where
  no_controller_name no_sssd_conf_name zero_percent : Refusal
  not_positive : ℤ → Refusal
  controller_ref_changed claim_templates_changed : Refusal
  cluster_name_changed slurm_key_changed jwt_key_changed persistence_changed : Refusal
  reserved_config_file : Bytes → Refusal
  long_cluster_name : Bytes → Refusal
  -- A ConfigMap that could not be read.
  unread_config_map : Bytes → Refusal

-- SecretKeySelector, and JwtSecretKeySelector with its namespace.
pub record SecretKey : Type 0 where
  pub name : Bytes
  pub key : Bytes
  pub namespace : Bytes

abbrev pub no_secret_key : SecretKey
no_secret_key = record { name = []; key = []; namespace = [] }

-- AuthJwtRef, of JwtKeyRef and JwtHs256KeyRef.
unfoldable pub auth_jwt_ref : Option SecretKey → Option SecretKey → SecretKey
auth_jwt_ref (some ref) _ = ref
auth_jwt_ref none (some ref) = ref
auth_jwt_ref none none = no_secret_key

-- JwtRef of a Token: in its own namespace if none is given.
unfoldable pub jwt_ref : Bytes → Option SecretKey → Option SecretKey → SecretKey
unfolding auth_jwt_ref
jwt_ref namespace jwt hs256 =
    let ref = auth_jwt_ref jwt hs256 in
    if is_empty ref.namespace then record ref { namespace = namespace } else ref

-- Semantic.DeepEqual of apimachinery, at the types that are compared.
pub record DeepEqual : Type 0 where
  pub references : Reference → Reference → Bool
  pub claims : List Claim → List Claim → Bool
  pub secret_keys : SecretKey → SecretKey → Bool
  pub names : Bytes → Bytes → Bool
  pub flags : Option Bool → Option Bool → Bool

-- One error if the condition holds.
unfoldable pub refuse_if : Bool → Refusal → List Refusal
refuse_if true r = r ∷ []
refuse_if false r = []

unfoldable pub check_max_unavailable : Option IntOrString → List Refusal
unfolding refuse_if
check_max_unavailable none = []
check_max_unavailable (some (int_value v)) = refuse_if (ltb_ℤ v (pos 1)) (not_positive v)
check_max_unavailable (some (string_value v)) = refuse_if (bytes_eq v (codes "0%")) zero_percent

-- validateNodeSet.
unfoldable pub validate_node_set : NodeSet → List Warning × List Refusal
unfolding refuse_if check_max_unavailable
validate_node_set s = (
  if s.taint_kube_nodes then taint_kube_nodes_deprecated ∷ [] else [],
  refuse_if (is_empty s.controller_ref.name) no_controller_name
      ++ (check_max_unavailable s.max_unavailable
          ++ refuse_if (s.ssh_enabled && is_empty s.sssd_conf_name) no_sssd_conf_name),
)

pub record LoginSet : Type 0 where
  pub controller_ref : Reference
  pub sssd_conf_name : Bytes

-- validateLoginSet.
unfoldable pub validate_login_set : LoginSet → List Refusal
unfolding refuse_if
validate_login_set s =
    refuse_if (is_empty s.controller_ref.name) no_controller_name
    ++ refuse_if (is_empty s.sssd_conf_name) no_sssd_conf_name

pub record Token : Type 0 where
  pub namespace : Bytes
  pub jwt_key_ref : Option SecretKey
  pub jwt_hs256_key_ref : Option SecretKey

-- The references of an Accounting to its JWT keys.
pub record JwtKeys : Type 0 where
  pub jwt_key_ref : Option SecretKey
  pub jwt_hs256_key_ref : Option SecretKey

-- The answer of a webhook: the warnings, and the error if there is one.
abbrev pub Answer : Type 0 → Type 0
Answer Aggregate = List Warning × Option Aggregate

-- `new_aggregate` is NewAggregate of apimachinery, and `eq` its DeepEqual.
module _ {Aggregate : Type 0} (new_aggregate : List Refusal → Option Aggregate)
    (eq : DeepEqual) where
  -- What the webhook of RestApis answers to a creation or an update, and each webhook to a deletion;
  -- so do those of Tokens and Accountings to a creation.
  abbrev pub admitted : Answer Aggregate
  admitted = ([], none)

  unfoldable pub validate_create_node_set : NodeSet → Answer Aggregate
  unfolding validate_node_set
  validate_create_node_set s =
      let (warnings, errors) = validate_node_set s in (warnings, new_aggregate errors)

  -- The errors of an update.
  unfoldable pub update_refusals : NodeSet → NodeSet → List Refusal
  unfolding validate_node_set refuse_if
  update_refusals old s =
      (validate_node_set s).1
      ++ (refuse_if (not (eq.references s.controller_ref old.controller_ref)) controller_ref_changed
          ++ refuse_if (not (eq.claims s.volume_claim_templates old.volume_claim_templates))
              claim_templates_changed)

  unfoldable pub validate_update_node_set : NodeSet → NodeSet → Answer Aggregate
  unfolding validate_node_set update_refusals
  validate_update_node_set old s = ((validate_node_set s).0, new_aggregate (update_refusals old s))

  unfoldable pub validate_create_login_set : LoginSet → Answer Aggregate
  unfolding validate_login_set
  validate_create_login_set s = ([], new_aggregate (validate_login_set s))

  unfoldable pub validate_update_login_set : LoginSet → LoginSet → Answer Aggregate
  unfolding validate_login_set refuse_if
  validate_update_login_set old s = (
    [],
    new_aggregate (
        validate_login_set s
        ++ refuse_if (not (eq.references s.controller_ref old.controller_ref))
            controller_ref_changed),
  )

  unfoldable pub validate_update_token : Token → Token → Answer Aggregate
  unfolding jwt_ref refuse_if
  validate_update_token old t = (
    [],
    new_aggregate (
        refuse_if
          (not (
            eq.secret_keys (jwt_ref t.namespace t.jwt_key_ref t.jwt_hs256_key_ref)
              (jwt_ref old.namespace old.jwt_key_ref old.jwt_hs256_key_ref)))
          jwt_key_changed),
  )

  unfoldable pub validate_update_accounting : JwtKeys → JwtKeys → Answer Aggregate
  unfolding auth_jwt_ref refuse_if
  validate_update_accounting old a = (
    [],
    new_aggregate (
        refuse_if
          (not (
            eq.secret_keys (auth_jwt_ref a.jwt_key_ref a.jwt_hs256_key_ref)
              (auth_jwt_ref old.jwt_key_ref old.jwt_hs256_key_ref)))
          jwt_key_changed),
  )
