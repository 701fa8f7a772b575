-- ===== src/Events/Controllers/Panic.antt =====
-- Where the handler of Secrets (internal/controller/nodeset/eventhandler/eventhandler_secret.go)
-- panics.
use gce_hackathon.Prelude.{
  ◌≡◌, refl, inl, inr, Bool, true, false, not, ◌&&◌, ◌||◌, Option, none, some, List, [], ◌∷◌, ◌++◌,
  Bytes, bytes_eq, any, Bool-cases,
}
use gce_hackathon.Objects.{NodeSet}
use gce_hackathon.Webhooks.{SecretKey, auth_jwt_ref}
use gce_hackathon.Webhooks.Controllers.{ControllerSpec}
use gce_hackathon.Events.Controllers.{
  referring, key_string, auth_slurm_key, auth_jwt_key, get_node_sets_for_controller, uses_secret,
  then_wake, over_controllers, over_found, secret_event,
}

abbrev pub is_unread : Option (List NodeSet) → Bool
is_unread none = true
is_unread (some sets) = false

abbrev pub listed : Option (List ControllerSpec) → List ControllerSpec
listed none = []
listed (some cs) = cs

-- A Controller has the Secret of a namespace and a name, as they are printed with a slash between, for
-- its Slurm key, or for its JWT key: that of JwtKeyRef, or of JwtHs256KeyRef where there is no other.
abbrev jwt_name : Option SecretKey → Option SecretKey → Bytes
jwt_name (some ref) _ = ref.name
jwt_name none (some ref) = ref.name
jwt_name none none = []

abbrev pub printed : Bytes → Bytes → Bytes
printed namespace name = namespace ++ (b'/' ∷ name)

abbrev pub has_secret : Bytes → Bytes → ControllerSpec → Bool
has_secret namespace name c =
    let key = printed namespace name in
    bytes_eq key (printed c.controller.namespace c.slurm_key_name)
    || bytes_eq key (printed c.controller.namespace (jwt_name c.jwt_key_ref c.jwt_hs256_key_ref))

jwt_ref-name : (jwt hs256 : Option SecretKey) → (auth_jwt_ref jwt hs256).name ≡ jwt_name jwt hs256
unfolding auth_jwt_ref
jwt_ref-name (some ref) hs256 = refl
jwt_ref-name none (some ref) = refl
jwt_ref-name none none = refl

not_neither : (a b : Bool) → not (not a && not b) ≡ (a || b)
not_neither true b = refl
not_neither false true = refl
not_neither false false = refl

uses_secret-has_secret :
    (list_node_sets : Option (List NodeSet)) (list_controllers : Option (List ControllerSpec))
    (namespace name : Bytes) (c : ControllerSpec)
    → uses_secret list_node_sets list_controllers (key_string namespace name) c
      ≡ has_secret namespace name c
unfolding uses_secret key_string auth_slurm_key auth_jwt_key
uses_secret-has_secret list_node_sets list_controllers namespace name c =
    let key = printed namespace name in
    rw (jwt_ref-name c.jwt_key_ref c.jwt_hs256_key_ref) (
      not_neither (bytes_eq key (printed c.controller.namespace c.slurm_key_name)) (
        bytes_eq key (printed c.controller.namespace (jwt_name c.jwt_key_ref c.jwt_hs256_key_ref))))

module _ (list_controllers : Option (List ControllerSpec)) where
  over_controllers-unread :
      (namespace name : Bytes) (cs : List ControllerSpec)
      → (over_controllers none list_controllers (key_string namespace name) cs).1
        ≡ any (has_secret namespace name) cs
  unfolding over_controllers get_node_sets_for_controller referring then_wake
  over_controllers-unread namespace name [] = refl
  over_controllers-unread namespace name (c ∷ cs) =
      let same = uses_secret-has_secret none list_controllers namespace name c in
      elim (Bool-cases (has_secret namespace name c)) [
        | inl h ↦ rw (same, h) refl
        | inr h ↦ rw (same, h) (over_controllers-unread namespace name cs)
      ]

  over_controllers-read :
      (sets : List NodeSet) (key : Bytes) (cs : List ControllerSpec)
      → (over_controllers (some sets) list_controllers key cs).1 ≡ false
  unfolding over_controllers get_node_sets_for_controller referring then_wake
  over_controllers-read sets key [] = refl
  over_controllers-read sets key (c ∷ cs) =
      elim (Bool-cases (uses_secret (some sets) list_controllers key c)) [
        | inl h ↦ rw h (over_controllers-read sets key cs)
        | inr h ↦ rw h (over_controllers-read sets key cs)
      ]

-- The handler of an event of a Secret panics exactly where the NodeSets cannot be listed and some
-- Controller that is listed has the Secret for its Slurm key or for its JWT key.
pub secret_event-panics :
    (list_node_sets : Option (List NodeSet)) (list_controllers : Option (List ControllerSpec))
    (namespace name : Bytes)
    → (secret_event list_node_sets list_controllers namespace name).1
      ≡ (is_unread list_node_sets && any (has_secret namespace name) (listed list_controllers))
unfolding secret_event over_found
secret_event-panics none none namespace name = refl
secret_event-panics none (some cs) namespace name =
    over_controllers-unread (some cs) namespace name cs
secret_event-panics (some sets) none namespace name = refl
secret_event-panics (some sets) (some cs) namespace name =
    over_controllers-read (some cs) sets (key_string namespace name) cs
