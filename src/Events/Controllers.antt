-- ===== src/Events/Controllers.antt =====
-- internal/controller/nodeset/eventhandler: eventhandler_controller.go and eventhandler_secret.go, the
-- events of Controllers and Secrets, with GetNodeSetsForController of
-- internal/utils/refresolver/refresolver.go.
pub mod Panic
use gce_hackathon.Prelude.{
  Bool, true, false, not, ◌&&◌, Option, none, some, List, [], ◌∷◌, ◌++◌, map, keep, Bytes, bytes_eq,
  if◌then◌else◌,
}
use gce_hackathon.Objects.{NodeSet, Reference}
use gce_hackathon.Webhooks.{auth_jwt_ref}
use gce_hackathon.Webhooks.Controllers.{ControllerSpec}
use gce_hackathon.Events.{Effect, enqueue}

-- NamespacedName, as it is printed.
unfoldable pub key_string : Bytes → Bytes → Bytes
key_string namespace name = namespace ++ (b'/' ∷ name)

-- AuthSlurmKey and AuthJwtKey of a Controller, as they are printed.
unfoldable pub auth_slurm_key : ControllerSpec → Bytes
unfolding key_string
auth_slurm_key c = key_string c.controller.namespace c.slurm_key_name

unfoldable pub auth_jwt_key : ControllerSpec → Bytes
unfolding key_string auth_jwt_ref
auth_jwt_key c =
    key_string c.controller.namespace (auth_jwt_ref c.jwt_key_ref c.jwt_hs256_key_ref).name

-- IsMatch.
unfoldable pub is_match : Reference → Bytes → Bytes → Bool
is_match ref namespace name = bytes_eq ref.namespace namespace && bytes_eq ref.name name

abbrev pub refers : ControllerSpec → NodeSet → Bool
unfolding is_match
refers c s = is_match s.controller_ref c.controller.namespace c.controller.name

-- What a handler did, and whether it panicked.
abbrev pub Outcome : Type 0
Outcome = List Effect × Bool

abbrev pub wake : List NodeSet → List Effect
wake sets = map (λ s. enqueue s) sets

abbrev pub followed : List Effect → Outcome → Outcome
followed es (rest, panicked) = (es ++ rest, panicked)

-- `list_node_sets` and `list_controllers` are List of the client; `none` is an error. A list of
-- Controllers that cannot be read is empty.
module _ (list_node_sets : Option (List NodeSet))
    (list_controllers : Option (List ControllerSpec)) where
  unfoldable pub referring : ControllerSpec → Option (List NodeSet) → Option (List NodeSet)
  unfolding is_match
  referring c none = none
  referring c (some sets) = some (keep (refers c) sets)

  -- GetNodeSetsForController.
  unfoldable pub get_node_sets_for_controller : ControllerSpec → Option (List NodeSet)
  unfolding referring
  get_node_sets_for_controller c = referring c list_node_sets

  abbrev pub wake_found : Option (List NodeSet) → List Effect
  wake_found none = []
  wake_found (some sets) = wake sets

  -- enqueueRequest of the handler of Controllers: Create and Delete.
  unfoldable pub controller_event : ControllerSpec → List Effect
  unfolding get_node_sets_for_controller
  controller_event c = wake_found (get_node_sets_for_controller c)

  -- Update.
  unfoldable pub update_controller : ControllerSpec → ControllerSpec → List Effect
  unfolding controller_event
  update_controller old new = controller_event old ++ controller_event new

  unfoldable pub uses_secret : Bytes → ControllerSpec → Bool
  unfolding auth_slurm_key auth_jwt_key
  uses_secret key c =
      not (not (bytes_eq key (auth_slurm_key c)) && not (bytes_eq key (auth_jwt_key c)))

  -- The items of a list that could not be read are those of a nil pointer.
  unfoldable pub then_wake : ControllerSpec → Option (List NodeSet) → Outcome → Outcome
  unfolding is_match
  then_wake c none rest = ([], true)
  then_wake c (some sets) rest = followed (wake (keep (refers c) sets)) rest

  unfoldable pub over_controllers : Bytes → List ControllerSpec → Outcome
  unfolding get_node_sets_for_controller uses_secret then_wake
  over_controllers key [] = ([], false)
  over_controllers key (c ∷ cs) =
      let rest = over_controllers key cs in
      if uses_secret key c then then_wake c (get_node_sets_for_controller c) rest else rest

  unfoldable pub over_found : Bytes → Option (List ControllerSpec) → Outcome
  unfolding over_controllers
  over_found key none = ([], false)
  over_found key (some cs) = over_controllers key cs

  -- enqueueRequest of the handler of Secrets, of the Secret by its namespace and name.
  unfoldable pub secret_event : Bytes → Bytes → Outcome
  unfolding key_string over_found
  secret_event namespace name = over_found (key_string namespace name) list_controllers
