-- ===== src/Events.antt =====
-- internal/controller/nodeset/eventhandler/eventhandler_pod.go and eventhandler_node.go: which
-- NodeSets an event of a Pod or a Node wakes, and what it tells of the Pods that were expected. The
-- reads of one event are of one state of the cache.
pub mod Told
pub mod Controllers
use gce_hackathon.Prelude.{
  ℕ, ◌+◌, ◌==◌, ℤ, pos, negsuc, sub_ℕ, ltb_ℤ, Bool, true, false, not, ◌&&◌, ◌||◌, Option, none,
  some, List, [], ◌∷◌, ◌++◌, map, keep, Bytes, codes, bytes_eq, if◌then◌else◌,
}
use gce_hackathon.Objects.{Pod, Node, NodeSet, OwnerRef}
use gce_hackathon.Pods.{PodUtil, is_terminating}

-- A Pod with its version and GetControllerOf it.
pub record Observed : Type 0 where
  pub pod : Pod
  pub resource_version : Bytes
  pub controller_ref : Option OwnerRef

-- What a handler does: it puts a NodeSet into the queue, now or later, by a number of seconds, and
-- tells the expectations of a NodeSet.
pub data Effect : Type 0 where
  enqueue : NodeSet → Effect
  enqueue_after : NodeSet → ℤ → Effect
  creation_observed : NodeSet → Effect
  deletion_observed : NodeSet → Pod → Effect

-- What the handlers read and call: Get and List of the client, by namespace and name, where `none` is
-- an error; the selector of labels, whether it is empty and matches; DeepEqual.
pub record Cache : Type 0 where
  pub get_node_set : Bytes → Bytes → Option NodeSet
  pub get_pod : Bytes → Bytes → Option Observed
  pub list_node_sets : Bytes → Option (List NodeSet)
  pub list_pods_on : Bytes → Option (List Observed)
  pub is_empty_selector : List (Bytes × Bytes) → Bool
  pub selects : List (Bytes × Bytes) → List (Bytes × Bytes) → Bool
  pub equal_labels : List (Bytes × Bytes) → List (Bytes × Bytes) → Bool
  pub equal_refs : Option OwnerRef → Option OwnerRef → Bool
  pub equal_metadata : Node → Node → Bool

-- WithWorkerSelectorLabels, of a new builder.
unfoldable pub worker_selector_labels : NodeSet → List (Bytes × Bytes)
worker_selector_labels s =
    (codes "app.kubernetes.io/name", codes "slurmd")
    ∷ (codes "app.kubernetes.io/instance", s.name)
    ∷ []

-- A NodeSet that is found, if it is the one by the UID that is asked for.
abbrev pub with_uid : Bytes → Option NodeSet → Option NodeSet
with_uid uid none = none
with_uid uid (some s) = if bytes_eq s.uid uid then some s else none

-- regexp.MatchString of "^", the pattern and "-", where the pattern is the name of a NodeSet: its only
-- special character is the dot, which matches any character but a line break.
unfoldable pub matches_start : Bytes → Bytes → Bool
matches_start [] [] = false
matches_start [] (c ∷ text) = c == b'-'
matches_start (p ∷ pattern) [] = false
matches_start (p ∷ pattern) (c ∷ text) =
    let rest = matches_start pattern text in (p == c || (p == b'.' && not (c == b'\n'))) && rest

-- IsPodFromNodeSet.
unfoldable pub is_pod_from_node_set : NodeSet → Pod → Bool
unfolding matches_start
is_pod_from_node_set s p = matches_start s.name p.name

abbrev plus_one : ℤ → ℤ
plus_one (pos n) = pos (n + 1)
plus_one (negsuc n) = sub_ℕ 0 n

abbrev eqb_bool : Bool → Bool → Bool
eqb_bool true b = b
eqb_bool false b = not b

module _ (u : PodUtil) (cache : Cache) where
  -- resolveControllerRef.
  unfoldable pub resolve_controller_ref : Bytes → OwnerRef → Option NodeSet
  resolve_controller_ref namespace ref =
      if not (bytes_eq ref.kind (codes "NodeSet"))
        || not (bytes_eq ref.api_version (codes "slinky.slurm.net/v1beta1"))
      then none
      else with_uid ref.uid (cache.get_node_set namespace ref.name)

  -- The NodeSet of a reference to a controller, if there is one and it is found.
  unfoldable pub resolve : Bytes → Option OwnerRef → Option NodeSet
  unfolding resolve_controller_ref
  resolve namespace none = none
  resolve namespace (some ref) = resolve_controller_ref namespace ref

  abbrev pub matched : Pod → Option (List NodeSet) → List NodeSet
  unfolding worker_selector_labels
  matched p none = []
  matched p (some sets) =
      keep
        (λ s.
          not (cache.is_empty_selector (worker_selector_labels s))
          && cache.selects (worker_selector_labels s) p.labels)
        sets

  -- getPodNodeSets.
  unfoldable pub get_pod_node_sets : Pod → List NodeSet
  unfolding worker_selector_labels
  get_pod_node_sets p = matched p (cache.list_node_sets p.namespace)

  abbrev pub tell_deletion : Pod → Option NodeSet → List Effect
  tell_deletion p none = []
  tell_deletion p (some s) = deletion_observed s p ∷ enqueue s ∷ []

  -- deletePod, of a Pod.
  unfoldable pub delete_pod_event : Observed → List Effect
  unfolding resolve
  delete_pod_event o = tell_deletion o.pod (resolve o.pod.namespace o.controller_ref)

  abbrev pub tell_creation : Option NodeSet → List Effect
  tell_creation none = []
  tell_creation (some s) = creation_observed s ∷ enqueue s ∷ []

  abbrev pub wake_all : List NodeSet → List Effect
  wake_all sets = map (λ s. enqueue s) sets

  abbrev pub create_live : Observed → Option OwnerRef → List Effect
  unfolding resolve_controller_ref get_pod_node_sets
  create_live o (some ref) = tell_creation (resolve_controller_ref o.pod.namespace ref)
  create_live o none = wake_all (get_pod_node_sets o.pod)

  -- createPod; Create is createPod of the Pod.
  unfoldable pub create_pod_event : Observed → List Effect
  unfolding delete_pod_event resolve_controller_ref get_pod_node_sets
  create_pod_event o =
      if is_terminating o.pod then delete_pod_event o else create_live o o.controller_ref

  -- A NodeSet of a Pod that becomes ready is put into the queue again when the Pod is available.
  abbrev pub wake_later : Pod → Pod → NodeSet → List Effect
  wake_later old cur s =
      if not (u.is_pod_ready old) && (u.is_pod_ready cur && ltb_ℤ (pos 0) s.min_ready_seconds)
      then enqueue_after s (plus_one s.min_ready_seconds) ∷ []
      else []

  abbrev pub wake_owner : Pod → Pod → Option NodeSet → List Effect
  wake_owner old cur none = []
  wake_owner old cur (some s) = enqueue s ∷ wake_later old cur s

  unfoldable pub update_owned : Observed → Observed → Option OwnerRef → Bool → List Effect
  unfolding resolve_controller_ref get_pod_node_sets
  update_owned old cur (some ref) changed =
      wake_owner old.pod cur.pod (resolve_controller_ref cur.pod.namespace ref)
  update_owned old cur none changed = if changed then wake_all (get_pod_node_sets cur.pod) else []

  abbrev pub wake_one : Option NodeSet → List Effect
  wake_one none = []
  wake_one (some s) = enqueue s ∷ []

  -- The update of a Pod that is not being deleted.
  unfoldable pub update_live : Observed → Observed → List Effect
  unfolding resolve update_owned
  update_live old cur =
      let labels_changed = not (cache.equal_labels cur.pod.labels old.pod.labels) in
      let ref_changed = not (cache.equal_refs cur.controller_ref old.controller_ref) in
      (if ref_changed then wake_one (resolve old.pod.namespace old.controller_ref) else [])
      ++ update_owned old cur cur.controller_ref (labels_changed || ref_changed)

  -- updatePod.
  unfoldable pub update_pod_event : Observed → Observed → List Effect
  unfolding delete_pod_event update_live
  update_pod_event old cur =
      if bytes_eq cur.resource_version old.resource_version
      then []
      else if is_terminating cur.pod
      then delete_pod_event cur
        ++ (if not (cache.equal_labels cur.pod.labels old.pod.labels)
            then delete_pod_event old
            else [])
      else update_live old cur

  abbrev pub wake_of_found : Option Observed → List Effect
  unfolding get_pod_node_sets is_pod_from_node_set
  wake_of_found none = []
  wake_of_found (some o) =
      wake_all (keep (λ s. is_pod_from_node_set s o.pod) (get_pod_node_sets o.pod))

  -- Generic, of a Pod.
  unfoldable pub generic_pod : Pod → List Effect
  unfolding get_pod_node_sets is_pod_from_node_set
  generic_pod p = wake_of_found (cache.get_pod p.namespace p.name)

  abbrev pub wake_owners : List Observed → List Effect
  unfolding resolve
  wake_owners [] = []
  wake_owners (o ∷ os) = wake_one (resolve o.pod.namespace o.controller_ref) ++ wake_owners os

  abbrev pub wake_owners_of : Option (List Observed) → List Effect
  unfolding resolve
  wake_owners_of none = []
  wake_owners_of (some os) = wake_owners os

  -- Update of the handler of Nodes; `equal_metadata` compares the annotations and the labels.
  unfoldable pub update_node : Node → Node → List Effect
  unfolding resolve
  update_node old new =
      if not (eqb_bool old.unschedulable new.unschedulable) || not (cache.equal_metadata old new)
      then wake_owners_of (cache.list_pods_on new.name)
      else []
