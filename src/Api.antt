-- ===== src/Api.antt =====
-- What the controller is connected to: the Kubernetes API, the Slurm client, the expectations of
-- the controller and the store of its requeue delays. A run of the code is the list of the
-- requests that it makes; what answers them may depend on all requests made before.
pub mod Counts
use gce_hackathon.Prelude.{ℕ, ℤ, Bool, true, false, Option, none, some, List, [], ◌∷◌, Bytes}
use gce_hackathon.Objects.{Pod, Node, NodeSet, Claim, Revision, NodeSetStatus}
use gce_hackathon.Slurm.{SlurmNode, UpdateNodeMsg, Job}

-- A Go error: its text, and what `apierrors.IsNotFound`, `IsAlreadyExists`, `IsConflict` and
-- `HasStatusCause(err, NamespaceTerminatingCause)` say of it.
pub record Error : Type 0 where
  pub text : Bytes
  pub not_found : Bool
  pub already_exists : Bool
  pub conflict : Bool
  pub namespace_terminating : Bool

pub data Result {ℓ} (A : Type ℓ) : Type ℓ where
  ok : A → Result A
  err : Error → Result A

pub data Request : Type 0 where
  get_pod : Bytes → Bytes → Request
  get_node : Bytes → Request
  -- A patch, from the second state of the Pod to the first.
  patch_pod : Pod → Pod → Request
  -- A patch of the status.
  patch_pod_status : Pod → Pod → Request
  update_node_set_status : NodeSetStatus → Request
  delete_pod : Bytes → Bytes → Request
  create_pod : Pod → Request
  fix_claims : Pod → Request
  update_pod : Pod → Request
  get_node_set : Bytes → Bytes → Request
  list_nodes : Request
  list_node_sets : Request
  list_pods : Request
  -- A patch, from the second state of the Node to the first.
  patch_node : Node → Node → Request
  create_revision : Revision → Request
  get_stored : Bytes → Request
  update_revision : Revision → Request
  get_claim : Bytes → Bytes → Request
  create_claim : Claim → Request
  update_claim : Claim → Request
  slurm_get : Bytes → Request
  slurm_list_nodes : Request
  slurm_refresh_nodes : Request
  slurm_list_jobs : Request
  slurm_update : SlurmNode → UpdateNodeMsg → Request
  slurm_delete : Bytes → Request
  expect_deletions : List Bytes → Request
  raise_expectations : ℕ → Request
  set_expectations : Request
  delete_expectations : Request
  creation_observed : Request
  deletion_observed : Bytes → Request
  push_duration : ℤ → Request

-- The requests made so far, the latest first.
abbrev pub Trace : Type 0
Trace = List Request

-- The other side. A write answers with an error or with none. `has_client` says whether there is a
-- Slurm client for the NodeSet's controller.
pub record World : Type 0 where
  pub read_pod : Trace → Bytes → Bytes → Result Pod
  pub read_node : Trace → Bytes → Result Node
  pub read_node_set : Trace → Bytes → Bytes → Result NodeSet
  pub read_nodes : Trace → Result (List Node)
  pub read_node_sets : Trace → Result (List NodeSet)
  pub read_pods : Trace → Result (List Pod)
  pub read_revision : Trace → Bytes → Result Revision
  pub read_claim : Trace → Bytes → Bytes → Result Claim
  pub write : Trace → Request → Option Error
  pub has_client : Trace → Bool
  pub read_slurm_node : Trace → Bytes → Result SlurmNode
  pub read_slurm_nodes : Trace → Result (List SlurmNode)
  pub read_slurm_jobs : Trace → Result (List Job)

abbrev pub M : Type 0 → Type 0
M A = Trace → Result A × Trace

abbrev pub then_run : {A B : Type 0} → (A → M B) → Result A × Trace → Result B × Trace
then_run f (ok a, t) = f a t
then_run f (err e, t) = (err e, t)

infixl 5 ◌>>=◌ ◌>>◌
abbrev pub ◌>>=◌ : {A B : Type 0} → M A → (A → M B) → M B
◌>>=◌ m f t = then_run f (m t)

abbrev pub ◌>>◌ : {A B : Type 0} → M A → M B → M B
m >> k = m >>= λ _. k

abbrev pub return : {A : Type 0} → A → M A
return a t = (ok a, t)

abbrev pub throw : {A : Type 0} → Error → M A
throw e t = (err e, t)

-- The error of a run is looked at, and the run goes on.
abbrev pub try_run : {A : Type 0} → M A → M (Result A)
try_run m t = let (r, t1) = m t in (ok r, t1)

abbrev pub no_error : Option Error → Result (Unit {0})
no_error none = ok tt
no_error (some e) = err e

module _ (w : World) where
  abbrev pub send : Request → M (Unit {0})
  send q t = (no_error (w.write t q), q ∷ t)

  abbrev pub fetch_pod : Bytes → Bytes → M Pod
  fetch_pod namespace name t = (w.read_pod t namespace name, get_pod namespace name ∷ t)

  abbrev pub fetch_node : Bytes → M Node
  fetch_node name t = (w.read_node t name, get_node name ∷ t)

  abbrev pub fetch_node_set : Bytes → Bytes → M NodeSet
  fetch_node_set namespace name t =
      (w.read_node_set t namespace name, get_node_set namespace name ∷ t)

  abbrev pub fetch_nodes : M (List Node)
  fetch_nodes t = (w.read_nodes t, list_nodes ∷ t)

  abbrev pub fetch_node_sets : M (List NodeSet)
  fetch_node_sets t = (w.read_node_sets t, list_node_sets ∷ t)

  abbrev pub fetch_pods : M (List Pod)
  fetch_pods t = (w.read_pods t, list_pods ∷ t)

  abbrev pub fetch_revision : Bytes → M Revision
  fetch_revision name t = (w.read_revision t name, get_stored name ∷ t)

  abbrev pub fetch_claim : Bytes → Bytes → M Claim
  fetch_claim namespace name t = (w.read_claim t namespace name, get_claim namespace name ∷ t)

  abbrev pub fetch_slurm_node : Bytes → M SlurmNode
  fetch_slurm_node name t = (w.read_slurm_node t name, slurm_get name ∷ t)

  abbrev pub fetch_slurm_nodes : M (List SlurmNode)
  fetch_slurm_nodes t = (w.read_slurm_nodes t, slurm_list_nodes ∷ t)

  abbrev pub fetch_slurm_jobs : M (List Job)
  fetch_slurm_jobs t = (w.read_slurm_jobs t, slurm_list_jobs ∷ t)

  abbrev pub client_known : M Bool
  client_known t = (ok (w.has_client t), t)
