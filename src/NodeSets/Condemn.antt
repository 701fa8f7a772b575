-- ===== src/NodeSets/Condemn.antt =====
-- internal/controller/nodeset/nodeset_sync.go: giving up single Pods.
pub mod Safety
use gce_hackathon.Prelude.{
  ℤ, pos, Bool, true, false, not, ◌||◌, Option, none, some, List, [], ◌∷◌, ◌++◌, Bytes, codes,
  if◌then◌else◌,
}
use gce_hackathon.Objects.{Pod}
use gce_hackathon.Pods.{is_terminating, is_failed, is_succeeded}
use gce_hackathon.Api.{
  Error, Result, ok, err, delete_pod, update_pod, deletion_observed, push_duration, Trace, World, M,
  ◌>>=◌, ◌>>◌, return, throw, try_run, send, fetch_pod,
}
use gce_hackathon.SlurmControl.{is_node_drained}
use gce_hackathon.NodeSets.Cordon.{about_pod, make_pod_cordon_and_drain}

-- kubecontroller.PodKey: namespace and name.
abbrev pub pod_key : Pod → Bytes
pod_key p = p.namespace ++ (codes "/" ++ p.name)

-- 30 seconds, in nanoseconds.
abbrev pub thirty_seconds : ℤ
thirty_seconds = pos 30000000000

abbrev pub unless_not_found : Result (Unit {0}) → M (Unit {0})
unless_not_found (ok _) = return tt
unless_not_found (err e) = if e.not_found then return tt else throw e

-- Requests to the expectations and to the store of delays are not answered with errors.
abbrev pub tell : World → (Trace → Trace) → M (Unit {0})
tell w f t = (ok tt, f t)

module _ (w : World) (print_object : Pod → Bytes) where
  -- DeleteNodeSetPod (podcontrol).
  unfoldable pub delete_node_set_pod : Pod → M (Unit {0})
  delete_node_set_pod p = send w (delete_pod p.namespace p.name)

  unfoldable pub condemn_draining : Pod → M (Unit {0})
  condemn_draining p =
      tell w (λ t. deletion_observed (pod_key p) ∷ push_duration thirty_seconds ∷ t)
      >> make_pod_cordon_and_drain w print_object p
          (about_pod (print_object p) (codes "was cordoned pending termination"))

  -- What becomes of a Pod that was read again.
  unfoldable pub condemn_fresh : Pod → M (Unit {0})
  unfolding condemn_draining delete_node_set_pod
  condemn_fresh p =
      if is_terminating p
      then return tt
      else (is_node_drained w p >>= λ drained.
          if not drained
          then condemn_draining p
          else (try_run (delete_node_set_pod p) >>= unless_not_found))

  -- processCondemned.
  unfoldable pub process_condemned : Pod → M (Unit {0})
  unfolding condemn_fresh
  process_condemned p = do p1 ← fetch_pod w p.namespace p.name; condemn_fresh p1

  abbrev forget_deletion : Pod → Result (Unit {0}) → M (Unit {0})
  forget_deletion p (ok _) = return tt
  forget_deletion p (err e) =
      tell w (λ t. deletion_observed (pod_key p) ∷ t)
      >> (if e.not_found then return tt else throw e)

  -- deletePodFn of doPodScale and doPodProcessing.
  unfoldable pub delete_pod_fn : Pod → M (Unit {0})
  unfolding process_condemned
  delete_pod_fn p = try_run (process_condemned p) >>= forget_deletion p

  -- processNodeSetPod. What UpdateNodeSetPod does to a Pod is one request here.
  unfoldable pub process_node_set_pod : Pod → M (Unit {0})
  unfolding delete_node_set_pod
  process_node_set_pod p =
      if is_failed p || is_succeeded p
      then (if not (is_terminating p) then delete_node_set_pod p else return tt)
      else send w (update_pod p)
