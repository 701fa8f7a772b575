-- ===== src/NodeSets/Condemn/Safety.antt =====
-- When processCondemned (internal/controller/nodeset/nodeset_sync.go) deletes a Pod.
use gce_hackathon.Prelude.{
  ◌≤◌, ◌≡◌, Bool, true, false, not, ◌∷◌, Bytes, codes, count, if◌then◌else◌, arith, Bool-cases, inl,
  inr,
}
use gce_hackathon.Objects.{Pod}
use gce_hackathon.Pods.{is_terminating}
use gce_hackathon.Api.{
  Result, ok, err, Request, get_pod, deletion_observed, push_duration, Trace, World, M, then_run,
  ◌>>=◌, return, try_run, fetch_pod,
}
use gce_hackathon.Api.Counts.{counted, AtMost, then-AtMost, return-AtMost, if-AtMost, more-AtMost}
use gce_hackathon.SlurmControl.{is_node_drained}
use gce_hackathon.SlurmControl.Requests.{is_node_drained-AtMost}
use gce_hackathon.NodeSets.Cordon.{about_pod}
use gce_hackathon.NodeSets.Cordon.Respect.{make_pod_cordon_and_drain-AtMost}
use gce_hackathon.NodeSets.Condemn.{
  unless_not_found, pod_key, thirty_seconds, delete_node_set_pod, condemn_draining, condemn_fresh,
  process_condemned, delete_pod_fn,
}

module _ (w : World) (print_object : Pod → Bytes) where
  condemn_draining-AtMost :
      (creations deletions : Bool) (p : Pod)
      → AtMost (counted creations deletions) 0 (condemn_draining w print_object p)
  unfolding condemn_draining
  condemn_draining-AtMost creations deletions p t =
      make_pod_cordon_and_drain-AtMost creations deletions w print_object p
        (about_pod (print_object p) (codes "was cordoned pending termination"))
        (deletion_observed (pod_key p) ∷ push_duration thirty_seconds ∷ t)

  delete_tolerated-AtMost :
      (creations deletions : Bool) (p : Pod)
      → AtMost
          (counted creations deletions)
          (if deletions then 1 else 0)
          (try_run (delete_node_set_pod w print_object p) >>= unless_not_found)
  unfolding delete_node_set_pod
  delete_tolerated-AtMost creations deletions p t = ground arith

  condemn_fresh-AtMost :
      (creations deletions : Bool) (p : Pod)
      → AtMost
          (counted creations deletions)
          (if deletions then 1 else 0)
          (condemn_fresh w print_object p)
  unfolding condemn_fresh
  condemn_fresh-AtMost creations deletions p =
      if-AtMost q (if deletions then 1 else 0) (is_terminating p) (return (tt {0})) _
        (more-AtMost q 0 (if deletions then 1 else 0) (return (tt {0})) (ground arith)
          (return-AtMost q (tt {0})))
        (then-AtMost q (if deletions then 1 else 0) (is_node_drained w p) after
          (is_node_drained-AtMost creations deletions w p)
          (λ drained.
            if-AtMost q (if deletions then 1 else 0) (not drained)
              (condemn_draining w print_object p) _
              (more-AtMost q 0 (if deletions then 1 else 0) (condemn_draining w print_object p)
                (ground arith) (condemn_draining-AtMost creations deletions p))
              (delete_tolerated-AtMost creations deletions p)))
    where
      q : Request → Bool
      q = counted creations deletions

      after : Bool → M (Unit {0})
      after drained =
          if not drained
          then condemn_draining w print_object p
          else (try_run (delete_node_set_pod w print_object p) >>= unless_not_found)

  process_condemned-AtMost :
      (creations deletions : Bool) (p : Pod)
      → AtMost
          (counted creations deletions)
          (if deletions then 1 else 0)
          (process_condemned w print_object p)
  unfolding process_condemned
  process_condemned-AtMost creations deletions p =
      then-AtMost (counted creations deletions) (if deletions then 1 else 0)
        (fetch_pod w p.namespace p.name) (condemn_fresh w print_object) (λ t. ground arith)
        (condemn_fresh-AtMost creations deletions)

  -- One call makes at most one request to delete a Pod, and none to create one.
  pub delete_pod_fn-AtMost :
      (creations deletions : Bool) (p : Pod)
      → AtMost
          (counted creations deletions)
          (if deletions then 1 else 0)
          (delete_pod_fn w print_object p)
  unfolding delete_pod_fn
  delete_pod_fn-AtMost creations deletions p t =
      ground (arith, process_condemned-AtMost creations deletions p t)

  waiting_fresh :
      (p : Pod) (r : Result Bool × Trace)
      → r.0 ≡ ok false
      → count
          (counted true true)
          (then_run
            (λ drained.
              if not drained
              then condemn_draining w print_object p
              else (try_run (delete_node_set_pod w print_object p) >>= unless_not_found))
            r).1
        ≤ count (counted true true) r.1
  waiting_fresh p (ok false, t) h = omega (arith, condemn_draining-AtMost true true p t)
  waiting_fresh p (ok true, t) h = cc
  waiting_fresh p (err e, t) h = cc

module _ (w : World) (print_object : Pod → Bytes) (p fresh : Pod) (t : Trace) where
  -- The Slurm node of a Pod that is not drained is left to drain: if the Pod can be read again and
  -- Slurm says that its node is not drained, processCondemned makes no request to delete a Pod, and
  -- none to create one.
  pub process_condemned-waits :
      w.read_pod t p.namespace p.name ≡ ok fresh
      → (is_node_drained w fresh (get_pod p.namespace p.name ∷ t)).0 ≡ ok false
      → count (counted true true) (process_condemned w print_object p t).1
        ≤ count (counted true true) t
  unfolding process_condemned condemn_fresh
  process_condemned-waits read waiting = elim (Bool-cases (is_terminating fresh)) [
    | inl terminating ↦ rw (read, terminating) (omega arith)
    | inr running ↦
        rw (read, running)
          (omega (
            arith,
            waiting_fresh w print_object fresh
                (is_node_drained w fresh (get_pod p.namespace p.name ∷ t)) waiting,
            is_node_drained-AtMost true true w fresh (get_pod p.namespace p.name ∷ t),
          ))
  ]
