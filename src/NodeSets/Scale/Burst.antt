-- ===== src/NodeSets/Scale/Burst.antt =====
-- How many Pods one doPodScale (internal/controller/nodeset/nodeset_sync.go) creates and deletes.
use gce_hackathon.Prelude.{
  ℕ, zero, suc, ◌+◌, ◌-◌, ◌≤◌, min, pos, ◌≡◌, Bool, true, false, Option, List, [], ◌∷◌, ◌++◌, Bytes,
  count, length, map, take, arith,
}
use gce_hackathon.Objects.{Pod}
use gce_hackathon.Mathutils.{pos_part-clamp}
use gce_hackathon.Pods.Split.{exclude_pods}
use gce_hackathon.Api.{
  Error, Result, Request, expect_deletions, raise_expectations, creation_observed, Trace, World, M,
  ◌>>=◌, ◌>>◌, try_run, send,
}
use gce_hackathon.Api.Counts.{counted, AtMost, bind-AtMost, then-AtMost}
use gce_hackathon.Batch.Runs.{IsOrder}
use gce_hackathon.NodeSets.Batches.{batch, for_each}
use gce_hackathon.NodeSets.Batches.Counts.{one_if, batch-AtMost, for_each-AtMost}
use gce_hackathon.NodeSets.Cordon.{sync_pod_uncordon}
use gce_hackathon.NodeSets.Cordon.Respect.{sync_pod_uncordon-AtMost}
use gce_hackathon.NodeSets.Condemn.{pod_key, tell, delete_pod_fn}
use gce_hackathon.NodeSets.Condemn.Safety.{delete_pod_fn-AtMost}
use gce_hackathon.NodeSets.Scale.{
  burst, repeat, errors_of, failure_of, aggregate, create_pod_fn, fix_pod_pvcs_fn, scale_batches,
  do_pod_scale,
}

-- One scaling takes the Pods of a list, up to 250.
pub burst_lem : (pods : List Pod) → burst pods ≡ min (length pods) 250
unfolding burst
burst_lem pods = omega (arith, pos_part-clamp (pos (length pods)) 250)

module _ (w : World) (print_object : Pod → Bytes) (order : ℕ → ℕ → List ℕ)
    (new_aggregate : Error → List Error → Error) where
  create_pod_fn-AtMost :
      (creations deletions : Bool) (p : Pod)
      → AtMost
          (counted creations deletions)
          (one_if creations 1)
          (create_pod_fn w print_object order new_aggregate p)
  unfolding create_pod_fn
  create_pod_fn-AtMost creations deletions p t = ground arith

  fix_pod_pvcs_fn-AtMost :
      (creations deletions : Bool) (p : Pod)
      → AtMost
          (counted creations deletions)
          (one_if false 1)
          (fix_pod_pvcs_fn w print_object order new_aggregate p)
  unfolding fix_pod_pvcs_fn
  fix_pod_pvcs_fn-AtMost creations deletions p t = omega arith

  repeat-AtMost :
      (creations deletions : Bool) (n : ℕ) (t : Trace)
      → count (counted creations deletions) (repeat n (◌∷◌ creation_observed) t)
        ≤ count (counted creations deletions) t
  repeat-AtMost creations deletions zero t = omega arith
  repeat-AtMost creations deletions (suc n) t = repeat-AtMost creations deletions n t

  aggregate-AtMost :
      (q : Request → Bool) (es : List Error)
      → AtMost q 0 (aggregate w print_object order new_aggregate es)
  aggregate-AtMost q [] t = omega arith
  aggregate-AtMost q (e ∷ es) t = omega arith

  module _ (any_order : IsOrder order) (creations deletions : Bool) where
    deleted-AtMost :
        (pods : List Pod) (n : ℕ) (f : ℕ × Option Error → List Error)
        → AtMost (counted creations deletions) (one_if deletions n + 0) (
            batch order (delete_pod_fn w print_object) n pods >>= λ deleted.
            aggregate w print_object order new_aggregate (f deleted))
    deleted-AtMost pods n f =
        bind-AtMost (counted creations deletions) (one_if deletions n) 0
          (batch order (delete_pod_fn w print_object) n pods)
          (λ deleted. aggregate w print_object order new_aggregate (f deleted))
          (batch-AtMost (counted creations deletions) deletions (delete_pod_fn w print_object)
            (delete_pod_fn-AtMost w print_object creations deletions) order any_order pods n)
          (λ deleted. aggregate-AtMost (counted creations deletions) (f deleted))

    fixed-AtMost :
        (pods : List Pod)
        → AtMost
            (counted creations deletions)
            0
            (try_run (for_each order (fix_pod_pvcs_fn w print_object order new_aggregate) pods))
    fixed-AtMost pods =
        for_each-AtMost (counted creations deletions) false
          (fix_pod_pvcs_fn w print_object order new_aggregate)
          (fix_pod_pvcs_fn-AtMost creations deletions) order any_order pods

    scale_batches-AtMost :
        (pods_to_delete pods_to_create : List Pod)
        → AtMost
            (counted creations deletions)
            (one_if creations (burst pods_to_create)
              + (one_if deletions (burst pods_to_delete) + 0))
            (scale_batches w print_object order new_aggregate pods_to_delete pods_to_create)
    unfolding scale_batches
    scale_batches-AtMost pods_to_delete pods_to_create =
        bind-AtMost q (one_if creations (burst pods_to_create))
          (one_if deletions (burst pods_to_delete) + 0)
          (batch order (create_pod_fn w print_object order new_aggregate) (burst pods_to_create)
            pods_to_create)
          after_creation
          (batch-AtMost q creations (create_pod_fn w print_object order new_aggregate)
            (create_pod_fn-AtMost creations deletions) order any_order pods_to_create
            (burst pods_to_create))
          (λ created.
            then-AtMost q (one_if deletions (burst pods_to_delete) + 0)
              (tell w (repeat (burst pods_to_create - created.0) (◌∷◌ creation_observed)))
              (λ _. after_repeat created)
              (λ t.
                omega
                  (arith, repeat-AtMost creations deletions (burst pods_to_create - created.0) t))
              (λ _.
                then-AtMost q (one_if deletions (burst pods_to_delete) + 0)
                  (try_run (
                    for_each order (fix_pod_pvcs_fn w print_object order new_aggregate)
                      pods_to_delete))
                  (after_fixes created) (fixed-AtMost pods_to_delete)
                  (λ fixed.
                    deleted-AtMost pods_to_delete (burst pods_to_delete) (λ deleted.
                      errors_of created.1 ++ (failure_of fixed ++ errors_of deleted.1)))))
      where
        q : Request → Bool
        q = counted creations deletions

        after_fixes : ℕ × Option Error → Result (Unit {0}) → M (Unit {0})
        after_fixes created fixed =
            batch order (delete_pod_fn w print_object) (burst pods_to_delete) pods_to_delete
            >>= λ deleted.
                aggregate w print_object order new_aggregate
                  (errors_of created.1 ++ (failure_of fixed ++ errors_of deleted.1))

        after_repeat : ℕ × Option Error → M (Unit {0})
        after_repeat created =
            try_run
              (for_each order (fix_pod_pvcs_fn w print_object order new_aggregate) pods_to_delete)
            >>= after_fixes created

        after_creation : ℕ × Option Error → M (Unit {0})
        after_creation created =
            tell w (repeat (burst pods_to_create - created.0) (◌∷◌ creation_observed)) >>= λ _.
            after_repeat created

    uncordoned-AtMost :
        (pods : List Pod)
        → AtMost
            (counted creations deletions)
            0
            (for_each order (sync_pod_uncordon w print_object) pods)
    uncordoned-AtMost pods =
        for_each-AtMost (counted creations deletions) false (sync_pod_uncordon w print_object)
          (sync_pod_uncordon-AtMost creations deletions w print_object) order any_order pods

    do_pod_scale-AtMost :
        (pods_to_keep pods_to_delete pods_to_create : List Pod)
        → AtMost
            (counted creations deletions)
            (one_if creations (burst pods_to_create)
              + (one_if deletions (burst pods_to_delete) + 0))
            (do_pod_scale w print_object order new_aggregate pods_to_keep pods_to_delete
              pods_to_create)
    unfolding do_pod_scale
    do_pod_scale-AtMost pods_to_keep pods_to_delete pods_to_create =
        then-AtMost (counted creations deletions) k
          (send w (expect_deletions (map pod_key (take (burst pods_to_delete) pods_to_delete))))
          (λ _. after_expecting) (λ t. omega arith)
          (λ _.
            then-AtMost (counted creations deletions) k
              (tell w (◌∷◌ (raise_expectations (burst pods_to_create)))) (λ _. after_raising)
              (λ t. omega arith)
              (λ _.
                then-AtMost (counted creations deletions) k
                  (for_each order (sync_pod_uncordon w print_object)
                    (exclude_pods pods_to_keep pods_to_delete))
                  (λ _.
                    scale_batches w print_object order new_aggregate pods_to_delete pods_to_create)
                  (uncordoned-AtMost (exclude_pods pods_to_keep pods_to_delete))
                  (λ _. scale_batches-AtMost pods_to_delete pods_to_create)))
      where
        k : ℕ
        k = one_if creations (burst pods_to_create) + (one_if deletions (burst pods_to_delete) + 0)

        after_raising : M (Unit {0})
        after_raising =
            for_each order (sync_pod_uncordon w print_object)
              (exclude_pods pods_to_keep pods_to_delete)
            >> scale_batches w print_object order new_aggregate pods_to_delete pods_to_create

        after_expecting : M (Unit {0})
        after_expecting = tell w (◌∷◌ (raise_expectations (burst pods_to_create))) >> after_raising

  -- In any order of the calls of its batches and whatever is answered, one doPodScale makes at most
  -- 250 requests to create Pods and at most 250 to delete Pods, and no more of each than there are
  -- Pods to create, and to delete.
  pub do_pod_scale-burst :
      IsOrder order
      → (pods_to_keep pods_to_delete pods_to_create : List Pod) (t : Trace)
      → let t1 =
          (do_pod_scale w print_object order new_aggregate pods_to_keep pods_to_delete
            pods_to_create t).1 in
        (count (counted true false) t1
          ≤ min (length pods_to_create) 250 + count (counted true false) t)
        × (count (counted false true) t1
            ≤ min (length pods_to_delete) 250 + count (counted false true) t)
  do_pod_scale-burst any_order pods_to_keep pods_to_delete pods_to_create t = (
    omega (
      arith,
      burst_lem pods_to_create,
      do_pod_scale-AtMost any_order true false pods_to_keep pods_to_delete pods_to_create t,
    ),
    omega (
      arith,
      burst_lem pods_to_delete,
      do_pod_scale-AtMost any_order false true pods_to_keep pods_to_delete pods_to_create t,
    ),
  )
