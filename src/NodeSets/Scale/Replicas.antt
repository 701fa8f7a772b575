-- ===== src/NodeSets/Scale/Replicas.antt =====
-- What syncNodeSetPods (internal/controller/nodeset/nodeset_sync.go) does to the number of Pods of a
-- NodeSet that is not of the mode DaemonSet.
use gce_hackathon.Prelude.{
  ℕ, suc, ◌+◌, ◌≤◌, min, ℤ, pos, negsuc, ◌-ℤ◌, ◌≡◌, Bool, true, false, Option, List, [], Bytes,
  count, length, arith,
}
use gce_hackathon.Objects.{Pod, NodeSet, IntOrString, default_replicas}
use gce_hackathon.Pods.{PodUtil}
use gce_hackathon.Pods.Split.{Sorter, split_active_pods}
use gce_hackathon.Pods.Split.Parts.{split_active_pods_lem}
use gce_hackathon.Api.{Error, Trace, World, M}
use gce_hackathon.Api.Counts.{counted, AtMost, then-AtMost}
use gce_hackathon.Batch.Runs.{IsOrder}
use gce_hackathon.NodeSets.Rolling.{deref}
use gce_hackathon.NodeSets.Ordinals.{ordinals_to_create}
use gce_hackathon.NodeSets.Scale.{split_by_mode, do_pod_scale, sync_ordinal_pods}
use gce_hackathon.NodeSets.Scale.Burst.{do_pod_scale-burst}

module _ (w : World) (print_object : Pod → Bytes) (order : ℕ → ℕ → List ℕ)
    (new_aggregate : Error → List Error → Error) (u : PodUtil) (parse_time : Bytes → Option ℕ)
    (sorter : Sorter) (scaled_value : Option IntOrString → ℤ → Bool → Option ℤ)
    (new_pods : List ℕ → M (List Pod)) (s : NodeSet) (now : ℕ) (pods : List Pod)
    (hash : Bytes) where
  -- The Pods of the NodeSet's mode less the replicas wanted.
  abbrev pub surplus : ℤ
  surplus = pos (length (split_by_mode s.scaling_mode pods).1) -ℤ deref default_replicas s.replicas

  -- Where there are n more Pods of the NodeSet's mode than replicas are wanted, and n is positive,
  -- the sync makes no request to create a Pod and at most n, and at most 250, to delete one.
  pub sync_ordinal_pods-surplus :
      IsOrder order
      → {n : ℕ} → surplus ≡ pos (suc n)
      → (t : Trace)
      → let t1 =
          (sync_ordinal_pods w print_object order new_aggregate u parse_time sorter scaled_value
            new_pods s now pods hash t).1 in
        (count (counted true false) t1 ≤ count (counted true false) t)
        × (count (counted false true) t1 ≤ min (suc n) 250 + count (counted false true) t)
  unfolding sync_ordinal_pods
  sync_ordinal_pods-surplus any_order {n} h t =
      let split =
        split_active_pods u parse_time sorter (split_by_mode s.scaling_mode pods).1 (pos (suc n)) in
      let parts =
        split_active_pods_lem u parse_time sorter (split_by_mode s.scaling_mode pods).1
          (pos (suc n)) in
      let scaled =
        do_pod_scale-burst w print_object order new_aggregate any_order split.1 split.0 [] t in
      rw h (omega (arith, scaled.0), omega (arith, scaled.1, parts.1))

  -- Where there are fewer Pods of the NodeSet's mode than replicas are wanted, and building new Pods
  -- deletes none, the sync makes no request to delete a Pod.
  pub sync_ordinal_pods-missing :
      IsOrder order
      → ((ordinals : List ℕ) → AtMost (counted false true) 0 (new_pods ordinals))
      → {n : ℕ} → surplus ≡ negsuc n
      → (t : Trace)
      → let t1 =
          (sync_ordinal_pods w print_object order new_aggregate u parse_time sorter scaled_value
            new_pods s now pods hash t).1 in
        count (counted false true) t1 ≤ count (counted false true) t
  unfolding sync_ordinal_pods
  sync_ordinal_pods-missing any_order quiet {n} h t =
      let created = (split_by_mode s.scaling_mode pods).1 in
      rw h (
        omega (
          arith,
          then-AtMost (counted false true) 0 (new_pods (ordinals_to_create (suc n) pods))
              (do_pod_scale w print_object order new_aggregate created [])
              (quiet (ordinals_to_create (suc n) pods))
              (λ fresh t2. omega (
                arith,
                (do_pod_scale-burst w print_object order new_aggregate any_order created [] fresh
                    t2).1,
              ))
              t,
        ))
