-- ===== src/NodeSets/Daemon/Single.antt =====
-- What podsShouldBeOnNode (internal/controller/nodeset/nodeset_sync.go) leaves on a node that goes
-- on to run Pods of the NodeSet.
use mathlib.Core.List.Perm
use mathlib.Core.List.{perm_middle, append_assoc}
use gce_hackathon.Prelude.{
  ℕ, zero, suc, ◌≤◌, min, ℤ, pos, ◌≡◌, refl, sym, subst, Bool, true, false, not, Option, some, List,
  [], ◌∷◌, ◌++◌, map, keep, length, take, drop, Perm, Bytes, length-perm, length-take,
  take-append-drop, if◌then◌else◌, arith,
}
use gce_hackathon.Objects.{Pod, Node}
use gce_hackathon.Mathutils.{pos_part-clamp}
use gce_hackathon.Pods.{PodUtil, is_terminating, is_failed, is_succeeded}
use gce_hackathon.Pods.Order.{active_less}
use gce_hackathon.Pods.Split.{Sorter, split_active_pods}
use gce_hackathon.NodeSets.Rolling.Budget.{move_front}
use gce_hackathon.NodeSets.Daemon.{
  Backoff, Sifted, has_hostname, after_failure, place, sift, all_but_first, pods_should_be_on_node,
}

abbrev late_pods : {backoff : Backoff} → Sifted backoff → List Pod
late_pods r = map (λ e. e.0) r.postponed

-- Of the Pods that are not terminating, at most one is kept, and the rest are those to delete and
-- those whose deletion is postponed.
pub record KeepsOne {backoff : Backoff} (pods : List Pod) (r : Sifted backoff) : Type 0 where
  pub kept : List Pod
  pub at_most_one : length kept ≤ 1
  pub parts : Perm (r.to_delete ++ (kept ++ late_pods r)) (keep (λ p. not (is_terminating p)) pods)

-- An element of the middle or of the last of three lists comes to the front.
middle_front :
    (p : Pod) (xs ys zs : List Pod) → Perm (xs ++ ((p ∷ ys) ++ zs)) (p ∷ (xs ++ (ys ++ zs)))
middle_front p xs ys zs = perm_middle {a = p} xs (ys ++ zs)

last_front :
    (p : Pod) (xs ys zs : List Pod) → Perm (xs ++ (ys ++ (p ∷ zs))) (p ∷ (xs ++ (ys ++ zs)))
last_front p xs ys zs =
    Perm.trans (Perm.append_left xs (perm_middle {a = p} ys zs)) (perm_middle {a = p} xs (ys ++ zs))

regroup :
    (ds ks es ls : List Pod) {rs : List Pod}
    → Perm (ks ++ es) rs
    → Perm ((ds ++ es) ++ (ks ++ ls)) (ds ++ (rs ++ ls))
regroup ds ks es ls {rs} h =
    subst (λ xs. Perm xs (ds ++ (rs ++ ls))) (sym (append_assoc ds es (ks ++ ls)))
      (Perm.append_left ds (
        Perm.trans (move_front es ks ls) (
          subst (λ xs. Perm xs (rs ++ ls)) (append_assoc ks es ls) (Perm.append h (Perm.refl ls)))))

drop_one : (m : ℕ) (xs : List Pod) → m ≡ min 1 (length xs) → drop 1 xs ≡ drop m xs
drop_one zero [] h = refl
drop_one (suc m) [] h = refl
drop_one zero (x ∷ xs) h = absurd (omega arith)
drop_one (suc zero) (x ∷ xs) h = refl
drop_one (suc (suc m)) (x ∷ xs) h = absurd (omega arith)

module _ (backoff : Backoff) (key : Bytes) where
  place-perm :
      (terminating failed waits succeeded fits : Bool) (p : Pod) (delay : ℤ) (rest : Sifted backoff)
      (pods : List Pod)
      → Perm (rest.to_delete ++ (rest.running ++ late_pods rest)) pods
      → let r = place backoff key terminating failed waits succeeded fits p delay rest in
        Perm
          (r.to_delete ++ (r.running ++ late_pods r))
          (if not terminating then p ∷ pods else pods)
  place-perm true failed waits succeeded fits p delay rest pods h = h
  place-perm false true true succeeded fits p delay rest pods h =
      Perm.trans (last_front p rest.to_delete rest.running (late_pods rest)) (Perm.cons p h)
  place-perm false true false succeeded fits p delay rest pods h = Perm.cons p h
  place-perm false false waits true fits p delay rest pods h = Perm.cons p h
  place-perm false false waits false false p delay rest pods h = Perm.cons p h
  place-perm false false waits false true p delay rest pods h =
      Perm.trans (middle_front p rest.to_delete rest.running (late_pods rest)) (Perm.cons p h)

  sift-perm :
      (node : Node) (pods : List Pod) (b : backoff.State)
      → let r = sift backoff key node pods b in
        Perm (r.to_delete ++ (r.running ++ late_pods r)) (keep (λ p. not (is_terminating p)) pods)
  unfolding sift
  sift-perm node [] b = Perm.nil
  sift-perm node (p ∷ ps) b =
      place-perm (is_terminating p) (is_failed p) (backoff.is_in_backoff b key) (is_succeeded p)
        (has_hostname node p) p (backoff.get b key)
        (sift backoff key node ps (after_failure backoff key p b)) _
        (sift-perm node ps (after_failure backoff key p b))

  module _ (u : PodUtil) (parse_time : Bytes → Option ℕ) (sorter : Sorter) where
    -- The Pods that are deleted because another one runs are those that a scale-in by one Pod would
    -- keep; the Pod that is kept is the one that it would delete.
    pub all_but_first-scale_in :
        (running : List Pod)
        → all_but_first backoff key u parse_time sorter running
          ≡ (split_active_pods u parse_time sorter running (pos 1)).1
    unfolding all_but_first split_active_pods
    all_but_first-scale_in running = rw (pos_part-clamp (pos 1) (length running)) (
        drop_one (min 1 (length running)) (sorter.sort (active_less u parse_time) running)
          (omega (arith, length-perm (sorter.sort_perm (active_less u parse_time) running))))

    sifted-KeepsOne :
        (node : Node) (pods : List Pod) (b : backoff.State)
        → let sifted = sift backoff key node pods b in
          KeepsOne pods (record sifted {
            to_delete =
                sifted.to_delete ++ all_but_first backoff key u parse_time sorter sifted.running;
          })
    unfolding all_but_first
    sifted-KeepsOne node pods b =
        let sifted = sift backoff key node pods b in
        let sorted = sorter.sort (active_less u parse_time) sifted.running in
        record {
          kept = take 1 sorted;
          at_most_one = omega (arith, length-take 1 sorted);
          parts =
              Perm.trans
                (regroup sifted.to_delete (take 1 sorted) (drop 1 sorted) (late_pods sifted) (
                  Perm.trans
                    (subst (λ xs. Perm xs sorted) (sym (take-append-drop 1 sorted))
                      (Perm.refl sorted))
                    (sorter.sort_perm (active_less u parse_time) sifted.running)))
                (sift-perm node pods b);
        }

    -- On a node that has Pods of the NodeSet and is to go on running them, at most one Pod is kept:
    -- each Pod that is not terminating is kept, or deleted, or its deletion is postponed.
    pub pods_should_be_on_node-KeepsOne :
        (should_run : Bool) (node : Node) (pods : List Pod) (b : backoff.State)
        → KeepsOne pods
            (pods_should_be_on_node backoff key u parse_time sorter should_run true node
              (some pods)
              b).1
    unfolding pods_should_be_on_node
    pods_should_be_on_node-KeepsOne true node pods b = sifted-KeepsOne node pods b
    pods_should_be_on_node-KeepsOne false node pods b = sifted-KeepsOne node pods b
