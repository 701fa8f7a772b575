-- ===== src/Events/Told.antt =====
-- What the events of Pods tell the expectations of NodeSets
-- (internal/controller/nodeset/eventhandler/eventhandler_pod.go).
use gce_hackathon.Prelude.{
  ℤ, ◌≡◌, refl, ◌⊎◌, inl, inr, Bool, true, false, not, ◌||◌, Option, none, some, List, [], ◌∷◌,
  ◌++◌, Bytes, bytes_eq, bytes_eq_sound, if◌then◌else◌, arith, Bool-cases,
}
use gce_hackathon.Objects.{NodeSet, OwnerRef}
use gce_hackathon.Pods.{PodUtil, is_terminating}
use gce_hackathon.Events.{
  Observed, Effect, enqueue, enqueue_after, creation_observed, deletion_observed, Cache, with_uid,
  resolve_controller_ref, resolve, get_pod_node_sets, wake_all, tell_deletion, delete_pod_event,
  wake_owner, wake_one, update_owned, update_live, update_pod_event,
}

-- The NodeSet has the UID of the reference of the Pod to its controller.
abbrev pub Owns : NodeSet → Option OwnerRef → Type 0
Owns s none = ⊥
Owns s (some ref) = s.uid ≡ ref.uid

-- The next effect puts the NodeSet into the queue.
abbrev pub WokenNext : NodeSet → List Effect → Type 0
WokenNext s (enqueue s' ∷ es) = s ≡ s'
WokenNext s _ = ⊥

-- Each observation is the deletion of one of the two Pods, while the second is being deleted, is told
-- to a NodeSet that owns that Pod, and wakes this NodeSet next.
abbrev pub Tells : Observed → Observed → List Effect → Type 0
Tells old cur [] = Unit
Tells old cur (enqueue s ∷ es) = Tells old cur es
Tells old cur (enqueue_after s d ∷ es) = Tells old cur es
Tells old cur (creation_observed s ∷ es) = ⊥
Tells old cur (deletion_observed s p ∷ es) =
    (is_terminating cur.pod ≡ true)
    × (((p ≡ cur.pod) × Owns s cur.controller_ref) ⊎ ((p ≡ old.pod) × Owns s old.controller_ref))
    × WokenNext s es
    × Tells old cur es

WokenNext-append : (s : NodeSet) (xs ys : List Effect) → WokenNext s xs → WokenNext s (xs ++ ys)
WokenNext-append s [] ys h = absurd h
WokenNext-append s (enqueue s' ∷ xs) ys h = h
WokenNext-append s (enqueue_after s' d ∷ xs) ys h = absurd h
WokenNext-append s (creation_observed s' ∷ xs) ys h = absurd h
WokenNext-append s (deletion_observed s' p ∷ xs) ys h = absurd h

with_uid-uid :
    (uid : Bytes) (found : Option NodeSet) (s : NodeSet) → with_uid uid found ≡ some s → s.uid ≡ uid
with_uid-uid uid none s h = grind (arith, h)
with_uid-uid uid (some s') s h = grind (arith, h, bytes_eq_sound s'.uid uid)

module _ (u : PodUtil) (cache : Cache) where
  resolve_controller_ref-uid :
      (namespace : Bytes) (ref : OwnerRef) (s : NodeSet)
      → resolve_controller_ref u cache namespace ref ≡ some s
      → s.uid ≡ ref.uid
  unfolding resolve_controller_ref
  resolve_controller_ref-uid namespace ref s h =
      grind (arith, h, with_uid-uid ref.uid (cache.get_node_set namespace ref.name) s)

  resolve-Owns :
      (namespace : Bytes) (ref : Option OwnerRef) (s : NodeSet)
      → resolve u cache namespace ref ≡ some s
      → Owns s ref
  unfolding resolve
  resolve-Owns namespace none s h = grind (arith, h)
  resolve-Owns namespace (some ref) s h = resolve_controller_ref-uid namespace ref s h

  module _ (old cur : Observed) where
    Tells-append :
        (xs ys : List Effect) → Tells old cur xs → Tells old cur ys → Tells old cur (xs ++ ys)
    Tells-append [] ys h k = k
    Tells-append (enqueue s ∷ xs) ys h k = Tells-append xs ys h k
    Tells-append (enqueue_after s d ∷ xs) ys h k = Tells-append xs ys h k
    Tells-append (creation_observed s ∷ xs) ys h k = absurd h
    Tells-append (deletion_observed s p ∷ xs) ys h k =
        (h.0, h.1, WokenNext-append s xs ys h.2, Tells-append xs ys h.3 k)

    wake_all-Tells : (sets : List NodeSet) → Tells old cur (wake_all u cache sets)
    wake_all-Tells [] = tt
    wake_all-Tells (s ∷ sets) = wake_all-Tells sets

    wake_one-Tells : (s : Option NodeSet) → Tells old cur (wake_one u cache s)
    wake_one-Tells none = tt
    wake_one-Tells (some s) = tt

    wake_later-Tells :
        (b : Bool) (s : NodeSet) (d : ℤ) → Tells old cur (if b then enqueue_after s d ∷ [] else [])
    wake_later-Tells true s d = tt
    wake_later-Tells false s d = tt

    wake_owner-Tells : (s : Option NodeSet) → Tells old cur (wake_owner u cache old.pod cur.pod s)
    wake_owner-Tells none = tt
    wake_owner-Tells (some s) = wake_later-Tells _ s _

    update_owned-Tells :
        (ref : Option OwnerRef) (changed : Bool)
        → Tells old cur (update_owned u cache old cur ref changed)
    unfolding update_owned
    update_owned-Tells (some ref) changed = wake_owner-Tells _
    update_owned-Tells none true = wake_all-Tells (get_pod_node_sets u cache cur.pod)
    update_owned-Tells none false = tt

    wake_if-Tells :
        (b : Bool) (s : Option NodeSet) → Tells old cur (if b then wake_one u cache s else [])
    wake_if-Tells true s = wake_one-Tells s
    wake_if-Tells false s = tt

    update_live-Tells : Tells old cur (update_live u cache old cur)
    unfolding update_live
    update_live-Tells =
        let changed = not (cache.equal_refs cur.controller_ref old.controller_ref) in
        let old_owner = resolve u cache old.pod.namespace old.controller_ref in
        let relabeled = not (cache.equal_labels cur.pod.labels old.pod.labels) in
        Tells-append (if changed then wake_one u cache old_owner else [])
          (update_owned u cache old cur cur.controller_ref (relabeled || changed))
          (wake_if-Tells changed old_owner)
          (update_owned-Tells cur.controller_ref (relabeled || changed))

    tell_deletion-Tells :
        (o : Observed) (found : Option NodeSet)
        → is_terminating cur.pod ≡ true
        → ((s : NodeSet)
            → found ≡ some s
            → ((o.pod ≡ cur.pod) × Owns s cur.controller_ref)
              ⊎ ((o.pod ≡ old.pod) × Owns s old.controller_ref))
        → Tells old cur (tell_deletion u cache o.pod found)
    tell_deletion-Tells o none h k = tt
    tell_deletion-Tells o (some s) h k = (h, k s refl, refl, tt)

    delete_old-Tells :
        (b : Bool)
        → is_terminating cur.pod ≡ true
        → Tells old cur (if b then delete_pod_event u cache old else [])
    unfolding delete_pod_event
    delete_old-Tells true h =
        tell_deletion-Tells old (resolve u cache old.pod.namespace old.controller_ref) h
          (λ s found. inr (refl, resolve-Owns old.pod.namespace old.controller_ref s found))
    delete_old-Tells false h = tt

    deletions-Tells :
        (b : Bool)
        → is_terminating cur.pod ≡ true
        → Tells old cur
            (delete_pod_event u cache cur ++ (if b then delete_pod_event u cache old else []))
    unfolding delete_pod_event
    deletions-Tells b h =
        let of_cur = resolve u cache cur.pod.namespace cur.controller_ref in
        let cur_told =
          tell_deletion-Tells cur of_cur h
            (λ s found. inl (refl, resolve-Owns cur.pod.namespace cur.controller_ref s found)) in
        Tells-append (delete_pod_event u cache cur) (if b then delete_pod_event u cache old else [])
          cur_told (delete_old-Tells b h)

    -- Whatever the cache answers, each observation that updatePod makes of an update is that of the
    -- deletion of the new or the old Pod, is made only where the new Pod is being deleted, is told to
    -- a NodeSet with the UID of that Pod's reference to its controller, and wakes this NodeSet next;
    -- no creation is observed.
    pub update_pod_event-Tells : Tells old cur (update_pod_event u cache old cur)
    unfolding update_pod_event
    update_pod_event-Tells =
        elim (Bool-cases (bytes_eq cur.resource_version old.resource_version)) [
          | inl same ↦ rw same tt
          | inr v ↦ elim (Bool-cases (is_terminating cur.pod)) [
            | inl h ↦
                rw (v, h)
                  (deletions-Tells (not (cache.equal_labels cur.pod.labels old.pod.labels)) h)
            | inr h ↦ rw (v, h) update_live-Tells
          ]
        ]
