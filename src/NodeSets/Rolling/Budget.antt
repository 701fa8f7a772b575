-- ===== src/NodeSets/Rolling/Budget.antt =====
-- How many of the Pods it is given, and which, splitUpdatePods
-- (internal/controller/nodeset/nodeset_sync.go) selects in its case of a rolling update.
use mathlib.Core.List.Perm
use mathlib.Core.List.{perm_middle}
use gce_hackathon.Prelude.{
  ℕ, ◌-◌, min, ℤ, pos, pos_part, ◌-ℤ◌, ◌≡◌, refl, Bool, not, Option, List, [], ◌∷◌, ◌++◌, Perm,
  Bytes, bytes_eq, length, count, keep, count-append, count-perm, arith,
}
use gce_hackathon.Objects.{Pod, NodeSet, IntOrString}
use gce_hackathon.Mathutils.{clamp}
use gce_hackathon.Pods.{PodUtil, is_terminating}
use gce_hackathon.Pods.Split.{Sorter, split_active_pods}
use gce_hackathon.Pods.Split.Parts.{split_active_pods_lem}
use gce_hackathon.NodeSets.Rolling.{
  get_revision, find_updated_pods, max_unavailable_pods, num_unavailable, split_rolling,
}

abbrev pub is_current : Bytes → Pod → Bool
is_current hash p = bytes_eq (get_revision p.labels) hash

-- The old pods have another revision, and the new ones the revision given.
pub old-is_old :
    (pods : List Pod) (hash : Bytes) → count (is_current hash) (find_updated_pods pods hash).1 ≡ 0
unfolding find_updated_pods
old-is_old [] hash = refl
old-is_old (p ∷ ps) hash = ground (arith, old-is_old ps hash)

no_current-no_new :
    (pods : List Pod) (hash : Bytes)
    → count (is_current hash) pods ≡ 0
    → (find_updated_pods pods hash).0 ≡ []
unfolding find_updated_pods
no_current-no_new [] hash h = refl
no_current-no_new (p ∷ ps) hash h = ground (arith, no_current-no_new ps hash)

-- Each Pod that is not terminating is on one of the two lists.
find_updated_pods-perm :
    (pods : List Pod) (hash : Bytes)
    → Perm
        ((find_updated_pods pods hash).0 ++ (find_updated_pods pods hash).1)
        (keep (λ p. not (is_terminating p)) pods)
unfolding find_updated_pods
find_updated_pods-perm [] hash = Perm.nil
find_updated_pods-perm (p ∷ ps) hash =
    let rest = Perm.cons p (find_updated_pods-perm ps hash) in
    ground (
      arith,
      find_updated_pods-perm ps hash,
      rest,
      Perm.trans (perm_middle {a = p} (find_updated_pods ps hash).0 (find_updated_pods ps hash).1)
          rest,
    )

pub move_front : (xs ys zs : List Pod) → Perm (xs ++ (ys ++ zs)) (ys ++ (xs ++ zs))
move_front xs [] zs = Perm.refl (xs ++ zs)
move_front xs (y ∷ ys) zs =
    Perm.trans (perm_middle {a = y} xs (ys ++ zs)) (Perm.cons y (move_front xs ys zs))

clamp-budget : (m n : ℕ) → pos_part (clamp (pos m -ℤ pos n) (pos 0) (pos m)) ≡ m - n
unfolding clamp ◌-ℤ◌
clamp-budget m n = ground arith

module _ (u : PodUtil) (parse_time : Bytes → Option ℕ) (sorter : Sorter)
    (scaled_value : Option IntOrString → ℤ → Bool → Option ℤ) (s : NodeSet) (now : ℕ)
    (pods : List Pod) (hash : Bytes) where
  -- In its case of a rolling update, splitUpdatePods divides those of the Pods it is given that are not
  -- terminating into those to delete and those to keep, and none to delete has the new revision.
  pub split_rolling-parts :
      let (to_delete, to_keep) = split_rolling u parse_time sorter scaled_value s now pods hash in
      Perm (to_delete ++ to_keep) (keep (λ p. not (is_terminating p)) pods)
      × (count (is_current hash) to_delete ≡ 0)
  unfolding split_rolling
  split_rolling-parts =
      let (new_pods, old_pods) = find_updated_pods pods hash in
      let (to_delete, kept_old) =
        split_active_pods u parse_time sorter old_pods (remaining new_pods) in
      let parts = (split_active_pods_lem u parse_time sorter old_pods (remaining new_pods)).0 in
      (
        Perm.trans (move_front to_delete new_pods kept_old)
            (Perm.trans (Perm.append_left new_pods parts) (find_updated_pods-perm pods hash)),
        omega (
          arith,
          count-perm (is_current hash) parts,
          count-append (is_current hash) to_delete kept_old,
          old-is_old pods hash,
        ),
      )
    where
      remaining : List Pod → ℤ
      remaining new_pods =
          clamp
            (max_unavailable_pods u parse_time sorter scaled_value s pods
              -ℤ pos (num_unavailable u parse_time sorter scaled_value s now new_pods))
            (pos 0) (max_unavailable_pods u parse_time sorter scaled_value s pods)

  -- Where the maximum of unavailable Pods is a number `m` that is not negative, splitUpdatePods selects,
  -- in its case of a rolling update, as many of the old Pods it is given as there are, up to `m` less
  -- the number of the new Pods it is given that are unavailable. This is of splitUpdatePods alone:
  -- syncRollingUpdate gives it no new Pod.
  pub split_rolling-budget :
      {m : ℕ}
      → max_unavailable_pods u parse_time sorter scaled_value s pods ≡ pos m
      → let (new_pods, old_pods) = find_updated_pods pods hash in
        length (split_rolling u parse_time sorter scaled_value s now pods hash).0
        ≡ min
            (m - num_unavailable u parse_time sorter scaled_value s now new_pods)
            (length old_pods)
  unfolding split_rolling
  split_rolling-budget {m} h = rw h (
      omega (
        arith,
        (split_active_pods_lem u parse_time sorter (find_updated_pods pods hash).1 (
            clamp
              (pos m
                -ℤ pos (
                    num_unavailable u parse_time sorter scaled_value s now
                      (find_updated_pods pods hash).0))
              (pos 0) (pos m))).1,
        clamp-budget m (
            num_unavailable u parse_time sorter scaled_value s now (find_updated_pods pods hash).0),
      ))
