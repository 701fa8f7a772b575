-- ===== src/NodeSets/History/Latest.antt =====
-- getNodeSetRevisions of internal/controller/nodeset/nodeset_history.go.
use gce_hackathon.Prelude.{
  ℕ, Bool, Option, none, some, List, [], ◌∷◌, Bytes, bytes_eq, if◌then◌else◌,
}
use gce_hackathon.Objects.{NodeSet, Revision}
use gce_hackathon.Api.{Error, Result, ok, err, World, M, ◌>>=◌, return, throw}
use gce_hackathon.NodeSets.History.{next_revision}
use gce_hackathon.NodeSets.History.Create.{create_controller_revision}

-- The last element, or the one given.
abbrev pub last_or : Revision → List Revision → Revision
last_or r [] = r
last_or r (x ∷ xs) = last_or x xs

-- The first revision of a name.
abbrev pub find_named : Bytes → List Revision → Option Revision
find_named name [] = none
find_named name (r ∷ rs) =
    let rest = find_named name rs in if bytes_eq r.name name then some r else rest

abbrev pub or_update : Option Revision → Revision → Revision
or_update none update = update
or_update (some r) update = r

-- The current revision, the update revision and the count of collisions.
pub record Revisions : Type 0 where
  pub current : Revision
  pub update : Revision
  pub collision_count : ℕ

-- `sort_revisions`, `find_equal` and `equal_revision` are SortControllerRevisions,
-- FindEqualRevisions and EqualRevision of k8s.io/kubernetes/pkg/controller/history; `new_revision`
-- is newRevision, which makes the patch and the name, and `renumber` is UpdateControllerRevision.
-- `fuel` bounds the rounds of CreateControllerRevision, and `stuck` stands for its going on.
module _ (w : World) (sort_revisions : List Revision → List Revision)
    (find_equal : List Revision → Revision → List Revision)
    (equal_revision : Revision → Revision → Bool) (new_revision : NodeSet → ℕ → ℕ → Result Revision)
    (renumber : Revision → ℕ → M Revision) (name_of : NodeSet → ℕ → Bytes) (fuel : ℕ)
    (stuck : Error) where
  abbrev pub lift : Result Revision → M Revision
  lift (ok r) = return r
  lift (err e) = throw e

  abbrev pub result_of : Bytes → List Revision → Revision × ℕ → Revisions
  result_of hash revisions (update, count) = record {
    current = or_update (find_named hash revisions) update;
    update = update;
    collision_count = count;
  }

  abbrev pub or_stuck : Option (Revision × ℕ) → M (Revision × ℕ)
  or_stuck none = throw stuck
  or_stuck (some c) = return c

  -- The update revision, of the sorted revisions and those that are equal to the new one.
  unfoldable pub choose_update :
      NodeSet → List Revision → List Revision → Revision → ℕ → M (Revision × ℕ)
  unfolding create_controller_revision
  choose_update s revisions [] fresh count =
      create_controller_revision w (name_of s) fuel fresh count >>= or_stuck
  choose_update s revisions (r ∷ rs) fresh count =
      if equal_revision (last_or r revisions) (last_or r rs)
      then return (last_or r revisions, count)
      else (renumber (last_or r rs) fresh.revision >>= λ updated. return (updated, count))

  -- getNodeSetRevisions, of the hash and the count of collisions in the NodeSet's status.
  unfoldable pub get_node_set_revisions : NodeSet → Bytes → ℕ → List Revision → M Revisions
  unfolding next_revision choose_update
  get_node_set_revisions s hash count unsorted =
      let revisions = sort_revisions unsorted in
      lift (new_revision s (next_revision revisions) count) >>= λ fresh.
      choose_update s revisions (find_equal revisions fresh) fresh count >>= λ chosen.
      return (result_of hash revisions chosen)
