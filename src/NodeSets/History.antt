-- ===== src/NodeSets/History.antt =====
-- internal/controller/nodeset/nodeset_history.go: truncateHistory and nextRevision.
pub mod Limit
pub mod Create
pub mod Latest
use gce_hackathon.Prelude.{
  ℕ, ◌+◌, ◌-◌, ℤ, pos, negsuc, Bool, true, false, not, Option, none, some, List, [], ◌∷◌, ◌++◌, map,
  keep, take, any, length, leb, Bytes, bytes_eq, if◌then◌else◌,
}
use gce_hackathon.Objects.{Pod, Revision}
use gce_hackathon.Api.{Error, throw, M, ◌>>=◌, ◌>>◌, return}
use gce_hackathon.NodeSets.Rolling.{get_revision}

abbrev name_of : Option Revision → List Bytes
name_of none = []
name_of (some r) = r.name ∷ []

-- The names of the live revisions: the current one, the updated one, and those of Pods.
unfoldable pub live_names : Option Revision → Option Revision → List Pod → List Bytes
unfolding get_revision
live_names current update pods =
    name_of current ++ (name_of update ++ map (λ p. get_revision p.labels) pods)

abbrev pub is_live : List Bytes → Revision → Bool
is_live live r = any (λ name. bytes_eq name r.name) live

abbrev pub historic : List Bytes → List Revision → List Revision
historic live revisions = keep (λ r. not (is_live live r)) revisions

-- The revisions to delete, in order: as many of the first historic ones as exceed the limit. For a
-- negative limit the slice that the code takes reaches past the end of the history, `none` here: it
-- panics, or has nil revisions where the capacity is enough.
unfoldable pub revisions_to_delete : ℤ → List Bytes → List Revision → Option (List Revision)
revisions_to_delete (pos limit) live revisions =
    if leb (length (historic live revisions)) limit
    then some []
    else some (take (length (historic live revisions) - limit) (historic live revisions))
revisions_to_delete (negsuc limit) live revisions = none

-- `list_pods` is getNodeSetPods, `delete_revision` is DeleteControllerRevision, and `out_of_range` is
-- what becomes of a slice that reaches past the end.
module _ (list_pods : M (List Pod)) (delete_revision : Revision → M (Unit {0}))
    (out_of_range : Error) where
  -- The loop of the deletions, up to the first error.
  abbrev pub delete_revisions : List Revision → M (Unit {0})
  delete_revisions [] = return tt
  delete_revisions (r ∷ rs) = delete_revision r >> delete_revisions rs

  abbrev pub delete_or_fail : Option (List Revision) → M (Unit {0})
  delete_or_fail none = throw out_of_range
  delete_or_fail (some rs) = delete_revisions rs

  -- truncateHistory.
  unfoldable pub truncate_history :
      ℤ → List Revision → Option Revision → Option Revision → M (Unit {0})
  unfolding live_names revisions_to_delete
  truncate_history limit revisions current update = do
    pods ← list_pods
    delete_or_fail (revisions_to_delete limit (live_names current update pods) revisions)

-- nextRevision, of revisions that are sorted by number.
unfoldable pub next_revision : List Revision → ℕ
next_revision [] = 1
next_revision (r ∷ []) = r.revision + 1
next_revision (r ∷ r' ∷ rs) = next_revision (r' ∷ rs)
