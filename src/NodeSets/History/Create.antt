-- ===== src/NodeSets/History/Create.antt =====
-- Making and renumbering revisions: CreateControllerRevision and UpdateControllerRevision of
-- internal/utils/historycontrol/historycontrol.go.
pub mod Ends
use gce_hackathon.Prelude.{
  ℕ, zero, suc, ◌+◌, ◌==◌, Bool, true, false, Option, none, some, List, [], ◌∷◌, ◌++◌, Bytes, codes,
  bytes_eq, if◌then◌else◌,
}
use gce_hackathon.Objects.{Revision}
use gce_hackathon.Api.{
  Error, Result, ok, err, create_revision, update_revision, World, M, ◌>>=◌, return, throw, try_run,
  send, fetch_revision,
}

-- `name_of` is ControllerRevisionName of the parent with HashControllerRevision of the revision and
-- a count of collisions (k8s.io/kubernetes/pkg/controller/history).
module _ (w : World) (name_of : ℕ → Bytes) where
  -- The revision, and the count of collisions that is left behind; `none` is out of fuel.
  abbrev pub Created : Type 0
  Created = Option (Revision × ℕ)

  abbrev pub named : Revision → ℕ → Revision
  named r count = record r { name = name_of count }

  -- What is done with the revision that has the name already; `again` is the next round.
  abbrev pub compare_data : Revision → ℕ → M Created → Revision → M Created
  compare_data r count again exists =
      if bytes_eq exists.raw r.raw then return (some (exists, count)) else again

  abbrev pub after_create : Revision → ℕ → M Created → Result (Unit {0}) → M Created
  after_create r count again (ok _) = return (some (named r count, count))
  after_create r count again (err e) =
      if e.already_exists
      then (fetch_revision w (name_of count) >>= compare_data r count again)
      else throw e

  -- CreateControllerRevision: each round has another count, until a name is free or has the same
  -- data.
  unfoldable pub create_controller_revision : ℕ → Revision → ℕ → M Created
  create_controller_revision zero r count = return none
  create_controller_revision (suc fuel) r count =
      try_run (send w (create_revision (named r count)))
      >>= after_create r count (create_controller_revision fuel r (suc count))

-- One attempt of UpdateControllerRevision at the clone, and the clone after it. RetryOnConflict of
-- client-go makes the attempts.
module _ (w : World) where
  abbrev pub clone_after : Revision → Result Revision → Revision
  clone_after clone (ok got) = got
  clone_after clone (err e) = clone

  abbrev pub after_update : Revision → Result (Unit {0}) → M (Result (Unit {0}) × Revision)
  after_update clone (ok _) = return (ok tt, clone)
  after_update clone (err e) =
      try_run (fetch_revision w clone.name) >>= λ got. return (err e, clone_after clone got)

  unfoldable pub update_attempt : ℕ → Revision → M (Result (Unit {0}) × Revision)
  update_attempt number clone =
      let clone1 = record clone { revision = number } in
      if clone.revision == number
      then return (ok tt, clone)
      else (try_run (send w (update_revision clone1)) >>= after_update clone1)
