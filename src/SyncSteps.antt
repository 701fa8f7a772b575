-- ===== src/SyncSteps.antt =====
-- internal/syncsteps/syncsteps.go: the steps of a reconcile, run in order.
pub mod Prefix
use gce_hackathon.Prelude.{Bool, Option, none, some, List, [], ◌∷◌, Bytes, if◌then◌else◌}

-- `S` is what the steps work on: the object and all that its reconciler reads and writes.
pub record Step {ℓ κ} (S : Type ℓ) (E : Type κ) : Type (ℓ ⊔ κ) where
  pub name : Bytes
  pub sync_fn : S → Option E × S
  pub stop_on_error : Bool

module _ {ℓ κ} {S : Type ℓ} {E : Type κ} (recorder : Bytes → E → S → S) where
  -- Sync. `recorder` is the event that is recorded for a step that fails; the errors that are
  -- returned as one are a list here, with the name of the step that each came from.
  unfoldable pub sync : List (Step S E) → S → List (Bytes × E) × S
  sync [] s = ([], s)
  sync (step ∷ steps) s =
      let (result, s1) = step.sync_fn s in
      let go_on = sync steps s1 in
      elim result [
        | none ↦ go_on
        | some e ↦
            let s2 = recorder step.name e s1 in
            let rest = sync steps s2 in
            if step.stop_on_error
            then ((step.name, e) ∷ [], s2)
            else ((step.name, e) ∷ rest.0, rest.1)
      ]
