-- ===== src/NodeSets/Batches.antt =====
-- The batches of internal/controller/nodeset: SlowStartBatch (internal/utils/tools.go) over the
-- elements of a list, as runs that make requests. A call of a batch is one step: the requests of two
-- calls do not interleave, but `order` lets the calls of a batch run in any order.
pub mod Counts
pub mod Invariant
use gce_hackathon.Prelude.{ℕ, suc, Option, none, some, List, [], ◌∷◌, length, get_elem?, take}
use gce_hackathon.Api.{Error, Result, ok, err, Trace, M, return}
use gce_hackathon.Batch.{slow_start_batch}

-- SlowStartInitialBatchSize of Kubernetes.
abbrev pub slow_start_initial_batch_size : ℕ
slow_start_initial_batch_size = 1

abbrev pub error_of : Result (Unit {0}) × Trace → Option Error × Trace
error_of (ok _, t) = (none, t)
error_of (err e, t) = (some e, t)

module _ {A : Type 0} (f : A → M (Unit {0})) where
  abbrev pub call_on : Option A → Trace → Option Error × Trace
  call_on none t = (none, t)
  call_on (some a) t = error_of (f a t)

  -- The function of the index, as the code writes it.
  abbrev pub at_index : List A → ℕ → Trace → Option Error × Trace
  at_index xs i t = call_on (get_elem? xs i) t

module _ (order : ℕ → ℕ → List ℕ) {A : Type 0} (f : A → M (Unit {0})) where
  -- SlowStartBatch over the first `count` elements: how many calls succeeded, and the error.
  unfoldable pub batch : ℕ → List A → M (ℕ × Option Error)
  batch count xs t =
      let (r, t1) = slow_start_batch (at_index f xs) order count slow_start_initial_batch_size t in
      (ok r, t1)

  abbrev pub first_error : (ℕ × Option Error) × Trace → Result (Unit {0}) × Trace
  first_error ((successes, none), t) = (ok tt, t)
  first_error ((successes, some e), t) = (err e, t)

  -- The same over all elements, for its error alone.
  unfoldable pub for_each : List A → M (Unit {0})
  for_each xs t =
      first_error
        (slow_start_batch (at_index f xs) order (length xs) slow_start_initial_batch_size t)
