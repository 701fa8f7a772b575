-- ===== src/NodeSets/Batches/Counts.antt =====
-- How many requests of a kind a batch of internal/controller/nodeset makes at most, when its calls
-- each make none or at most one.
use gce_hackathon.Prelude.{
  ℕ, ◌+◌, ◌≤◌, ◌≡◌, refl, Bool, Option, none, some, List, [], ◌∷◌, count, length, get_elem?,
  length-perm, length-range, if◌then◌else◌, arith,
}
use gce_hackathon.Api.{Error, Result, ok, err, Request, Trace, M}
use gce_hackathon.Api.Counts.{AtMost}
use gce_hackathon.Batch.{run_calls, slow_start_batch}
use gce_hackathon.Batch.Runs.{IsOrder, slow_start_batch-Runs}
use gce_hackathon.NodeSets.Batches.{
  error_of, call_on, first_error, at_index, slow_start_initial_batch_size, batch, for_each,
}

-- At most one, or none.
abbrev pub one_if : Bool → ℕ → ℕ
one_if b n = if b then n else 0

pub error_of-trace : (r : Result (Unit {0}) × Trace) → (error_of r).1 ≡ r.1
error_of-trace (ok _, t) = refl
error_of-trace (err e, t) = refl

first_error-trace :
    (order : ℕ → ℕ → List ℕ) {A : Type 0} (f : A → M (Unit {0})) (r : (ℕ × Option Error) × Trace)
    → (first_error order f r).1 ≡ r.1
first_error-trace order f ((n, none), t) = refl
first_error-trace order f ((n, some e), t) = refl

module _ (q : Request → Bool) (b : Bool) {A : Type 0} (f : A → M (Unit {0}))
    (each : (a : A) → AtMost q (one_if b 1) (f a)) where
  call_on-AtMost : (o : Option A) (t : Trace) → count q (call_on f o t).1 ≤ one_if b 1 + count q t
  call_on-AtMost none t = omega arith
  call_on-AtMost (some a) t = rw (error_of-trace (f a t)) (each a t)

  at_index-AtMost :
      (xs : List A) (i : ℕ) (t : Trace) → count q (at_index f xs i t).1 ≤ one_if b 1 + count q t
  at_index-AtMost xs i t = call_on-AtMost (get_elem? xs i) t

  run_calls-AtMost :
      (xs : List A) (is : List ℕ) (t : Trace)
      → count q (run_calls (at_index f xs) is t).1 ≤ one_if b (length is) + count q t
  unfolding run_calls
  run_calls-AtMost xs [] t = omega arith
  run_calls-AtMost xs (i ∷ is) t =
      ground (arith, at_index-AtMost xs i t, run_calls-AtMost xs is (at_index f xs i t).1)

  module _ (order : ℕ → ℕ → List ℕ) (any_order : IsOrder order) where
    slow_start_batch-AtMost :
        (xs : List A) (n : ℕ) (t : Trace)
        → count q (slow_start_batch (at_index f xs) order n slow_start_initial_batch_size t).1
          ≤ one_if b n + count q t
    slow_start_batch-AtMost xs n t =
        let runs =
          slow_start_batch-Runs (at_index f xs) order any_order n slow_start_initial_batch_size t
            (omega arith) in
        rw runs.final (
          ground (
            arith,
            run_calls-AtMost xs runs.calls t,
            runs.bounded,
            length-perm runs.once,
            length-range 0 runs.attempted,
          ))

    pub batch-AtMost : (xs : List A) (n : ℕ) → AtMost q (one_if b n) (batch order f n xs)
    unfolding batch
    batch-AtMost xs n t = slow_start_batch-AtMost xs n t

    pub for_each-AtMost : (xs : List A) → AtMost q (one_if b (length xs)) (for_each order f xs)
    unfolding for_each
    for_each-AtMost xs t =
        rw
          (first_error-trace order f
            (slow_start_batch (at_index f xs) order (length xs) slow_start_initial_batch_size t))
          (slow_start_batch-AtMost xs (length xs) t)
