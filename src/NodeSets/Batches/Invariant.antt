-- ===== src/NodeSets/Batches/Invariant.antt =====
-- What each call of a batch of internal/controller/nodeset keeps true of the requests made so far,
-- the batch keeps true.
use gce_hackathon.Prelude.{
  ℕ, ◌≡◌, refl, sym, subst, Option, none, some, List, [], ◌∷◌, length, get_elem?, arith,
}
use gce_hackathon.Api.{Error, Result, ok, err, Trace, M}
use gce_hackathon.Batch.{run_calls, slow_start_batch}
use gce_hackathon.Batch.Runs.{IsOrder, slow_start_batch-Runs}
use gce_hackathon.NodeSets.Batches.{
  error_of, call_on, first_error, at_index, slow_start_initial_batch_size, for_each,
}

error_of-keeps : (I : Trace → Type 0) (r : Result (Unit {0}) × Trace) → I r.1 → I (error_of r).1
error_of-keeps I (ok _, t) h = h
error_of-keeps I (err e, t) h = h

-- A run keeps a predicate on the requests.
abbrev pub Keeps : (Trace → Type 0) → {A : Type 0} → M A → Type 0
Keeps I m = (t : Trace) → I t → I (m t).1

module _ (I : Trace → Type 0) {A : Type 0} (f : A → M (Unit {0})) (xs : List A)
    (each : (a : A) (i : ℕ) → get_elem? xs i ≡ some a → Keeps I (f a)) where
  call_on-keeps :
      (i : ℕ) (o : Option A) → get_elem? xs i ≡ o → (t : Trace) → I t → I (call_on f o t).1
  call_on-keeps i none e t h = h
  call_on-keeps i (some a) e t h = error_of-keeps I (f a t) (each a i e t h)

  run_calls-keeps : (is : List ℕ) (t : Trace) → I t → I (run_calls (at_index f xs) is t).1
  unfolding run_calls
  run_calls-keeps [] t h = h
  run_calls-keeps (i ∷ is) t h =
      run_calls-keeps is (at_index f xs i t).1 (call_on-keeps i (get_elem? xs i) refl t h)

  first_error-keeps :
      (order : ℕ → ℕ → List ℕ) (r : (ℕ × Option Error) × Trace)
      → I r.1
      → I (first_error order f r).1
  first_error-keeps order ((n, none), t) h = h
  first_error-keeps order ((n, some e), t) h = h

  pub for_each-Keeps : (order : ℕ → ℕ → List ℕ) → IsOrder order → Keeps I (for_each order f xs)
  unfolding for_each
  for_each-Keeps order any_order t h =
      let runs =
        slow_start_batch-Runs (at_index f xs) order any_order (length xs)
          slow_start_initial_batch_size t (omega arith) in
      first_error-keeps order
        (slow_start_batch (at_index f xs) order (length xs) slow_start_initial_batch_size t)
        (subst I (sym runs.final) (run_calls-keeps runs.calls t h))
