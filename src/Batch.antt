-- ===== src/Batch.antt =====
-- internal/utils/tools.go: SlowStartBatch.
pub mod Runs
use gce_hackathon.Prelude.{
  ℕ, zero, suc, ◌+◌, ◌-◌, ◌*◌, min, List, [], ◌∷◌, Option, none, some, length, head?,
}

-- The error of a call, where it has one, goes into the channel.
abbrev pub report {ℓ} : {E : Type ℓ} → Option E → List E → List E
report none errs = errs
report (some e) errs = e ∷ errs

module _ {ℓ κ} {S : Type ℓ} {E : Type κ} (fn : ℕ → S → Option E × S) where
  -- The calls of a batch in the order in which they take effect, and what is then in `errCh`.
  unfoldable pub run_calls : List ℕ → S → List E × S
  run_calls [] s = ([], s)
  run_calls (i ∷ is) s =
      let (err, s1) = fn i s in let (errs, s2) = run_calls is s1 in (report err errs, s2)

  -- The loop, in its variables batchSize, remaining, index and successes. It stops at a batch of
  -- size 0 and after a batch with an error. The calls of a batch run as goroutines:
  -- `order index size` is the order in which the calls of the batch that starts at `index` take
  -- effect and report.
  unfoldable pub batch_loop : (ℕ → ℕ → List ℕ) → ℕ → ℕ → ℕ → ℕ → ℕ → S → (ℕ × Option E) × S
  unfolding run_calls
  batch_loop order zero size remaining index successes s = ((successes, none), s)
  batch_loop order (suc fuel) zero remaining index successes s = ((successes, none), s)
  batch_loop order (suc fuel) (suc size) remaining index successes s =
      let (errs, s1) = run_calls (order index (suc size)) s in
      let left = remaining - suc size in
      let total = successes + (suc size - length errs) in
      elim errs [
        | [] ↦ batch_loop order fuel (min (2 * suc size) left) left (index + suc size) total s1
        | e ∷ es ↦ ((total, some e), s1)
      ]

  -- Each round takes at least one of the `count` calls, so `count + 1` rounds are enough.
  unfoldable pub slow_start_batch : (ℕ → ℕ → List ℕ) → ℕ → ℕ → S → (ℕ × Option E) × S
  unfolding batch_loop
  slow_start_batch order count initial s =
      batch_loop order (suc count) (min count initial) count 0 0 s
