-- ===== src/Batch/Runs.antt =====
-- SlowStartBatch (internal/utils/tools.go) seen from outside: which calls are made, how often,
-- and what is returned.
use mathlib.Core.List.Perm
use gce_hackathon.Prelude.{
  ℕ, zero, suc, ◌+◌, ◌-◌, ◌*◌, ◌≤◌, ◌<◌, min, ◌≡◌, refl, subst, ap, inl, inr, List, [], ◌∷◌, ◌++◌,
  Perm, Option, none, some, length, head?, range, arith, length-range, range-append, length-perm,
  List-cases,
}
use gce_hackathon.Batch.{report, run_calls, batch_loop, slow_start_batch}

-- Any order of the calls of a batch may happen.
abbrev pub IsOrder : (ℕ → ℕ → List ℕ) → Type 0
IsOrder order = (index size : ℕ) → Perm (order index size) (range index size)

report-append {ℓ} :
    {E : Type ℓ} (err : Option E) (xs ys : List E) → report err (xs ++ ys) ≡ report err xs ++ ys
report-append none xs ys = refl
report-append (some e) xs ys = refl

module _ {ℓ κ} {S : Type ℓ} {E : Type κ} (fn : ℕ → S → Option E × S) where
  run_calls-append :
      (is js : List ℕ) (s : S)
      → run_calls fn (is ++ js) s ≡ (
        (run_calls fn is s).0 ++ (run_calls fn js (run_calls fn is s).1).0,
        (run_calls fn js (run_calls fn is s).1).1,
      )
  unfolding run_calls
  run_calls-append [] js s = refl
  run_calls-append (i ∷ is) js s = rw (run_calls-append is js (fn i s).1, report-append (fn i s).0)

  length-run_calls : (is : List ℕ) (s : S) → length (run_calls fn is s).0 ≤ length is
  unfolding run_calls
  length-run_calls [] s = omega arith
  length-run_calls (i ∷ is) s = ground (arith, length-run_calls is (fn i s).1)

  -- How a run of the loop relates to the calls that it makes from `index` on.
  pub record Runs (initial index remaining successes : ℕ) (s : S) (r : (ℕ × Option E) × S)
      : Type (ℓ ⊔ κ) where
    pub calls : List ℕ
    pub attempted : ℕ
    pub once : Perm calls (range index attempted)
    pub bounded : attempted ≤ remaining
    pub final : r.1 ≡ (run_calls fn calls s).1
    pub reported : r.0.1 ≡ head? (run_calls fn calls s).0
    pub counted : r.0.0 + length (run_calls fn calls s).0 ≡ successes + attempted
    pub slow : successes + attempted ≤ initial + 3 * r.0.0
    pub complete : r.0.1 ≡ none → attempted ≡ remaining

  -- A batch that reports an error ends the run.
  failed-Runs :
      (initial size remaining index successes : ℕ) (s : S) (batch : List ℕ) (e : E) (es : List E)
      → size ≤ remaining
      → size ≤ initial + 2 * successes
      → Perm batch (range index size)
      → (run_calls fn batch s).0 ≡ e ∷ es
      → Runs initial index remaining successes s
          ((successes + (size - length (run_calls fn batch s).0), some e), (run_calls fn batch s).1)
  failed-Runs initial size remaining index successes s batch e es fits slow p failed = record {
    calls = batch;
    attempted = size;
    once = p;
    bounded = fits;
    final = refl;
    reported = rw failed;
    counted = omega (arith, length-run_calls batch s, length-perm p, length-range index size);
    slow = omega arith;
    complete = λ h. cc;
  }

  -- A batch with no error goes before the run of what is left.
  clean-Runs :
      (initial size remaining index successes total : ℕ) (s : S) (batch : List ℕ)
      (r : (ℕ × Option E) × S)
      → size ≤ remaining
      → Perm batch (range index size)
      → (run_calls fn batch s).0 ≡ []
      → total ≡ successes + size
      → Runs initial (index + size) (remaining - size) total (run_calls fn batch s).1 r
      → Runs initial index remaining successes s r
  clean-Runs initial size remaining index successes total s batch r fits p clean sum rest = record {
    calls = batch ++ rest.calls;
    attempted = size + rest.attempted;
    once =
        subst (Perm (batch ++ rest.calls)) (range-append index size rest.attempted)
          (Perm.append p rest.once);
    bounded = omega (arith, rest.bounded);
    final = rw (run_calls-append batch rest.calls s) rest.final;
    reported = rw (run_calls-append batch rest.calls s, clean) rest.reported;
    counted = rw (run_calls-append batch rest.calls s, clean) (omega (arith, rest.counted));
    slow = omega (arith, rest.slow);
    complete = λ h. omega (arith, rest.complete h, fits);
  }

  module _ (order : ℕ → ℕ → List ℕ) (any_order : IsOrder order) where
    batch_loop-Runs :
        (fuel initial size remaining index successes : ℕ) (s : S)
        → size ≤ remaining
        → size ≤ initial + 2 * successes
        → (size ≡ 0 → remaining ≡ 0)
        → remaining < fuel
        → Runs initial index remaining successes s
            (batch_loop fn order fuel size remaining index successes s)
    unfolding batch_loop
    batch_loop-Runs zero initial size remaining index successes s fits slow live enough =
        absurd (omega arith)
    batch_loop-Runs (suc fuel) initial zero remaining index successes s fits slow live enough =
        record {
          calls = [];
          attempted = 0;
          once = Perm.nil;
          bounded = omega arith;
          final = unfold run_calls in refl;
          reported = unfold run_calls in refl;
          counted = unfold run_calls in omega arith;
          slow = omega arith;
          complete = λ _. omega (arith, live refl);
        }
    batch_loop-Runs (suc fuel) initial (suc size) remaining index successes s fits slow live
          enough =
        elim (List-cases (run_calls fn (order index (suc size)) s).0) [
          | inl clean ↦
              rw (clean, batch_loop)
                (clean-Runs initial (suc size) remaining index successes
                  (successes + (suc size - length (run_calls fn (order index (suc size)) s).0)) s
                  (order index (suc size)) _ fits (any_order index (suc size)) clean
                  (omega (arith, ap length clean))
                  (batch_loop-Runs fuel initial (min (2 * suc size) (remaining - suc size))
                    (remaining - suc size) (index + suc size) _ _ (omega arith)
                    (omega (arith, ap length clean)) (λ h. omega arith) (omega arith)))
          | inr (e, es, failed) ↦
              rw (failed, batch_loop)
                (failed-Runs initial (suc size) remaining index successes s (order index (suc size))
                  e es fits slow (any_order index (suc size)) failed)
        ]

    -- The calls that `slow_start_batch` makes have distinct indices 0, 1, ... below `count`. They
    -- run one after the other in some order, each once; the error returned is the first that they
    -- report, the number returned is that of the calls without an error, and where no error is
    -- returned all `count` calls were made. At most `initial` calls, and three more for each call
    -- that succeeded, are made at all.
    pub slow_start_batch-Runs :
        (count initial : ℕ) (s : S)
        → 0 < initial
        → Runs initial 0 count 0 s (slow_start_batch fn order count initial s)
    unfolding slow_start_batch
    slow_start_batch-Runs count initial s h =
        batch_loop-Runs (suc count) initial (min count initial) count 0 0 s (omega arith)
          (omega arith) (λ e. omega arith) (omega arith)
