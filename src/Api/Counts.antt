-- ===== src/Api/Counts.antt =====
-- How many requests of a kind a run makes at most: the runs of Api, and the batches of
-- NodeSets/Batches over them.
use gce_hackathon.Prelude.{ℕ, ◌+◌, ◌≤◌, ◌≡◌, Bool, true, false, count, if◌then◌else◌, arith}
use gce_hackathon.Api.{
  Error, Result, ok, err, Request, Trace, World, M, then_run, ◌>>=◌, return, throw, try_run, send,
  create_pod, delete_pod,
}

-- The requests that create Pods, those that delete Pods, both or none.
abbrev pub counted : Bool → Bool → Request → Bool
counted creations deletions (create_pod p) = creations
counted creations deletions (delete_pod namespace name) = deletions
counted creations deletions _ = false

-- A run makes at most `k` requests of the kind `q`.
abbrev pub AtMost : (Request → Bool) → ℕ → {A : Type 0} → M A → Type 0
AtMost q k m = (t : Trace) → count q (m t).1 ≤ k + count q t

module _ (q : Request → Bool) where
  pub then_run-AtMost :
      {A B : Type 0} (k : ℕ) (f : A → M B) (r : Result A × Trace)
      → ((a : A) → AtMost q k (f a))
      → count q (then_run f r).1 ≤ k + count q r.1
  then_run-AtMost k f (ok a, t) h = h a t
  then_run-AtMost k f (err e, t) h = omega arith

  -- A run after another one.
  pub bind-AtMost :
      {A B : Type 0} (j k : ℕ) (m : M A) (f : A → M B)
      → AtMost q j m
      → ((a : A) → AtMost q k (f a))
      → AtMost q (j + k) (m >>= f)
  bind-AtMost j k m f h g t = omega (arith, h t, then_run-AtMost k f (m t) g)

  -- The first run makes none.
  pub then-AtMost :
      {A B : Type 0} (k : ℕ) (m : M A) (f : A → M B)
      → AtMost q 0 m
      → ((a : A) → AtMost q k (f a))
      → AtMost q k (m >>= f)
  then-AtMost k m f h g t = omega (arith, h t, then_run-AtMost k f (m t) g)

  pub return-AtMost : {A : Type 0} (a : A) → AtMost q 0 (return a)
  return-AtMost a t = omega arith

  pub throw-AtMost : (A : Type 0) (e : Error) → AtMost q 0 (throw {A = A} e)
  throw-AtMost A e t = omega arith

  pub try_run-AtMost : {A : Type 0} (k : ℕ) (m : M A) → AtMost q k m → AtMost q k (try_run m)
  try_run-AtMost k m h t = h t

  pub if-AtMost :
      {A : Type 0} (k : ℕ) (b : Bool) (m n : M A)
      → AtMost q k m
      → AtMost q k n
      → AtMost q k (if b then m else n)
  if-AtMost k true m n h g = h
  if-AtMost k false m n h g = g

  pub more-AtMost : {A : Type 0} (j k : ℕ) (m : M A) → j ≤ k → AtMost q j m → AtMost q k m
  more-AtMost j k m le h t = omega (arith, h t)

  module _ (w : World) where
    pub send-AtMost : (r : Request) → AtMost q 1 (send w r)
    send-AtMost r t = ground arith

    -- A request of another kind.
    pub send_other-AtMost : (r : Request) → q r ≡ false → AtMost q 0 (send w r)
    send_other-AtMost r h t = rw h (omega arith)
