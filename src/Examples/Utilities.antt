-- ===== src/Examples/Utilities.antt =====
-- Examples of internal/utils: batches, steps, stores; and of the names of Pods
-- (internal/controller/nodeset/utils).
use mathlib.Core.List.{Memᴰ}
use gce_hackathon.Prelude.{
  ℕ, suc, ℤ, pos, ◌≤ℤ◌, ◌≡◌, refl, true, false, ltb, Option, none, some, List, [], ◌∷◌, Bytes,
  codes, bytes_eq, All, arith, if◌then◌else◌,
}
use gce_hackathon.Batch.{slow_start_batch}
use gce_hackathon.Batch.Runs.{Runs, slow_start_batch-Runs}
use gce_hackathon.SyncSteps.{Step}
use gce_hackathon.SyncSteps.Prefix.{RunsPrefix, sync-prefix}
use gce_hackathon.Stores.{push_all}
use gce_hackathon.Stores.Resolve.{values, peek_longest}
use gce_hackathon.Stores.Duration
use gce_hackathon.Names.{
  get_parent_name_and_ordinal, get_ordinal_pod_name, update_identity, is_identity_match,
}
use gce_hackathon.Names.RoundTrip.{
  get_parent_name_and_ordinal-pod_name, update_identity-is_identity_match,
}
use gce_hackathon.Examples.{healthy_pod, node_set, in_turn, in_turn-IsOrder}

-- A call that counts itself and fails from the third index on.
abbrev third_fails : ℕ → ℕ → Option Bytes × ℕ
third_fails i calls = ((if ltb i 2 then none else some (codes "full")), suc calls)

slow_start_batch-Runs_example :
    Runs third_fails 1 0 5 0 0 (slow_start_batch third_fails in_turn 5 1 0)
slow_start_batch-Runs_example =
    slow_start_batch-Runs third_fails in_turn in_turn-IsOrder 5 1 0 (omega arith)

-- Three calls are made: the batch of the indices 1 and 2 fails.
batch_result : slow_start_batch third_fails in_turn 5 1 0 ≡ ((2, some (codes "full")), 3)
unfolding slow_start_batch
batch_result = refl

abbrev failing_step : Step ℕ Bytes
failing_step = record {
  name = codes "first";
  sync_fn = λ s. (some (codes "gone"), suc s);
  stop_on_error = true;
}

abbrev fine_step : Step ℕ Bytes
fine_step = record { name = codes "second"; sync_fn = λ s. (none, suc s); stop_on_error = false }

sync-prefix_example : RunsPrefix (λ name e s. s) (fine_step ∷ failing_step ∷ fine_step ∷ []) 0
sync-prefix_example = sync-prefix (λ name e s. s) (fine_step ∷ failing_step ∷ fine_step ∷ []) 0

abbrev delays : List (Bytes × ℤ)
delays = (codes "a", pos 30) ∷ (codes "b", pos 99) ∷ (codes "a", pos 10) ∷ []

peek_longest_example :
    let kept = Duration.peek (codes "a") (push_all Duration.greater delays []) in
    All (λ d. d ≤ℤ kept) (pos 30 ∷ pos 10 ∷ []) × Memᴰ kept (pos 30 ∷ pos 10 ∷ [])
unfolding values bytes_eq
peek_longest_example = peek_longest (codes "a") delays {d = pos 30} {ds = pos 10 ∷ []} refl

abbrev times : List (Bytes × ℕ)
times = (codes "a", 30) ∷ (codes "b", 99) ∷ (codes "a", 40) ∷ []

get_parent_name_and_ordinal-pod_name_example :
    get_parent_name_and_ordinal healthy_pod ≡ (codes "gpu", pos 0)
unfolding get_ordinal_pod_name
get_parent_name_and_ordinal-pod_name_example =
    get_parent_name_and_ordinal-pod_name node_set healthy_pod 0 (omega arith) refl

update_identity-is_identity_match_example :
    (is_identity_match node_set (update_identity node_set healthy_pod) ≡ true)
    × ((update_identity node_set healthy_pod).name ≡ healthy_pod.name)
unfolding get_ordinal_pod_name
update_identity-is_identity_match_example =
    update_identity-is_identity_match node_set healthy_pod 0 refl (omega arith) refl
