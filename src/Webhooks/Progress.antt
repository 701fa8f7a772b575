-- ===== src/Webhooks/Progress.antt =====
-- Which Pods syncRollingUpdate (internal/controller/nodeset/nodeset_sync.go) gives to doPodScale, of a
-- NodeSet that the webhook (internal/webhook/nodeset_webhook.go) admits and that Sync gives its defaults
-- (internal/defaults/nodeset.go).
use gce_hackathon.Prelude.{
  ℕ, ◌+◌, ◌*◌, ◌≤◌, ℤ, ltb_ℤ, pos, negsuc, ◌≡◌, refl, ◌≢◌, ◌⊎◌, Bool, true, false, Option, none,
  some, List, [], ◌∷◌, Bytes, codes, length, arith, inl, inr, if◌then◌else◌,
}
use gce_hackathon.Objects.{
  NodeSet, Claim, IntOrString, int_value, string_value, Reference, Pod, UpdateStrategy,
  default_replicas, default_strategy, default_max_unavailable, or_default, set_node_set_defaults,
}
use gce_hackathon.Mathutils.{get_scaled_value_from_int_or_percent}
use gce_hackathon.Pods.{PodUtil}
use gce_hackathon.Pods.Split.{Sorter}
use gce_hackathon.NodeSets.Rolling.{
  find_updated_pods, total_pods, deref, is_daemonset, pods_to_replace,
}
use gce_hackathon.NodeSets.Rolling.OldOnly.{healthy_old, rolling_update-full, healthy_old-length}
use gce_hackathon.Webhooks.{Refusal, DeepEqual, check_max_unavailable}
use gce_hackathon.Webhooks.Admitted.{
  Admitted, Admitted-Keeps, IsNumber, check_max_unavailable-positive,
}

-- A positive number.
abbrev pub IsPositive : ℤ → Type 0
IsPositive v = (m : ℕ) × (v ≡ pos m) × (1 ≤ m)

ltb_ℤ-IsPositive : (v : ℤ) → ltb_ℤ v (pos 1) ≡ false → IsPositive v
ltb_ℤ-IsPositive (pos m) h = (m, refl, ground arith)
ltb_ℤ-IsPositive (negsuc m) h = ground arith

-- What the function of package intstr answers on a number, and on 25% of a total, rounded up.
abbrev pub Scales : (Option IntOrString → ℤ → Bool → Option ℤ) → Type 0
Scales scaled_value =
    ((v total : ℤ) (up : Bool) → scaled_value (some (int_value v)) total up ≡ some v)
    × ((n : ℕ)
        → (k : ℕ) × (scaled_value (some (string_value (codes "25%"))) (pos n) true ≡ some (pos k))
          × (25 * n ≤ 100 * k))

-- Replicas that are missing or positive.
abbrev pub HasReplicas : Option ℤ → Type 0
HasReplicas none = Unit
HasReplicas (some v) = IsPositive v

module _ (scaled_value : Option IntOrString → ℤ → Bool → Option ℤ)
    (scales : Scales scaled_value) where
  number-IsPositive :
      (v total : ℤ)
      → check_max_unavailable (some (int_value v)) ≡ []
      → IsPositive (
          get_scaled_value_from_int_or_percent scaled_value (some (int_value v)) total true (pos 1))
  unfolding get_scaled_value_from_int_or_percent
  number-IsPositive v total h =
      rw (scales.0 v total true) (ltb_ℤ-IsPositive v (check_max_unavailable-positive v h))

  quarter-IsPositive :
      (total : ℤ)
      → IsPositive total
      → IsPositive (
          get_scaled_value_from_int_or_percent scaled_value
            (some (string_value (codes "25%")))
            total
            true
            (pos 1))
  unfolding get_scaled_value_from_int_or_percent
  quarter-IsPositive total (n, is_n, positive) =
      let (k, scaled, rounded) = scales.1 n in
      rw (is_n, scaled) (k, refl, omega (arith, positive, rounded))

  -- The maximum of unavailable Pods of a NodeSet with its defaults is positive.
  limit-IsPositive :
      (strategy : UpdateStrategy) (limit : Option IntOrString) (total : ℤ)
      → strategy ≢ UpdateStrategy.on_delete
      → IsNumber limit
      → check_max_unavailable limit ≡ []
      → IsPositive total
      → IsPositive (
          get_scaled_value_from_int_or_percent scaled_value
            (default_max_unavailable (default_strategy strategy) limit)
            total
            true
            (pos 1))
  limit-IsPositive UpdateStrategy.on_delete limit total rolls number h positive =
      absurd (rolls refl)
  limit-IsPositive UpdateStrategy.unspecified none total rolls number h positive =
      quarter-IsPositive total positive
  limit-IsPositive UpdateStrategy.rolling_update none total rolls number h positive =
      quarter-IsPositive total positive
  limit-IsPositive UpdateStrategy.unspecified (some (int_value v)) total rolls number h positive =
      number-IsPositive v total h
  limit-IsPositive UpdateStrategy.rolling_update (some (int_value v)) total rolls number h
        positive =
      number-IsPositive v total h
  limit-IsPositive UpdateStrategy.unspecified (some (string_value v)) total rolls number h
        positive =
      absurd number
  limit-IsPositive UpdateStrategy.rolling_update (some (string_value v)) total rolls number h
        positive =
      absurd number

default_strategy-rolling :
    (strategy : UpdateStrategy)
    → strategy ≢ UpdateStrategy.on_delete
    → default_strategy strategy ≡ UpdateStrategy.rolling_update
default_strategy-rolling UpdateStrategy.unspecified h = refl
default_strategy-rolling UpdateStrategy.rolling_update h = refl
default_strategy-rolling UpdateStrategy.on_delete h = absurd (h refl)

length-cases : (pods : List Pod) → (length pods ≡ 0) ⊎ (1 ≤ length pods)
length-cases [] = inl refl
length-cases (p ∷ pods) = inr (ground arith)

replicas-IsPositive :
    (replicas : Option ℤ)
    → HasReplicas replicas
    → IsPositive (deref default_replicas (or_default default_replicas replicas))
replicas-IsPositive none h = (1, refl, ground arith)
replicas-IsPositive (some v) h = h

total-IsPositive :
    (daemonset : Bool) (pods : List Pod) (replicas : ℤ)
    → 1 ≤ length pods
    → IsPositive replicas
    → IsPositive (if daemonset then pos (length pods) else replicas)
total-IsPositive true pods replicas some_left positive = (length pods, refl, some_left)
total-IsPositive false pods replicas some_left positive = positive

module _ {Aggregate : Type 0} (new_aggregate : List Refusal → Option Aggregate) (eq : DeepEqual)
    (never_none : (r : Refusal) (rs : List Refusal) → new_aggregate (r ∷ rs) ≢ none)
    (references_sound : (a b : Reference) → eq.references a b ≡ true → a ≡ b)
    (claims_sound : (a b : List Claim) → eq.claims a b ≡ true → a ≡ b) (u : PodUtil)
    (parse_time : Bytes → Option ℕ) (sorter : Sorter)
    (scaled_value : Option IntOrString → ℤ → Bool → Option ℤ) (now : ℕ) (pods : List Pod)
    (hash : Bytes) where
  -- Suppose that NewAggregate makes an error of any list of errors that is not empty, that DeepEqual
  -- holds of equal references and claims alone, that the scaling of a number is that number, and that
  -- 25% of a total is rounded up. Take a NodeSet that the webhook admitted when it was created and at
  -- each update since, whose maxUnavailable is a number or missing, whose replicas are positive or
  -- missing, and whose strategy is not OnDelete. With the defaults that Sync sets, syncRollingUpdate
  -- has at least one Pod for doPodScale to give up while an old Pod that is not terminating is left.
  pub Admitted-replaces :
      (first s : NodeSet)
      → Admitted new_aggregate eq first s
      → Scales scaled_value
      → IsNumber s.max_unavailable
      → HasReplicas s.replicas
      → s.update_strategy ≢ UpdateStrategy.on_delete
      → 1 ≤ length (find_updated_pods pods hash).1
      → let (unhealthy_pods, pods_to_delete) =
          pods_to_replace u parse_time sorter scaled_value
            (set_node_set_defaults s)
            now
            pods
            hash in
        1 ≤ length unhealthy_pods + length pods_to_delete
  unfolding set_node_set_defaults
  Admitted-replaces first s admitted scales number replicas rolls left =
      let d = set_node_set_defaults s in
      let healthy = healthy_old u parse_time sorter scaled_value d now pods hash in
      let valid =
        (Admitted-Keeps new_aggregate eq never_none references_sound claims_sound first s
          admitted).0 in
      let all_old = healthy_old-length u parse_time sorter scaled_value d now pods hash in
      elim (length-cases healthy) [
        | inl none_healthy ↦ omega (arith, none_healthy, all_old, left)
        | inr some_healthy ↦
            let (m, limit, positive) =
              limit-IsPositive scaled_value scales s.update_strategy s.max_unavailable
                (total_pods u parse_time sorter scaled_value d healthy) rolls number valid.1
                (total-IsPositive (is_daemonset d.scaling_mode) healthy
                  (deref default_replicas d.replicas) some_healthy
                  (replicas-IsPositive s.replicas replicas)) in
            omega (
              arith,
              rolling_update-full u parse_time sorter scaled_value d now pods hash {m = m}
                  (default_strategy-rolling s.update_strategy rolls) limit,
              some_healthy,
              positive,
            )
      ]
