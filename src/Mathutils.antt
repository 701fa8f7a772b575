-- ===== src/Mathutils.antt =====
-- internal/utils/mathutils/math.go.
use gce_hackathon.Prelude.{
  ℕ, min, ℤ, pos, pos_part, min_ℤ, max_ℤ, ◌≤ℤ◌, ◌≡◌, Bool, Option, none, some, arith,
}
use gce_hackathon.Objects.{IntOrString}

-- Clamp, at the type `int`.
unfoldable pub clamp : ℤ → ℤ → ℤ → ℤ
clamp val a b = let lower = min_ℤ a b in let upper = max_ℤ a b in min_ℤ (max_ℤ val lower) upper

abbrev pub or_value : ℤ → Option ℤ → ℤ
or_value default_value none = default_value
or_value default_value (some v) = v

-- GetScaledValueFromIntOrPercent. `scaled_value` is the function of that name of package intstr,
-- which fails on a missing value and on a text that is no percentage.
unfoldable pub get_scaled_value_from_int_or_percent :
    (Option IntOrString → ℤ → Bool → Option ℤ) → Option IntOrString → ℤ → Bool → ℤ → ℤ
get_scaled_value_from_int_or_percent scaled_value v total round_up default_value =
    or_value default_value (scaled_value v total round_up)

-- Whatever the order of the bounds, the result lies between them.
pub clamp_bounds : (val a b : ℤ) → (min_ℤ a b ≤ℤ clamp val a b) × (clamp val a b ≤ℤ max_ℤ a b)
unfolding clamp
clamp_bounds val a b = (ground arith, ground arith)

pub clamp_inside : (val a b : ℤ) → min_ℤ a b ≤ℤ val → val ≤ℤ max_ℤ a b → clamp val a b ≡ val
unfolding clamp
clamp_inside val a b h k = ground arith

pub pos_part-clamp : (val : ℤ) (n : ℕ) → pos_part (clamp val (pos 0) (pos n)) ≡ min (pos_part val) n
unfolding clamp
pos_part-clamp val n = ground arith
