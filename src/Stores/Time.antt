-- ===== src/Stores/Time.antt =====
-- internal/utils/timestore/timestore.go. A time is counted from the zero time.
use gce_hackathon.Prelude.{ℕ, ltb, Bool, Bytes}
use gce_hackathon.Stores.{Store}
use gce_hackathon.Stores as Generic

unfoldable pub greater : ℕ → ℕ → Bool
greater old_time new_time = ltb old_time new_time

unfoldable pub less : ℕ → ℕ → Bool
less old_time new_time = ltb new_time old_time

unfoldable pub push : (ℕ → ℕ → Bool) → Bytes → ℕ → Store ℕ → Store ℕ
push eval key new_time m = Generic.push eval key new_time m

unfoldable pub pop : Bytes → Store ℕ → ℕ × Store ℕ
pop key m = Generic.pop 0 key m

unfoldable pub peek : Bytes → Store ℕ → ℕ
peek key m = Generic.peek 0 key m
