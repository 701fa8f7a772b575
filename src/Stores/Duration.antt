-- ===== src/Stores/Duration.antt =====
-- internal/utils/durationstore/durationstore.go. A duration is a number of nanoseconds.
use gce_hackathon.Prelude.{ℤ, pos, ltb_ℤ, Bool, Bytes}
use gce_hackathon.Stores.{Store}
use gce_hackathon.Stores as Generic

unfoldable pub greater : ℤ → ℤ → Bool
greater old_dur new_dur = ltb_ℤ old_dur new_dur

unfoldable pub less : ℤ → ℤ → Bool
less old_dur new_dur = ltb_ℤ new_dur old_dur

unfoldable pub push : (ℤ → ℤ → Bool) → Bytes → ℤ → Store ℤ → Store ℤ
push eval key new_dur m = Generic.push eval key new_dur m

unfoldable pub pop : Bytes → Store ℤ → ℤ × Store ℤ
pop key m = Generic.pop (pos 0) key m

unfoldable pub peek : Bytes → Store ℤ → ℤ
peek key m = Generic.peek (pos 0) key m
