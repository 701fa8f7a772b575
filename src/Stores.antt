-- ===== src/Stores.antt =====
-- internal/utils/durationstore/durationstore.go and internal/utils/timestore/timestore.go: maps
-- from keys to a duration or a time, in which a value pushed on a key that has one is resolved by
-- the function `eval` of the store. The two files are alike up to the type of the values, so the
-- operations here are generic; Stores/Duration and Stores/Time are the two stores. Each operation is
-- taken as one step: the model has no other goroutine between the steps of a Push.
pub mod Resolve
pub mod Duration
pub mod Time
use gce_hackathon.Prelude.{
  Bool, Option, none, some, List, [], ◌∷◌, Bytes, lookup, insert, delete, if◌then◌else◌,
}

-- What a sync.Map holds at a key: a value, or an item of another type.
pub data Item {ℓ} (D : Type ℓ) : Type ℓ where
  held : D → Item D
  corrupt : Item D

abbrev pub Store {ℓ} : Type ℓ → Type ℓ
Store D = List (Bytes × Item D)

module _ {ℓ} {D : Type ℓ} (eval : D → D → Bool) (key : Bytes) (new : D) where
  abbrev push_over : Store D → Option (Item D) → Store D
  push_over m none = insert key (held new) m
  push_over m (some corrupt) = insert key (held new) (delete key m)
  push_over m (some (held old)) = if eval old new then insert key (held new) m else m

  -- Push: store the value, or resolve it against the one that is there.
  unfoldable pub push : Store D → Store D
  push m = push_over m (lookup key m)

module _ {ℓ} {D : Type ℓ} (zero_value : D) (key : Bytes) where
  abbrev get : Option (Item D) → D
  get none = zero_value
  get (some corrupt) = zero_value
  get (some (held d)) = d

  -- Peek: the value at the key, or the zero value.
  unfoldable pub peek : Store D → D
  peek m = get (lookup key m)

  -- Pop: the value at the key, which is deleted.
  unfoldable pub pop : Store D → D × Store D
  pop m = (get (lookup key m), delete key m)

-- A sequence of pushes, the first one first.
unfoldable pub push_all {ℓ} : {D : Type ℓ} → (D → D → Bool) → List (Bytes × D) → Store D → Store D
push_all eval [] m = m
push_all eval ((key, new) ∷ ps) m = push_all eval ps (push eval key new m)
