-- ===== src/Pods/Order/Weak.antt =====
-- The orders by which the steps of ActivePods.Less (internal/controller/nodeset/utils/sort.go)
-- decide, and the order by creation, are strict weak orders.
use gce_hackathon.Prelude.{
  IsWeakOn, ℕ, ℤ, ltb_ℤ, ◌≡◌, refl, ◌⊎◌, inl, inr, Bool, true, false, not, ◌&&◌, [], ◌∷◌, Bytes,
  bytes_lt, ltb, ◌==◌, arith,
}
use gce_hackathon.Objects.{Pod}
use gce_hackathon.Pods.Order.{after_or_zero, created_less}

abbrev pub Everything : Pod → Type 0
Everything p = Unit

module _ (key : Pod → ℕ) where
  abbrev pub by_key : Pod → Pod → Bool
  by_key p q = ltb (key p) (key q)

  pub by_key-IsWeakOn : IsWeakOn Everything by_key
  by_key-IsWeakOn = record {
    asym = λ p q _ _ h. ground arith;
    cotrans = λ p q r _ _ _ h. ground arith;
  }

  -- Zero before all else, then later before earlier.
  abbrev pub by_latest : Pod → Pod → Bool
  by_latest p q = not (key p == key q) && after_or_zero (key p) (key q)

  pub by_latest-IsWeakOn : IsWeakOn Everything by_latest
  unfolding after_or_zero
  by_latest-IsWeakOn = record {
    asym = λ p q _ _ h. ground arith;
    cotrans = λ p q r _ _ _ h. ground arith;
  }

module _ (key : Pod → ℤ) where
  abbrev pub by_int : Pod → Pod → Bool
  by_int p q = ltb_ℤ (key p) (key q)

  pub by_int-IsWeakOn : IsWeakOn Everything by_int
  by_int-IsWeakOn = record {
    asym = λ p q _ _ h. ground arith;
    cotrans = λ p q r _ _ _ h. ground arith;
  }

  abbrev pub by_int_down : Pod → Pod → Bool
  by_int_down p q = ltb_ℤ (key q) (key p)

  pub by_int_down-IsWeakOn : IsWeakOn Everything by_int_down
  by_int_down-IsWeakOn = record {
    asym = λ p q _ _ h. ground arith;
    cotrans = λ p q r _ _ _ h. ground arith;
  }

bytes_lt-asym : (s t : Bytes) → bytes_lt s t ≡ true → bytes_lt t s ≡ false
unfolding bytes_lt
bytes_lt-asym [] [] h = refl
bytes_lt-asym [] (y ∷ t) h = refl
bytes_lt-asym (x ∷ s) [] h = cc
bytes_lt-asym (x ∷ s) (y ∷ t) h = ground (arith, bytes_lt-asym s t)

bytes_lt-cotrans :
    (s t r : Bytes) → bytes_lt s r ≡ true → (bytes_lt s t ≡ true) ⊎ (bytes_lt t r ≡ true)
unfolding bytes_lt
bytes_lt-cotrans s [] [] h = inl h
bytes_lt-cotrans s [] (z ∷ r) h = inr refl
bytes_lt-cotrans [] (y ∷ t) r h = inl refl
bytes_lt-cotrans (x ∷ s) (y ∷ t) [] h = cc
bytes_lt-cotrans (x ∷ s) (y ∷ t) (z ∷ r) h = ground (arith, bytes_lt-cotrans s t r)

-- The order by creation and name is a strict weak order on all Pods.
pub created_less-IsWeakOn : IsWeakOn Everything created_less
unfolding created_less
created_less-IsWeakOn = record {
  asym = λ p q _ _ h. ground (arith, bytes_lt-asym p.name q.name);
  cotrans = λ p q r _ _ _ h. ground (arith, bytes_lt-cotrans p.name q.name r.name);
}
