-- ===== src/Stores/Resolve.antt =====
-- Which value a store holds after a sequence of pushes
-- (internal/utils/durationstore/durationstore.go, internal/utils/timestore/timestore.go).
use mathlib.Core.List.{Memᴰ}
use gce_hackathon.Prelude.{
  IsWeakOn, ℕ, ℤ, pos, ltb_ℤ, ◌≤ℤ◌, ◌≤◌, ltb, ◌≡◌, refl, sym, subst, ap, ◌∙◌, inl, inr, Bool, true,
  false, Option, none, some, List, [], ◌∷◌, Bytes, bytes_eq, bytes_eq_iff, lookup, delete,
  lookup-insert, lookup-delete, All, Bool-cases, if◌then◌else◌, arith,
}
use gce_hackathon.Stores.{Item, held, corrupt, Store, push, peek, pop, push_all}
use gce_hackathon.Stores.Duration
use gce_hackathon.Stores.Time

abbrev Anything {ℓ} : {D : Type ℓ} → D → Type 0
Anything d = Unit

module _ {ℓ} {D : Type ℓ} where
  abbrev value_of : Option (Item D) → Option D
  value_of none = none
  value_of (some corrupt) = none
  value_of (some (held d)) = some d

  -- The value at a key; an item that is corrupt is as good as none.
  pub content : Bytes → Store D → Option D
  content key m = value_of (lookup key m)

  -- The values that are pushed on a key, in order.
  unfoldable pub values : Bytes → List (Bytes × D) → List D
  values key [] = []
  values key ((k, d) ∷ ps) = let rest = values key ps in if bytes_eq k key then d ∷ rest else rest

module _ {ℓ} {D : Type ℓ} (eval : D → D → Bool) where
  -- The value kept of an old and a new one.
  abbrev pub resolve : Option D → D → D
  resolve none new = new
  resolve (some old) new = if eval old new then new else old

  pub resolve_all : Option D → List D → Option D
  resolve_all start [] = start
  resolve_all start (d ∷ ds) = resolve_all (some (resolve start d)) ds

  content-push :
      (key j : Bytes) (new : D) (m : Store D)
      → content j (push eval key new m)
        ≡ (if bytes_eq key j then some (resolve (content j m) new) else content j m)
  unfolding content push
  content-push key j new m = ground (
    arith,
    bytes_eq_iff key j,
    lookup-insert key j (held new) m,
    lookup-insert key j (held new) (delete key m),
    lookup-delete key j m,
  )

  -- After any pushes on any keys, a key has what the values pushed on it resolve to, in order.
  pub content-push_all :
      (j : Bytes) (ps : List (Bytes × D)) (m : Store D)
      → content j (push_all eval ps m) ≡ resolve_all (content j m) (values j ps)
  unfolding push_all resolve_all values
  content-push_all j [] m = refl
  content-push_all j ((key, new) ∷ ps) m =
      ground (arith, content-push_all j ps (push eval key new m), content-push key j new m)

  module _ (weak : IsWeakOn Anything eval) where
    irrefl : (d : D) → eval d d ≡ false
    irrefl d = ground (arith, weak.asym d d tt tt)

    -- What the values resolve to is one of them, and no other is preferred to it.
    abbrev pub IsBest : D → List D → Type ℓ
    IsBest best ds = All (λ d. eval best d ≡ false) ds × Memᴰ best ds

    keep_new :
        (old d best : D) (ds : List D)
        → eval old d ≡ true
        → IsBest best (d ∷ ds)
        → IsBest best (old ∷ d ∷ ds)
    keep_new old d best ds better b = (
      (ground (arith, b.0.0, weak.asym old d tt tt, weak.cotrans best d old tt tt tt), b.0),
      Memᴰ.tail b.1,
    )

    Mem-skip : (old d best : D) (ds : List D) → Memᴰ best (old ∷ ds) → Memᴰ best (old ∷ d ∷ ds)
    Mem-skip old d best ds (Memᴰ.head e) = Memᴰ.head e
    Mem-skip old d best ds (Memᴰ.tail m) = Memᴰ.tail (Memᴰ.tail m)

    keep_old :
        (old d best : D) (ds : List D)
        → eval old d ≡ false
        → IsBest best (old ∷ ds)
        → IsBest best (old ∷ d ∷ ds)
    keep_old old d best ds worse b = (
      (b.0.0, (ground (arith, b.0.0, weak.cotrans best old d tt tt tt), b.0.1)),
      Mem-skip old d best ds b.1,
    )

    resolve_all-IsBest :
        (old : D) (ds : List D)
        → (best : D) × (resolve_all (some old) ds ≡ some best) × IsBest best (old ∷ ds)
    unfolding resolve_all
    resolve_all-IsBest old [] = (old, refl, ((irrefl old, tt), Memᴰ.head refl))
    resolve_all-IsBest old (d ∷ ds) = elim (Bool-cases (eval old d)) [
      | inl better ↦
          let (best, e, b) = resolve_all-IsBest d ds in
          (best, rw better e, keep_new old d best ds better b)
      | inr worse ↦
          let (best, e, b) = resolve_all-IsBest old ds in
          (best, rw worse e, keep_old old d best ds worse b)
    ]

    peek-content :
        (zero_value : D) (key : Bytes) (m : Store D) {d : D}
        → content key m ≡ some d
        → peek zero_value key m ≡ d
    unfolding peek content
    peek-content zero_value key m h = ground arith

    -- Of a store that was empty, and that any values were pushed to on any keys: where a key had
    -- some, `peek` returns one of them, to which `eval` prefers no other.
    pub peek-push_all :
        (zero_value : D) (key : Bytes) (ps : List (Bytes × D)) {d : D} {ds : List D}
        → values key ps ≡ d ∷ ds
        → IsBest (peek zero_value key (push_all eval ps [])) (d ∷ ds)
    peek-push_all zero_value key ps {d} {ds} h =
        let (best, e, b) = resolve_all-IsBest d ds in
        let found : content key (push_all eval ps []) ≡ some best =
          content-push_all key ps []
          ∙ ap (resolve_all (content key [])) h
          ∙ unfold content lookup resolve_all in e in
        subst (λ x. IsBest x (d ∷ ds))
          (sym (peek-content zero_value key (push_all eval ps []) found)) b

-- Pop returns what Peek returns, leaves nothing at the key, and keeps all other keys.
pub pop_lem {ℓ} :
    {D : Type ℓ} (zero_value : D) (key j : Bytes) (m : Store D)
    → ((pop zero_value key m).0 ≡ peek zero_value key m)
      × (content j (pop zero_value key m).1 ≡ (if bytes_eq key j then none else content j m))
unfolding pop peek content
pop_lem zero_value key j m = (refl, ground (arith, lookup-delete key j m))

duration_greater-IsWeakOn : IsWeakOn Anything Duration.greater
unfolding Duration.greater
duration_greater-IsWeakOn = record {
  asym = λ a b _ _ h. ground arith;
  cotrans = λ a b c _ _ _ h. ground arith;
}

time_greater-IsWeakOn : IsWeakOn Anything Time.greater
unfolding Time.greater
time_greater-IsWeakOn = record {
  asym = λ a b _ _ h. ground arith;
  cotrans = λ a b c _ _ _ h. ground arith;
}

All-upto : (z : ℤ) (ds : List ℤ) → All (λ d. ltb_ℤ z d ≡ false) ds → All (λ d. d ≤ℤ z) ds
All-upto z [] h = tt
All-upto z (d ∷ ds) h = (ground (arith, h.0), All-upto z ds h.1)

-- The requeue delays of a reconciler: after any pushes of durations to a store that keeps the
-- greater, with a key that had some, Peek at that key is one of those durations, and none of them
-- is longer.
pub peek_longest :
    (key : Bytes) (ps : List (Bytes × ℤ)) {d : ℤ} {ds : List ℤ}
    → values key ps ≡ d ∷ ds
    → let kept = Duration.peek key (push_all Duration.greater ps []) in
      All (λ d. d ≤ℤ kept) (d ∷ ds) × Memᴰ kept (d ∷ ds)
unfolding Duration.peek Duration.greater
peek_longest key ps {d} {ds} h =
    let b = peek-push_all Duration.greater duration_greater-IsWeakOn (pos 0) key ps h in
    (All-upto _ (d ∷ ds) b.0, b.1)

All-before : (t : ℕ) (ts : List ℕ) → All (λ d. ltb t d ≡ false) ts → All (λ d. d ≤ t) ts
All-before t [] h = tt
All-before t (d ∷ ts) h = (ground (arith, h.0), All-before t ts h.1)

-- The deadlines of Slurm nodes: after any pushes of times to a store that keeps the greater, with
-- a key that had some, Peek at that key is one of those times, and none of them is later.
pub peek_latest :
    (key : Bytes) (ps : List (Bytes × ℕ)) {t : ℕ} {ts : List ℕ}
    → values key ps ≡ t ∷ ts
    → let kept = Time.peek key (push_all Time.greater ps []) in
      All (λ d. d ≤ kept) (t ∷ ts) × Memᴰ kept (t ∷ ts)
unfolding Time.peek Time.greater
peek_latest key ps {t} {ts} h =
    let b = peek-push_all Time.greater time_greater-IsWeakOn 0 key ps h in
    (All-before _ (t ∷ ts) b.0, b.1)
