-- ===== src/NodeSets/Ordinals/Fresh.antt =====
-- The ordinals chosen for new Pods (internal/controller/nodeset/nodeset_sync.go, syncNodeSetPods)
-- are free, distinct and the lowest.
use gce_hackathon.Prelude.{
  ℕ, zero, suc, ◌≤◌, ◌<◌, ℤ, pos, negsuc, ◌≡◌, refl, ap, ◌==◌, inl, inr, Bool, true, false, ◌||◌,
  List, [], ◌∷◌, map, length, any, count, All, leb, Bool-cases, arith, count-le-length,
}
use native.Mathlib.Decide.{ℕ_discrete, dec_lt}
use gce_hackathon.Objects.{Pod}
use gce_hackathon.Names.{get_ordinal}
use gce_hackathon.NodeSets.Ordinals.{has_ordinal, next_free, free_ordinals, ordinals_to_create}

abbrev from : ℕ → ℤ → Bool
from n (pos k) = leb n k
from n (negsuc k) = false

-- What is used from the next ordinal on is no more than from this one on, and less if this one is
-- used.
count_from-suc : (n : ℕ) (used : List ℤ) → count (from (suc n)) used ≤ count (from n) used
count_from-suc n [] = omega arith
count_from-suc n (pos k ∷ used) = ground (arith, count_from-suc n used)
count_from-suc n (negsuc k ∷ used) = ground (arith, count_from-suc n used)

count_from-used :
    (n : ℕ) (used : List ℤ)
    → has_ordinal used n ≡ true
    → count (from (suc n)) used < count (from n) used
count_from-used n [] h = cc
count_from-used n (pos k ∷ used) h = ground (arith, count_from-suc n used, count_from-used n used)
count_from-used n (negsuc k ∷ used) h =
    ground (arith, count_from-suc n used, count_from-used n used)

-- What the search finds: a free ordinal, with used ones alone before it.
pub record Found (used : List ℤ) (start found : ℕ) : Type 0 where
  pub free : has_ordinal used found ≡ false
  pub after : start ≤ found
  pub passed : (k : ℕ) → start ≤ k → k < found → has_ordinal used k ≡ true

next_free-Found :
    (fuel : ℕ) (used : List ℤ) (start : ℕ)
    → count (from start) used < fuel
    → Found used start (next_free fuel used start)
unfolding next_free
next_free-Found zero used start h = absurd (omega arith)
next_free-Found (suc fuel) used start h = elim (Bool-cases (has_ordinal used start)) [
  | inl taken ↦
      let rest =
        next_free-Found fuel used (suc start) (omega (arith, count_from-used start used taken)) in
      rw (taken, next_free)
        (record {
          free = rest.free;
          after = omega (arith, rest.after);
          passed = λ k h1 h2. elim (ℕ_discrete start k) [
            | yes e ↦ rw (← e) taken
            | no ne ↦ rest.passed k (omega arith) h2
          ];
        })
  | inr open_place ↦
      rw (open_place, next_free)
        (record {
          free = open_place;
          after = omega arith;
          passed = λ k h1 h2. absurd (omega arith);
        })
]

search-Found :
    (used : List ℤ) (start : ℕ) → Found used start (next_free (suc (length used)) used start)
search-Found used start =
    next_free-Found (suc (length used)) used start
      (omega (arith, count-le-length (from start) used))

abbrev pub is_one_of : List ℕ → ℕ → Bool
is_one_of os k = any (λ o. o == k) os

abbrev pub Ascending : ℕ → List ℕ → Type 0
Ascending start [] = Unit
Ascending start (o ∷ os) = (start ≤ o) × Ascending (suc o) os

-- All ordinals below one of the list are used, or on the list themselves.
abbrev pub NoGap : List ℤ → ℕ → List ℕ → ℕ → Type 0
NoGap used start os o = (k : ℕ) → start ≤ k → k < o → (has_ordinal used k || is_one_of os k) ≡ true

pub record Fresh (diff : ℕ) (used : List ℤ) (start : ℕ) (os : List ℕ) : Type 0 where
  pub enough : length os ≡ diff
  pub free : All (λ o. has_ordinal used o ≡ false) os
  pub ascending : Ascending start os
  pub lowest : All (NoGap used start os) os

All-free-cons :
    (used : List ℤ) (o : ℕ) (os : List ℕ)
    → All (λ x. has_ordinal (pos o ∷ used) x ≡ false) os
    → All (λ x. has_ordinal used x ≡ false) os
All-free-cons used o [] h = tt
All-free-cons used o (x ∷ os) h = (ground (arith, h.0), All-free-cons used o os h.1)

-- An ordinal that was just found is not found again.
Ascending-suc :
    (used : List ℤ) (o : ℕ) (os : List ℕ)
    → All (λ x. has_ordinal (pos o ∷ used) x ≡ false) os
    → Ascending o os
    → Ascending (suc o) os
Ascending-suc used o [] h a = tt
Ascending-suc used o (x ∷ os) h a = (ground (arith, h.0), a.1)

All-lowest-cons :
    (used : List ℤ) (start o : ℕ) (rest os : List ℕ)
    → Found used start o
    → All (NoGap (pos o ∷ used) o rest) os
    → All (NoGap used start (o ∷ rest)) os
All-lowest-cons used start o rest [] f h = tt
All-lowest-cons used start o rest (x ∷ os) f h = (
  λ k above below. elim (dec_lt k o) [
    | yes before ↦ ground (arith, f.passed k above before)
    | no after ↦ ground (arith, h.0 k (omega arith) below)
  ],
  All-lowest-cons used start o rest os f h.1,
)

free_ordinals-Fresh :
    (diff : ℕ) (used : List ℤ) (start : ℕ) → Fresh diff used start (free_ordinals diff used start)
unfolding free_ordinals
free_ordinals-Fresh zero used start = record {
  enough = refl;
  free = tt;
  ascending = tt;
  lowest = tt;
}
free_ordinals-Fresh (suc diff) used start =
    let o = next_free (suc (length used)) used start in
    let f = search-Found used start in
    let rest = free_ordinals-Fresh diff (pos o ∷ used) o in
    record {
      enough = ap suc rest.enough;
      free = (f.free, All-free-cons used o _ rest.free);
      ascending = (f.after, Ascending-suc used o _ rest.free rest.ascending);
      lowest = (
        λ k above below. ground (arith, f.passed k above below),
        All-lowest-cons used start o _ _ f rest.lowest,
      );
    }

-- For any Pods, the ordinals of new ones are as many as asked for, none of them is the ordinal of a
-- Pod, they ascend (so they are distinct), and every number below one of them is the ordinal of a
-- Pod or another of them.
pub ordinals_to_create-Fresh :
    (diff : ℕ) (pods : List Pod)
    → Fresh diff (map get_ordinal pods) 0 (ordinals_to_create diff pods)
unfolding ordinals_to_create
ordinals_to_create-Fresh diff pods = free_ordinals-Fresh diff (map get_ordinal pods) 0
