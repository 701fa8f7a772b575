-- ===== src/Prelude/Lists.antt =====
-- Lists measured by native numbers, and executable tests on them.
use Prim.Native.Nat.{ℕ, zero, suc, ◌+◌, ◌-◌, ◌≤◌, min}
use mathlib.Core.Path.{◌≡◌, refl, ap, sym, ◌∙◌}
use mathlib.Core.Bool.{Bool, Bool-set, true, false, ◌&&◌, ◌||◌, not}
use mathlib.Core.List.{
  List, [], ◌∷◌, ◌++◌, map, Perm, Permᴰ, Mem, perm_middle, mem-cons, not-mem-nil,
}
use mathlib.Core.List
use mathlib.Core.Logic.{◌⊎◌, inl, inr, ∥∥₁_elim}
use mathlib.Core.Logic.Or
use native.Mathlib.Nat.{ℕ_set}
use native.Mathlib.Bridge.{from_ℕ}
use mathlib.Core.List.Perm
use mathlib.Core.Option.{Option, none, some}
use native.Mathlib.Omega.{arith}
use gce_hackathon.Prelude.Tests.{if◌then◌else◌}

module _ {ℓ} {A : Type ℓ} where
  abbrev pub length : List A → ℕ
  length [] = 0
  length (x ∷ xs) = suc (length xs)

  abbrev pub take : ℕ → List A → List A
  take zero xs = []
  take (suc n) [] = []
  take (suc n) (x ∷ xs) = x ∷ take n xs

  abbrev pub drop : ℕ → List A → List A
  drop zero xs = xs
  drop (suc n) [] = []
  drop (suc n) (x ∷ xs) = drop n xs

  abbrev pub get_elem? : List A → ℕ → Option A
  get_elem? [] i = none
  get_elem? (x ∷ xs) zero = some x
  get_elem? (x ∷ xs) (suc i) = get_elem? xs i

  abbrev pub head? : List A → Option A
  head? [] = none
  head? (x ∷ xs) = some x

  -- The elements that pass a Boolean test, in order.
  abbrev pub keep : (A → Bool) → List A → List A
  keep p [] = []
  keep p (x ∷ xs) = let rest = keep p xs in if p x then x ∷ rest else rest

  abbrev pub count : (A → Bool) → List A → ℕ
  count p [] = 0
  count p (x ∷ xs) = let rest = count p xs in if p x then suc rest else rest

  abbrev pub all : (A → Bool) → List A → Bool
  all p [] = true
  all p (x ∷ xs) = p x && all p xs

  abbrev pub any : (A → Bool) → List A → Bool
  any p [] = false
  any p (x ∷ xs) = p x || any p xs

  -- A predicate on each element, as a tuple.
  abbrev pub All {κ} : (A → Type κ) → List A → Type κ
  All P [] = Unit
  All P (x ∷ xs) = P x × All P xs

module _ {ℓ} {A : Type ℓ} where
  pub length-append : (xs ys : List A) → length (xs ++ ys) ≡ length xs + length ys
  length-append [] ys = omega arith
  length-append (x ∷ xs) ys = omega (arith, length-append xs ys)

  pub take-append-drop : (n : ℕ) (xs : List A) → take n xs ++ drop n xs ≡ xs
  take-append-drop zero xs = refl
  take-append-drop (suc n) [] = refl
  take-append-drop (suc n) (x ∷ xs) = rw (take-append-drop n xs)

  pub length-take : (n : ℕ) (xs : List A) → length (take n xs) ≡ min n (length xs)
  length-take zero xs = omega arith
  length-take (suc n) [] = omega arith
  length-take (suc n) (x ∷ xs) = omega (arith, length-take n xs)

  pub length-drop : (n : ℕ) (xs : List A) → length (drop n xs) ≡ length xs - n
  length-drop zero xs = omega arith
  length-drop (suc n) [] = omega arith
  length-drop (suc n) (x ∷ xs) = omega (arith, length-drop n xs)

  pub length-map {κ} : {B : Type κ} (f : A → B) (xs : List A) → length (map f xs) ≡ length xs
  length-map f [] = refl
  length-map f (x ∷ xs) = ap suc (length-map f xs)

  pub length-keep : (p : A → Bool) (xs : List A) → length (keep p xs) ≡ count p xs
  length-keep p [] = refl
  length-keep p (x ∷ xs) = ground (arith, length-keep p xs)

  pub count-le-length : (p : A → Bool) (xs : List A) → count p xs ≤ length xs
  count-le-length p [] = omega arith
  count-le-length p (x ∷ xs) = ground (arith, count-le-length p xs)

  pub count-not : (p : A → Bool) (xs : List A) → count p xs + count (λ x. not (p x)) xs ≡ length xs
  count-not p [] = refl
  count-not p (x ∷ xs) = ground (arith, count-not p xs)

  -- What a test keeps and what it drops are together the list.
  pub keep-perm : (p : A → Bool) (xs : List A) → Perm (keep p xs ++ keep (λ x. not (p x)) xs) xs
  keep-perm p [] = Perm.nil
  keep-perm p (x ∷ xs) =
      let rest = Perm.cons x (keep-perm p xs) in
      let moved = perm_middle {a = x} (keep p xs) (keep (λ y. not (p y)) xs) in
      ground (arith, rest, Perm.trans moved rest)

  pub count-append : (p : A → Bool) (xs ys : List A) → count p (xs ++ ys) ≡ count p xs + count p ys
  count-append p [] ys = omega arith
  count-append p (x ∷ xs) ys = ground (arith, count-append p xs ys)

  countᴰ : (p : A → Bool) {xs ys : List A} → Permᴰ xs ys → count p xs ≡ count p ys
  countᴰ p Permᴰ.nil = refl
  countᴰ p (Permᴰ.cons e r) = rw (e, countᴰ p r)
  countᴰ p (Permᴰ.swap e f) = rw (e, f) (ground arith)
  countᴰ p (Permᴰ.trans q r) = countᴰ p q ∙ countᴰ p r

  pub count-perm : (p : A → Bool) {xs ys : List A} → Perm xs ys → count p xs ≡ count p ys
  count-perm p r = ∥∥₁_elim r (ℕ_set _ _) (countᴰ p)

  pub All-mem :
      (p : A → Bool) (b : Bool) {x : A} (xs : List A) → All (λ y. p y ≡ b) xs → Mem x xs → p x ≡ b
  All-mem p b [] h m = absurd (not-mem-nil m)
  All-mem p b (y ∷ xs) h m =
      Or.elim (Bool-set _ _) (mem-cons.0 m) (λ e. rw e h.0) (All-mem p b xs h.1)

  pub All-All-mem :
      (r : A → A → Bool) (b : Bool) {x y : A} (xs ys : List A)
      → All (λ v. All (λ w. r w v ≡ b) ys) xs
      → Mem x xs
      → Mem y ys
      → r y x ≡ b
  All-All-mem r b [] ys h m n = absurd (not-mem-nil m)
  All-All-mem r b {x} {y} (v ∷ xs) ys h m n =
      Or.elim (Bool-set _ _) (mem-cons.0 m) (λ e. rw e (All-mem (λ w. r w v) b ys h.0 n))
        (λ k. All-All-mem r b xs ys h.1 k n)

  pub All-of_all : (p : A → Bool) (xs : List A) → all p xs ≡ true → All (λ x. p x ≡ true) xs
  All-of_all p [] h = tt
  All-of_all p (x ∷ xs) h = (ground arith, All-of_all p xs (ground arith))

  pub count-all : (p : A → Bool) (xs : List A) → all p xs ≡ true → count p xs ≡ length xs
  count-all p [] h = refl
  count-all p (x ∷ xs) h = ground (arith, count-all p xs)

  pub All-of_count : (p : A → Bool) (xs : List A) → count p xs ≡ 0 → All (λ x. p x ≡ false) xs
  All-of_count p [] h = tt
  All-of_count p (x ∷ xs) h = (ground arith, All-of_count p xs (ground arith))

  pub List-cases : (xs : List A) → (xs ≡ []) ⊎ ((x : A) × (ys : List A) × (xs ≡ x ∷ ys))
  List-cases [] = inl refl
  List-cases (x ∷ xs) = inr (x, xs, refl)

  from_length : (xs : List A) → from_ℕ (List.length xs) ≡ length xs
  from_length [] = refl
  from_length (x ∷ xs) = ap suc (from_length xs)

  pub length-perm : {xs ys : List A} → Perm xs ys → length xs ≡ length ys
  length-perm {xs} {ys} p = sym (from_length xs) ∙ ap from_ℕ (Perm.length-eq p) ∙ from_length ys

-- The numbers from `start` on.
abbrev pub range : ℕ → ℕ → List ℕ
range start zero = []
range start (suc n) = start ∷ range (suc start) n

pub length-range : (start n : ℕ) → length (range start n) ≡ n
length-range start zero = refl
length-range start (suc n) = ap suc (length-range (suc start) n)

pub range-append : (start a b : ℕ) → range start a ++ range (start + a) b ≡ range start (a + b)
range-append start zero b = ground arith
range-append start (suc a) b =
    let next : start + suc a ≡ suc start + a = omega arith in
    let total : suc a + b ≡ suc (a + b) = omega arith in
    rw (next, total) (ap (◌∷◌ start) (range-append (suc start) a b))
