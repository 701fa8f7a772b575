-- ===== src/NodeSets/History/Create/Ends.antt =====
-- CreateControllerRevision ends (internal/utils/historycontrol/historycontrol.go).
use gce_hackathon.Prelude.{
  ℕ, zero, suc, ◌+◌, ◌≤◌, ◌<◌, ◌≡◌, refl, Bool, true, false, not, Option, none, some, List, [], ◌∷◌,
  Bytes, bytes_eq, bytes_eq_iff, bytes_eq_sound, any, keep, length, Bool-cases, Option-cases, inl,
  inr, arith,
}
use gce_hackathon.Objects.{Revision}
use gce_hackathon.Api.{
  Error, Result, ok, err, create_revision, get_stored, Trace, World, M, then_run,
}
use gce_hackathon.NodeSets.History.Create.{Created, named, compare_data, create_controller_revision}

abbrev pub is_in : List Bytes → Bytes → Bool
is_in names x = any (λ y. bytes_eq y x) names

abbrev without : Bytes → List Bytes → List Bytes
without x names = keep (λ y. not (bytes_eq y x)) names

is_in-without :
    (x z : Bytes) (names : List Bytes)
    → bytes_eq x z ≡ false
    → is_in names z ≡ true
    → is_in (without x names) z ≡ true
is_in-without x z [] d h = h
is_in-without x z (y ∷ ys) d h =
    ground (arith, d, h, bytes_eq_iff x z, bytes_eq_iff y x, bytes_eq_iff y z, is_in-without x z ys)

length-without-le : (x : Bytes) (names : List Bytes) → length (without x names) ≤ length names
length-without-le x [] = omega arith
length-without-le x (y ∷ ys) = ground (arith, length-without-le x ys)

length-without :
    (x : Bytes) (names : List Bytes)
    → is_in names x ≡ true
    → length (without x names) < length names
length-without x [] h = cc h
length-without x (y ∷ ys) h = ground (arith, h, length-without-le x ys, length-without x ys)

-- It did not run out of fuel, and a revision that is returned has the data.
abbrev pub Ended : Bytes → Result (Option (Revision × ℕ)) × Trace → Type 0
Ended raw (ok none, t) = ⊥
Ended raw (ok (some (r, count)), t) = r.raw ≡ raw
Ended raw (err e, t) = Unit

module _ (w : World) (name_of : ℕ → Bytes) (r : Revision) (bound : ℕ) where
  -- The names of two counts up to the bound differ.
  abbrev pub Differs : ℕ → Type 0
  Differs count =
      (i j : ℕ) → count ≤ i → i < j → j ≤ bound → bytes_eq (name_of i) (name_of j) ≡ false

  -- A revision that is refused since it exists already has one of the names.
  abbrev pub Collides : List Bytes → ℕ → Type 0
  Collides taken count =
      (i : ℕ) (t : Trace) (e : Error)
      → count ≤ i
      → i ≤ bound
      → w.write t (create_revision (named w name_of r i)) ≡ some e
      → e.already_exists ≡ true
      → is_in taken (name_of i) ≡ true

  compare_data-Ended :
      (count : ℕ) (again : M (Created w name_of)) (got : Result Revision) (t : Trace)
      → Ended r.raw (again t)
      → Ended r.raw (then_run (compare_data w name_of r count again) (got, t))
  compare_data-Ended count again (err e) t h = tt
  compare_data-Ended count again (ok exists) t h = elim (Bool-cases (bytes_eq exists.raw r.raw)) [
    | inl same ↦ rw same (bytes_eq_sound exists.raw r.raw same)
    | inr other ↦ rw other h
  ]

  ends_from :
      (fuel : ℕ) (taken : List Bytes) (count : ℕ)
      → length taken < fuel
      → count + length taken ≤ bound
      → Differs count
      → Collides taken count
      → (t : Trace) → Ended r.raw (create_controller_revision w name_of fuel r count t)
  unfolding create_controller_revision
  ends_from zero taken count enough fits differs collides t = absurd (omega (arith, enough))
  ends_from (suc fuel) taken count enough fits differs collides t =
      elim (Option-cases (w.write t (create_revision (named w name_of r count)))) [
        | inl fine ↦ rw fine refl
        | inr (e, failed) ↦ rw failed (elim (Bool-cases e.already_exists) [
          | inr other ↦ rw other tt
          | inl exists ↦ rw exists (
              let t1 = create_revision (named w name_of r count) ∷ t in
              let here = collides count t e (omega arith) (omega (arith, fits)) failed exists in
              let fewer = length-without (name_of count) taken here in
              compare_data-Ended count (create_controller_revision w name_of fuel r (suc count))
                (w.read_revision t1 (name_of count)) (get_stored (name_of count) ∷ t1)
                (ends_from fuel (without (name_of count) taken) (suc count)
                  (omega (arith, fewer, enough)) (omega (arith, fewer, fits))
                  (λ i j low less high. differs i j (omega (arith, low)) less high)
                  (λ i t2 e2 low high refused clash.
                    is_in-without (name_of count) (name_of i) taken
                      (differs count i (omega arith) (omega (arith, low)) high)
                      (collides i t2 e2 (omega (arith, low)) high refused clash))
                  (get_stored (name_of count) ∷ t1)))
        ])
      ]

-- Suppose that revisions of the parent are refused as existing only where their names are among
-- `taken`, and that the names for the counts from the one given on, up to as many more as there are
-- names taken, differ. Then CreateControllerRevision makes at most one round more than there are
-- names taken: with that fuel it returns an error, or a revision that has the data of the one given.
pub create_controller_revision-Ended :
    (w : World) (name_of : ℕ → Bytes) (r : Revision) (taken : List Bytes) (count : ℕ)
    → Differs w name_of r (count + length taken) count
    → Collides w name_of r (count + length taken) taken count
    → (t : Trace)
    → Ended r.raw (create_controller_revision w name_of (suc (length taken)) r count t)
create_controller_revision-Ended w name_of r taken count differs collides =
    ends_from w name_of r (count + length taken) (suc (length taken)) taken count (omega arith)
      (omega arith) differs collides
