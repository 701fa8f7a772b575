-- ===== src/NodeSets/Ordinals.antt =====
-- internal/controller/nodeset/nodeset_sync.go, syncNodeSetPods: the ordinals of the Pods that are
-- created in StatefulSet mode.
pub mod Fresh
use gce_hackathon.Prelude.{
  ℕ, zero, suc, ℤ, pos, eqb_ℤ, Bool, true, false, List, [], ◌∷◌, map, length, any,
}
use gce_hackathon.Objects.{Pod}
use gce_hackathon.Names.{get_ordinal}

-- `usedOrdinals.Has`.
abbrev pub has_ordinal : List ℤ → ℕ → Bool
has_ordinal used ordinal = any (λ u. eqb_ℤ u (pos ordinal)) used

-- `for usedOrdinals.Has(ordinal) { ordinal++ }`, on fuel.
unfoldable pub next_free : ℕ → List ℤ → ℕ → ℕ
next_free zero used ordinal = ordinal
next_free (suc fuel) used ordinal = elim (has_ordinal used ordinal) [
  | true ↦ next_free fuel used (suc ordinal)
  | false ↦ ordinal
]

-- The ordinals of the next `diff` Pods. Each search starts where the one before ended; it passes
-- over used ordinals alone, so one more round than there are used ordinals is enough.
unfoldable pub free_ordinals : ℕ → List ℤ → ℕ → List ℕ
unfolding next_free
free_ordinals zero used ordinal = []
free_ordinals (suc diff) used ordinal =
    let found = next_free (suc (length used)) used ordinal in
    found ∷ free_ordinals diff (pos found ∷ used) found

-- The ordinals in use are those of all Pods, of whatever scaling mode.
unfoldable pub ordinals_to_create : ℕ → List Pod → List ℕ
unfolding free_ordinals
ordinals_to_create diff pods = free_ordinals diff (map get_ordinal pods) 0
