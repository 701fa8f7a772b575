-- ===== src/SyncSteps/Prefix.antt =====
-- Which steps `Sync` (internal/syncsteps/syncsteps.go) runs.
use gce_hackathon.Prelude.{
  ◌≡◌, refl, ap, ◌∙◌, ◌⊎◌, inl, inr, true, false, Option, none, some, List, [], ◌∷◌, ◌++◌, Bytes,
  Bool-cases, Option-cases,
}
use gce_hackathon.SyncSteps.{Step, sync}

module _ {ℓ κ} {S : Type ℓ} {E : Type κ} (recorder : Bytes → E → S → S) where
  -- One step, with the event that is recorded if it fails.
  pub run_step : Step S E → S → Option E × S
  run_step step s =
      let (result, s1) = step.sync_fn s in
      elim result [ none ↦ (none, s1) | some e ↦ (some e, recorder step.name e s1) ]

  abbrev note_error : Bytes → Option E → List (Bytes × E) → List (Bytes × E)
  note_error name none errs = errs
  note_error name (some e) errs = (name, e) ∷ errs

  -- Every step of a list, whatever fails.
  pub run_all : List (Step S E) → S → List (Bytes × E) × S
  run_all [] s = ([], s)
  run_all (step ∷ steps) s =
      let (result, s1) = run_step step s in
      let (errs, s2) = run_all steps s1 in (note_error step.name result errs, s2)

  -- No step that fails is one to stop at.
  abbrev pub GoesOn : List (Step S E) → S → Type (ℓ ⊔ κ)
  GoesOn [] s = Unit
  GoesOn (step ∷ steps) s =
      (((run_step step s).0 ≡ none) ⊎ (step.stop_on_error ≡ false))
      × GoesOn steps (run_step step s).1

  -- The last of the steps fails and is one to stop at, and it is the first such one.
  abbrev pub Stops : List (Step S E) → S → Type (ℓ ⊔ κ)
  Stops steps s =
      (before : List (Step S E)) × (last : Step S E) × (steps ≡ before ++ (last ∷ []))
      × GoesOn before s
      × (last.stop_on_error ≡ true)
      × ((e : E) × ((run_step last (run_all before s).1).0 ≡ some e))

  abbrev pub RunsPrefix : List (Step S E) → S → Type (ℓ ⊔ κ)
  RunsPrefix steps s =
      (ran rest : List (Step S E)) × (steps ≡ ran ++ rest)
      × (sync recorder steps s ≡ run_all ran s)
      × (((rest ≡ []) × GoesOn ran s) ⊎ Stops ran s)

  abbrev go_on : Step S E → Option E × S → List (Bytes × E) × S → List (Bytes × E) × S
  go_on step r rest = (note_error step.name r.0 rest.0, rest.1)

  Stops-cons :
      (step : Step S E) (ran : List (Step S E)) (s : S)
      → ((run_step step s).0 ≡ none) ⊎ (step.stop_on_error ≡ false)
      → Stops ran (run_step step s).1
      → Stops (step ∷ ran) s
  unfolding run_all
  Stops-cons step ran s here (before, last, e, goes, stop, fails) =
      (step ∷ before, last, ap (◌∷◌ step) e, (here, goes), stop, fails)

  extend-prefix :
      (step : Step S E) (steps : List (Step S E)) (s : S)
      → sync recorder (step ∷ steps) s
        ≡ go_on step (run_step step s) (sync recorder steps (run_step step s).1)
      → ((run_step step s).0 ≡ none) ⊎ (step.stop_on_error ≡ false)
      → RunsPrefix steps (run_step step s).1
      → RunsPrefix (step ∷ steps) s
  extend-prefix step steps s e here (ran, rest, whole, same, end) = (
    step ∷ ran,
    rest,
    ap (◌∷◌ step) whole,
    e ∙ ap (go_on step (run_step step s)) same ∙ unfold run_all in refl,
    elim end [
      | inl (all_ran, goes) ↦ inl (all_ran, (here, goes))
      | inr stops ↦ inr (Stops-cons step ran s here stops)
    ],
  )

  -- `sync` runs the steps of a prefix of its list, each once and in order, and returns their errors.
  -- Either the prefix is the whole list, and no step that fails in it stops on error; or it ends with
  -- a step that fails and stops on error, which no step before it does.
  pub sync-prefix : (steps : List (Step S E)) (s : S) → RunsPrefix steps s
  unfolding sync run_step run_all
  sync-prefix [] s = ([], [], refl, unfold run_all in refl, inl (refl, tt))
  sync-prefix (step ∷ steps) s = elim (Option-cases (step.sync_fn s).0) [
    | inl fine ↦
        extend-prefix step steps s (rw (fine, run_step, sync)) (inl (rw (fine, run_step)))
          (sync-prefix steps (run_step step s).1)
    | inr (e, failed) ↦ elim (Bool-cases step.stop_on_error) [
      | inl stop ↦ (
        step ∷ [],
        steps,
        refl,
        rw (failed, stop, run_all, run_step),
        inr ([], step, refl, tt, stop, (e, rw (failed, run_step, run_all))),
      )
      | inr goes ↦
          extend-prefix step steps s (rw (failed, run_step, goes)) (inr goes)
            (sync-prefix steps (run_step step s).1)
    ]
  ]
