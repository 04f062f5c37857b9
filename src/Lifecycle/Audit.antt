-- ===== src/Lifecycle/Audit.antt =====
-- One finished record for each suggested action.
use mathlib.Core.List.{map-append}
use mathlib.Core.Path.{ap₂}
use di_pecs.Base.{ℕ, suc, ◌≡◌, refl, String, Option, List, [], ◌∷◌, ◌++◌, map, All, All-append, u32}
use di_pecs.Base.Int.{ℤ}
use di_pecs.Base.Floats.{Floats}
use di_pecs.Spec.Event.{SourceTier}
use di_pecs.Spec.Context.{StructuredContext}
use di_pecs.Spec.Intent.{SuggestedAction, Intent, IntentBatch, DecisionRoute, CapabilityLevel}
use di_pecs.Spec.Governance.{ActionCoord, AdapterError, AuthorizedAction, PolicyVerdict}
use di_pecs.Policy.{PolicyConfig}
use di_pecs.Policy.Coverage.{action_coords, batch_coords}
use di_pecs.Lifecycle.{LifecycleError, Adapter, run_action, run_actions, run_intents, run}
use di_pecs.Lifecycle.Path.{IsFinished, review-IsFinished, coord-review}

-- the coordinate of a place in a window
abbrev pub at_window : ℕ → ℕ × ℕ → ActionCoord
at_window w p = record { window_ordinal = w; intent_ordinal = p.0; action_ordinal = p.1 }

module _ (lifecycle_text : LifecycleError → String) (adapter_text : AdapterError → String)
    (adapter : Adapter) (fl : Floats) where
  open fl use {F32}

  module _ (w : ℕ) (at_ms : ℤ) (route : DecisionRoute) (backend_error : Option String)
      (tier : SourceTier) (find : ℕ → ℕ → Option PolicyVerdict) where
    run_actions-IsFinished :
        (intent : Intent F32) (i j : ℕ) (actions : List SuggestedAction)
        (done : List AuthorizedAction)
        → All IsFinished
            (run_actions lifecycle_text adapter_text adapter fl w at_ms route backend_error tier
              find intent i j actions done).0
    unfolding run_actions run_action
    run_actions-IsFinished intent i j [] done = tt
    run_actions-IsFinished intent i j (a ∷ actions) done = (
      review-IsFinished lifecycle_text adapter_text adapter _ route tier at_ms backend_error done _
          _,
      run_actions-IsFinished intent i (suc j) actions _,
    )

    run_intents-IsFinished :
        (i : ℕ) (intents : List (Intent F32)) (done : List AuthorizedAction)
        → All IsFinished
            (run_intents lifecycle_text adapter_text adapter fl w at_ms route backend_error tier
              find i intents done).0
    unfolding run_intents
    run_intents-IsFinished i [] done = tt
    run_intents-IsFinished i (intent ∷ intents) done =
        All-append IsFinished _ _ (run_actions-IsFinished intent i 0 intent.suggested_actions done)
          (run_intents-IsFinished (suc i) intents _)

    run_actions-coords :
        (intent : Intent F32) (i j : ℕ) (actions : List SuggestedAction)
        (done : List AuthorizedAction)
        → map
            (λ r. r.coord)
            (run_actions lifecycle_text adapter_text adapter fl w at_ms route backend_error tier
              find intent i j actions done).0
          ≡ map (at_window w) (action_coords (u32 i) j actions)
    unfolding run_actions run_action
    run_actions-coords intent i j [] done = refl
    run_actions-coords intent i j (a ∷ actions) done =
        ap₂ ◌∷◌
          (coord-review lifecycle_text adapter_text adapter _ route tier at_ms backend_error done _
            _)
          (run_actions-coords intent i (suc j) actions _)

    run_intents-coords :
        (i : ℕ) (intents : List (Intent F32)) (done : List AuthorizedAction)
        → map
            (λ r. r.coord)
            (run_intents lifecycle_text adapter_text adapter fl w at_ms route backend_error tier
              find i intents done).0
          ≡ map (at_window w) (batch_coords i intents)
    unfolding run_intents
    run_intents-coords i [] done = refl
    run_intents-coords i (intent ∷ intents) done =
        rw (map-append, map-append)
          (ap₂ ◌++◌ (run_actions-coords intent i 0 intent.suggested_actions done)
            (run_intents-coords (suc i) intents _))

  module _ (config : PolicyConfig fl) (w : ℕ) (batch : IntentBatch F32) (route : DecisionRoute)
      (backend_error : Option String) (capability : CapabilityLevel) (ctx : StructuredContext)
      (done : List AuthorizedAction) where
    -- Whatever the adapter answers, every record of a run is finished: its transitions are a walk of
    -- the state machine from `Proposed` to a terminal state, which the record names, and it holds an
    -- outcome exactly if the action succeeded, a reason exactly if it was denied, and an error
    -- exactly if it failed or its schema was rejected.
    pub run-IsFinished :
        All IsFinished
          (run lifecycle_text adapter_text adapter fl config w batch route backend_error capability
            ctx done).0
    unfolding run
    run-IsFinished = run_intents-IsFinished w _ route backend_error _ _ 0 batch.intents done

    -- A run makes exactly one record for each suggested action of the batch, in order, with the
    -- action's place in the window as its coordinate.
    pub coords-run :
        map
          (λ r. r.coord)
          (run lifecycle_text adapter_text adapter fl config w batch route backend_error capability
            ctx done).0
        ≡ map (at_window w) (batch_coords 0 batch.intents)
    unfolding run
    coords-run = run_intents-coords w _ route backend_error _ _ 0 batch.intents done
