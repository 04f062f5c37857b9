-- ===== src/Lifecycle/Records.antt =====
-- A property of the records of a run, from one record.
use di_pecs.Base.{
  ℕ, suc, ◌+◌, ◌≤◌, ◌<◌, ◌≡◌, ◌∙◌, refl, Option, some, String, List, [], ◌∷◌, arith, length, u32,
  All, All-append,
}
use di_pecs.Base.Int.{ℤ}
use di_pecs.Base.Floats.{Floats}
use di_pecs.Spec.Event.{SourceTier}
use di_pecs.Spec.Context.{StructuredContext}
use di_pecs.Spec.Intent.{SuggestedAction, Intent, IntentBatch, DecisionRoute, CapabilityLevel}
use di_pecs.Spec.Governance.{AdapterError, AuditRecord, AuthorizedAction, PolicyVerdict, new_record}
use di_pecs.Policy.{PolicyConfig, evaluate_intents, evaluate_batch_with_context}
use di_pecs.Policy.Targets.{KnownTargets, known_of_context}
use di_pecs.Lifecycle.{
  LifecycleError, Adapter, validate_schema, proposal_for, review, get_decision, run_action,
  run_actions, run_intents, run,
}
use di_pecs.Lifecycle.Lookup.{
  tag, tag-here, tag-later, intent_verdicts, get-this_intent, get-next_intent,
  length-intent_verdicts,
}
use di_pecs.Lifecycle.Dispatch.{FitsU32}

-- `Q` holds of the record of any action whose verdict is `Good` for it.
module _ (fl : Floats) (Good : Intent fl.F32 → SuggestedAction → PolicyVerdict → Type 0)
    (Q : AuditRecord → Type 0) where
  open fl use {F32}

  -- Each action of the list has a good verdict.
  abbrev pub AllGood : Intent F32 → List SuggestedAction → List PolicyVerdict → Type 0
  AllGood intent (a ∷ actions) (v ∷ vs) = Good intent a v × AllGood intent actions vs
  AllGood intent [] vs = Unit
  AllGood intent (a ∷ actions) [] = Unit

  pub AllGood-of_all :
      (intent : Intent F32) (actions : List SuggestedAction) (vs : List PolicyVerdict)
      → ((a : SuggestedAction) (v : PolicyVerdict) → Good intent a v)
      → AllGood intent actions vs
  AllGood-of_all intent [] vs h = tt
  AllGood-of_all intent (a ∷ actions) [] h = tt
  AllGood-of_all intent (a ∷ actions) (v ∷ vs) h = (h a v, AllGood-of_all intent actions vs h)

  module _ (lifecycle_text : LifecycleError → String) (adapter_text : AdapterError → String)
      (adapter : Adapter) (w : ℕ) (at_ms : ℤ) (route : DecisionRoute)
      (backend_error : Option String) (tier : SourceTier)
      (step : (intent : Intent F32) (i j : ℕ) (a : SuggestedAction) (v : PolicyVerdict)
          (done : List AuthorizedAction)
        → Good intent a v
        → let proposal = proposal_for fl w at_ms intent i j a in
          Q
            (review lifecycle_text adapter_text adapter
              (new_record proposal route tier)
              proposal
              at_ms
              backend_error
              (validate_schema proposal intent.risk_level)
              (some v)
              done).0) where
    run_actions-All :
        (find : ℕ → ℕ → Option PolicyVerdict) (intent : Intent F32) (i j : ℕ)
        (actions : List SuggestedAction) (vs : List PolicyVerdict) (done : List AuthorizedAction)
        → length vs ≡ length actions
        → j + length vs ≤ 4294967296
        → ((k : ℕ)
            → j ≤ k
            → k < 4294967296
            → find (u32 i) k ≡ get_decision (u32 i) k (tag (u32 i) j vs))
        → AllGood intent actions vs
        → All Q
            (run_actions lifecycle_text adapter_text adapter fl w at_ms route backend_error tier
              find intent i j actions done).0
    unfolding run_actions run_action
    run_actions-All find intent i j [] vs done l b found good = tt
    run_actions-All find intent i j (a ∷ actions) [] done l b found good = absurd (omega arith)
    run_actions-All find intent i j (a ∷ actions) (v ∷ vs) done l b found good =
        let e : find (u32 i) (u32 j) ≡ some v =
          found (u32 j) (omega arith) (omega arith) ∙ tag-here (u32 i) j v vs (omega arith) in
        (
          rw e (step intent i j a v done good.0),
          run_actions-All find intent i (suc j) actions vs _ (omega arith) (omega arith)
              (λ k h h'.
                found k (omega arith) h' ∙ tag-later (u32 i) j k v vs (omega arith) (omega arith))
              good.1,
        )

    module _ (config : PolicyConfig fl) (capability : CapabilityLevel) (known : Option KnownTargets)
        (find : ℕ → ℕ → Option PolicyVerdict) where
      run_intents-All :
          (n : ℕ) (intents : List (Intent F32)) (done : List AuthorizedAction)
          → n + length intents ≤ 4294967296
          → All (λ intent. length intent.suggested_actions ≤ 4294967296) intents
          → ((i k : ℕ)
              → n ≤ i
              → i < 4294967296
              → find i k
                ≡ get_decision i k (evaluate_intents fl config capability known tier n intents))
          → All
              (λ intent.
                (i : ℕ)
                → AllGood intent intent.suggested_actions
                    (intent_verdicts fl config capability known tier i intent))
              intents
          → All Q
              (run_intents lifecycle_text adapter_text adapter fl w at_ms route backend_error tier
                find n intents done).0
      unfolding run_intents
      run_intents-All n [] done b small found good = tt
      run_intents-All n (intent ∷ intents) done b small found good =
          let vs = intent_verdicts fl config capability known tier (u32 n) intent in
          let l = length-intent_verdicts fl config capability known tier (u32 n) intent in
          All-append Q _ _
            (run_actions-All find intent n 0 intent.suggested_actions vs done l
              (omega (arith, small.0, l))
              (λ k _ _.
                found (u32 n) k (omega arith) (omega arith)
                ∙ get-this_intent fl config capability known tier n k intent intents (omega arith))
              (good.0 (u32 n)))
            (run_intents-All (suc n) intents _ (omega arith) small.1
              (λ i k h h'.
                found i k (omega arith) h'
                ∙ get-next_intent fl config capability known tier i n k intent intents h
                    (omega arith))
              good.1)

  -- The verdicts on each intent's actions are good in the context.
  abbrev pub AllGoodIn :
      PolicyConfig fl → CapabilityLevel → StructuredContext → List (Intent F32) → Type 0
  AllGoodIn config capability ctx intents =
      All
        (λ intent.
          (i : ℕ)
          → AllGood intent intent.suggested_actions (
              intent_verdicts fl config capability (some (known_of_context ctx))
                ctx.summary.source_tier i intent))
        intents

  pub AllGoodIn-of_all :
      (config : PolicyConfig fl) (capability : CapabilityLevel) (ctx : StructuredContext)
      (intents : List (Intent F32))
      → ((intent : Intent F32) (a : SuggestedAction) (v : PolicyVerdict) → Good intent a v)
      → AllGoodIn config capability ctx intents
  AllGoodIn-of_all config capability ctx [] h = tt
  AllGoodIn-of_all config capability ctx (intent ∷ intents) h = (
    λ i. AllGood-of_all intent intent.suggested_actions _ (h intent),
    AllGoodIn-of_all config capability ctx intents h,
  )

  module _ (lifecycle_text : LifecycleError → String) (adapter_text : AdapterError → String)
      (adapter : Adapter) (config : PolicyConfig fl) (w : ℕ) (batch : IntentBatch F32)
      (route : DecisionRoute) (backend_error : Option String) (capability : CapabilityLevel)
      (ctx : StructuredContext) (done : List AuthorizedAction) where
    -- If the record of an action with a good verdict has the property, and all verdicts are good, then
    -- all records of the run have it.
    pub run-All :
        ((intent : Intent F32) (i j : ℕ) (a : SuggestedAction) (v : PolicyVerdict)
            (done' : List AuthorizedAction)
          → Good intent a v
          → let proposal = proposal_for fl w batch.generated_at_ms intent i j a in
            Q
              (review lifecycle_text adapter_text adapter
                (new_record proposal route ctx.summary.source_tier)
                proposal
                batch.generated_at_ms
                backend_error
                (validate_schema proposal intent.risk_level)
                (some v)
                done').0)
        → FitsU32 batch.intents
        → AllGoodIn config capability ctx batch.intents
        → All Q
            (run lifecycle_text adapter_text adapter fl config w batch route backend_error
              capability ctx done).0
    unfolding run evaluate_batch_with_context
    run-All step small good =
        run_intents-All lifecycle_text adapter_text adapter w batch.generated_at_ms route
          backend_error ctx.summary.source_tier step config capability (some (known_of_context ctx))
          _ 0 batch.intents done (omega arith) small.1 (λ i k _ _. refl) good
