-- ===== src/Lifecycle/Dispatch.antt =====
-- What a run hands to the adapter.
use di_pecs.Base.{
  ℕ, suc, ◌+◌, ◌≤◌, ◌<◌, ◌≡◌, refl, ap, ◌∙◌, Bool, true, false, Option, none, some, String, List,
  [], ◌∷◌, arith, length, u32, ◌&&◌, if◌then◌else◌, All,
}
use di_pecs.Base.Int.{ℤ}
use di_pecs.Base.Floats.{Floats}
use di_pecs.Spec.Event.{SourceTier}
use di_pecs.Spec.Context.{StructuredContext}
use di_pecs.Spec.Intent.{SuggestedAction, Intent, IntentBatch, DecisionRoute, CapabilityLevel}
use di_pecs.Spec.Governance.{
  ActionProposal, AdapterError, AuditRecord, AuthorizedAction, PolicyVerdict, new_record, seal,
}
use di_pecs.Policy.{PolicyConfig, evaluate_intents, evaluate_batch_with_context}
use di_pecs.Policy.Targets.{KnownTargets, known_of_context}
use di_pecs.Policy.Verdicts.{is_approved}
use di_pecs.Lifecycle.{
  LifecycleError, Adapter, validate_schema, proposal_for, dispatch, decide, review, get_decision,
  run_action, run_actions, run_intents, run,
}
use di_pecs.Lifecycle.Lookup.{
  tag, tag-here, tag-later, intent_verdicts, get-this_intent, get-next_intent,
  length-intent_verdicts,
}

abbrev pub is_valid : Option LifecycleError → Bool
is_valid none = true
is_valid (some _) = false

module _ (fl : Floats) (w : ℕ) (at_ms : ℤ) where
  open fl use {F32}

  -- The actions that pass the schema check and are approved, sealed, in front of `done`: the latest
  -- first.
  abbrev pub sealed_actions :
      Intent F32
      → ℕ
      → ℕ
      → List SuggestedAction
      → List PolicyVerdict
      → List AuthorizedAction
      → List AuthorizedAction
  sealed_actions intent i j (action ∷ actions) (v ∷ vs) done =
      let proposal = proposal_for fl w at_ms intent i j action in
      sealed_actions intent i (suc j) actions vs (
        if is_valid (validate_schema proposal intent.risk_level) && is_approved v
        then seal proposal at_ms ∷ done
        else done)
  sealed_actions intent i j _ _ done = done

  -- The same over the intents, where `verdicts` has the verdicts on the actions of an intent.
  abbrev pub sealed_intents :
      (ℕ → Intent F32 → List PolicyVerdict)
      → ℕ
      → List (Intent F32)
      → List AuthorizedAction
      → List AuthorizedAction
  sealed_intents verdicts i [] done = done
  sealed_intents verdicts i (intent ∷ intents) done =
      sealed_intents verdicts (suc i) intents
        (sealed_actions intent i 0 intent.suggested_actions (verdicts (u32 i) intent) done)

-- The ordinals of a batch fit in 32 bits.
abbrev pub FitsU32 : {F : Type 0} → List (Intent F) → Type 0
FitsU32 intents =
    (length intents ≤ 4294967296)
    × All (λ intent. length intent.suggested_actions ≤ 4294967296) intents

module _ (lifecycle_text : LifecycleError → String) (adapter_text : AdapterError → String)
    (adapter : Adapter) where
  done-review :
      (r : AuditRecord) (proposal : ActionProposal) (at_ms : ℤ) (backend_error : Option String)
      (e : Option LifecycleError) (v : PolicyVerdict) (done : List AuthorizedAction)
      → (review lifecycle_text adapter_text adapter r proposal at_ms backend_error e
          (some v)
          done).1
        ≡ (if is_valid e && is_approved v then seal proposal at_ms ∷ done else done)
  unfolding review decide dispatch
  done-review r proposal at_ms backend_error (some e) v done = refl
  done-review r proposal at_ms backend_error none PolicyVerdict.approved done = refl
  done-review r proposal at_ms backend_error none (PolicyVerdict.denied reason) done = refl

  module _ (fl : Floats) (w : ℕ) (at_ms : ℤ) (route : DecisionRoute) (backend_error : Option String)
      (tier : SourceTier) (find : ℕ → ℕ → Option PolicyVerdict) where
    open fl use {F32}

    run_actions-sealed :
        (intent : Intent F32) (i j : ℕ) (actions : List SuggestedAction) (vs : List PolicyVerdict)
        (done : List AuthorizedAction)
        → length vs ≡ length actions
        → j + length vs ≤ 4294967296
        → ((k : ℕ)
            → j ≤ k
            → k < 4294967296
            → find (u32 i) k ≡ get_decision (u32 i) k (tag (u32 i) j vs))
        → (run_actions lifecycle_text adapter_text adapter fl w at_ms route backend_error tier find
            intent i j actions done).1
          ≡ sealed_actions fl w at_ms intent i j actions vs done
    unfolding run_actions run_action
    run_actions-sealed intent i j [] vs done l b found = refl
    run_actions-sealed intent i j (a ∷ actions) [] done l b found = absurd (omega arith)
    run_actions-sealed intent i j (a ∷ actions) (v ∷ vs) done l b found =
        let e : find (u32 i) (u32 j) ≡ some v =
          found (u32 j) (omega arith) (omega arith) ∙ tag-here (u32 i) j v vs (omega arith) in
        run_actions-sealed intent i (suc j) actions vs _ (omega arith) (omega arith) (λ k h h'.
          found k (omega arith) h' ∙ tag-later (u32 i) j k v vs (omega arith) (omega arith))
        ∙ ap (sealed_actions fl w at_ms intent i (suc j) actions vs) (
            rw e (
              done-review (new_record (proposal_for fl w at_ms intent i j a) route tier)
                (proposal_for fl w at_ms intent i j a) at_ms backend_error
                (validate_schema (proposal_for fl w at_ms intent i j a) intent.risk_level) v done))

  module _ (fl : Floats) (config : PolicyConfig fl) (capability : CapabilityLevel)
      (known : Option KnownTargets) (tier : SourceTier) (w : ℕ) (at_ms : ℤ) (route : DecisionRoute)
      (backend_error : Option String) (find : ℕ → ℕ → Option PolicyVerdict) where
    open fl use {F32}

    run_intents-sealed :
        (n : ℕ) (intents : List (Intent F32)) (done : List AuthorizedAction)
        → n + length intents ≤ 4294967296
        → All (λ intent. length intent.suggested_actions ≤ 4294967296) intents
        → ((i k : ℕ)
            → n ≤ i
            → i < 4294967296
            → find i k
              ≡ get_decision i k (evaluate_intents fl config capability known tier n intents))
        → (run_intents lifecycle_text adapter_text adapter fl w at_ms route backend_error tier find
            n intents done).1
          ≡ sealed_intents fl w at_ms
              (intent_verdicts fl config capability known tier)
              n
              intents
              done
    unfolding run_intents
    run_intents-sealed n [] done b small found = refl
    run_intents-sealed n (intent ∷ intents) done b small found =
        run_intents-sealed (suc n) intents _ (omega arith) small.1 (λ i k h h'.
          found i k (omega arith) h'
          ∙ get-next_intent fl config capability known tier i n k intent intents h (omega arith))
        ∙ ap
            (sealed_intents fl w at_ms (intent_verdicts fl config capability known tier) (suc n)
              intents)
            (run_actions-sealed fl w at_ms route backend_error tier find intent n 0
              intent.suggested_actions
              (intent_verdicts fl config capability known tier (u32 n) intent) done
              (length-intent_verdicts fl config capability known tier (u32 n) intent)
              (omega (
                arith,
                small.0,
                length-intent_verdicts fl config capability known tier (u32 n) intent,
              ))
              (λ k _ _.
                found (u32 n) k (omega arith) (omega arith)
                ∙ get-this_intent fl config capability known tier n k intent intents (omega arith)))

  module _ (fl : Floats) (config : PolicyConfig fl) (w : ℕ) (batch : IntentBatch fl.F32)
      (route : DecisionRoute) (backend_error : Option String) (capability : CapabilityLevel)
      (ctx : StructuredContext) (done : List AuthorizedAction) where
    -- the verdicts that the policy gives to an intent's actions in this context
    abbrev pub context_verdicts : ℕ → Intent fl.F32 → List PolicyVerdict
    context_verdicts =
        intent_verdicts fl config capability (some (known_of_context ctx)) ctx.summary.source_tier

    -- In a batch whose ordinals fit in 32 bits the adapter is handed, in the order of the batch,
    -- exactly the actions that pass the schema check and that the policy approves, sealed from
    -- their proposals, and nothing else.
    pub run-sealed :
        FitsU32 batch.intents
        → (run lifecycle_text adapter_text adapter fl config w batch route backend_error capability
            ctx done).1
          ≡ sealed_intents fl w batch.generated_at_ms context_verdicts 0 batch.intents done
    unfolding run evaluate_batch_with_context
    run-sealed small =
        run_intents-sealed fl config capability (some (known_of_context ctx))
          ctx.summary.source_tier w batch.generated_at_ms route backend_error _ 0 batch.intents done
          (omega arith) small.1 (λ i k _ _. refl)
