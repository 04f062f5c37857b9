-- ===== src/Lifecycle/Sanction.antt =====
-- Nothing reaches the adapter that the policy does not admit.
use di_pecs.Base.{
  ℕ, suc, ◌+◌, ◌≡◌, refl, sym, ap, ◌∙◌, Bool, true, false, Option, none, some, String, List, [],
  ◌∷◌, arith, u32, get_elem?, ◌&&◌, if◌then◌else◌, All,
}
use mathlib.Core.Path.{subst}
use native.Mathlib.Nat.{add-zero, zero-add}
use di_pecs.Base.Floats.{Floats}
use di_pecs.Spec.Context.{StructuredContext}
use di_pecs.Spec.Intent.{SuggestedAction, Intent, IntentBatch, DecisionRoute, CapabilityLevel}
use di_pecs.Spec.Governance.{AdapterError, AuthorizedAction, PolicyVerdict, seal}
use di_pecs.Policy.{PolicyConfig}
use di_pecs.Policy.Targets.{known_of_context}
use di_pecs.Policy.Approval.{IsAdmissible, approved-IsAdmissible}
use di_pecs.Policy.Verdicts.{is_approved}
use di_pecs.Lifecycle.{LifecycleError, Adapter, validate_schema, proposal_for, run}
use di_pecs.Lifecycle.Dispatch.{FitsU32, is_valid, sealed_actions, sealed_intents, run-sealed}
use di_pecs.Lifecycle.Lookup.{intent_verdicts}

All-if :
    (P : AuthorizedAction → Type 0) (b : Bool) (a : AuthorizedAction) (done : List AuthorizedAction)
    → (b ≡ true → P a)
    → All P done
    → All P (if b then a ∷ done else done)
All-if P true a done f h = (f refl, h)
All-if P false a done f h = h

module _ (fl : Floats) (config : PolicyConfig fl) (w : ℕ) (batch : IntentBatch fl.F32)
    (capability : CapabilityLevel) (ctx : StructuredContext) where
  open fl use {F32}

  -- The sealed action comes from an action of the batch that the policy admits in this context and
  -- that passes the schema check.
  pub record IsSanctioned (a : AuthorizedAction) : Type 0 where
    pub i : ℕ
    pub j : ℕ
    pub intent : Intent F32
    pub action : SuggestedAction
    pub at_intent : get_elem? batch.intents i ≡ some intent
    pub at_action : get_elem? intent.suggested_actions j ≡ some action
    pub is_sealed :
        a ≡ seal (proposal_for fl w batch.generated_at_ms intent i j action) batch.generated_at_ms
    pub schema :
        validate_schema
          (proposal_for fl w batch.generated_at_ms intent i j action)
          intent.risk_level
        ≡ none
    pub admissible : IsAdmissible fl config capability (some (known_of_context ctx)) intent action

  verdicts_at : ℕ → Intent F32 → List PolicyVerdict
  verdicts_at =
      intent_verdicts fl config capability (some (known_of_context ctx)) ctx.summary.source_tier

  sanction :
      (i j : ℕ) (intent : Intent F32) (action : SuggestedAction) (v : PolicyVerdict)
      → get_elem? batch.intents i ≡ some intent
      → get_elem? intent.suggested_actions j ≡ some action
      → get_elem? (verdicts_at (u32 i) intent) j ≡ some v
      → is_valid (
            validate_schema
              (proposal_for fl w batch.generated_at_ms intent i j action)
              intent.risk_level)
          && is_approved v
        ≡ true
      → IsSanctioned
          (seal (proposal_for fl w batch.generated_at_ms intent i j action) batch.generated_at_ms)
  unfolding verdicts_at
  sanction i j intent action (PolicyVerdict.denied r) at_i at_j at_v h = absurd (ground arith)
  sanction i j intent action PolicyVerdict.approved at_i at_j at_v h =
      let (found, at_k, admissible) =
        approved-IsAdmissible fl config capability (some (known_of_context ctx))
          ctx.summary.source_tier (u32 i) j intent at_v in
      record {
        i = i;
        j = j;
        intent = intent;
        action = action;
        at_intent = at_i;
        at_action = at_j;
        is_sealed = refl;
        schema = ground arith;
        admissible =
            subst (λ x. IsAdmissible fl config capability (some (known_of_context ctx)) intent x)
              (cc (at_k, at_j)) admissible;
      }

  sealed_actions-IsSanctioned :
      (i : ℕ) (intent : Intent F32) (j : ℕ) (actions : List SuggestedAction)
      (vs : List PolicyVerdict) (done : List AuthorizedAction)
      → get_elem? batch.intents i ≡ some intent
      → ((k : ℕ) → get_elem? actions k ≡ get_elem? intent.suggested_actions (j + k))
      → ((k : ℕ) → get_elem? vs k ≡ get_elem? (verdicts_at (u32 i) intent) (j + k))
      → All IsSanctioned done
      → All IsSanctioned (sealed_actions fl w batch.generated_at_ms intent i j actions vs done)
  sealed_actions-IsSanctioned i intent j [] vs done at_i same_a same_v h = h
  sealed_actions-IsSanctioned i intent j (a ∷ actions) [] done at_i same_a same_v h = h
  sealed_actions-IsSanctioned i intent j (a ∷ actions) (v ∷ vs) done at_i same_a same_v h =
      sealed_actions-IsSanctioned i intent (suc j) actions vs _ at_i
        (λ k. same_a (suc k) ∙ ap (get_elem? intent.suggested_actions) (omega arith))
        (λ k. same_v (suc k) ∙ ap (get_elem? (verdicts_at (u32 i) intent)) (omega arith))
        (All-if IsSanctioned _ _ done
          (sanction i j intent a v at_i
            (sym (same_a 0 ∙ ap (get_elem? intent.suggested_actions) (add-zero j)))
            (sym (same_v 0 ∙ ap (get_elem? (verdicts_at (u32 i) intent)) (add-zero j))))
          h)

  sealed_intents-IsSanctioned :
      (n : ℕ) (intents : List (Intent F32)) (done : List AuthorizedAction)
      → ((k : ℕ) → get_elem? intents k ≡ get_elem? batch.intents (n + k))
      → All IsSanctioned done
      → All IsSanctioned (sealed_intents fl w batch.generated_at_ms verdicts_at n intents done)
  sealed_intents-IsSanctioned n [] done same h = h
  sealed_intents-IsSanctioned n (intent ∷ intents) done same h =
      sealed_intents-IsSanctioned (suc n) intents _
        (λ k. same (suc k) ∙ ap (get_elem? batch.intents) (omega arith))
        (sealed_actions-IsSanctioned n intent 0 intent.suggested_actions
          (verdicts_at (u32 n) intent) done
          (sym (same 0 ∙ ap (get_elem? batch.intents) (add-zero n)))
          (λ k. ap (get_elem? intent.suggested_actions) (sym (zero-add k)))
          (λ k. ap (get_elem? (verdicts_at (u32 n) intent)) (sym (zero-add k))) h)

  -- Whatever the adapter answers, every action that a run hands to it comes from an action of the
  -- batch that passes the schema check and that the policy admits in the context: its risk,
  -- confidence, urgency, type and target all pass. The ordinals of the batch fit in 32 bits.
  pub run-IsSanctioned :
      (lifecycle_text : LifecycleError → String) (adapter_text : AdapterError → String)
      (adapter : Adapter) (route : DecisionRoute) (backend_error : Option String)
      → FitsU32 batch.intents
      → All IsSanctioned
          (run lifecycle_text adapter_text adapter fl config w batch route backend_error capability
            ctx []).1
  unfolding verdicts_at
  run-IsSanctioned lifecycle_text adapter_text adapter route backend_error small =
      subst (λ l. All IsSanctioned l)
        (sym (
          run-sealed lifecycle_text adapter_text adapter fl config w batch route backend_error
            capability ctx [] small))
        (sealed_intents-IsSanctioned 0 batch.intents []
          (λ k. ap (get_elem? batch.intents) (sym (zero-add k))) tt)
