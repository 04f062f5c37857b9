-- ===== src/Adapter/Reliable.antt =====
-- What the lifecycle makes of adapters that never fail on a well-formed action.
use di_pecs.Base.{
  ℕ, ◌≡◌, ◌≢◌, refl, true, false, Option, none, some, String, List, arith, not, ◌&&◌, All,
  Option-cases, inl, inr,
}
use di_pecs.Base.Int.{ℤ}
use di_pecs.Base.Floats.{Floats}
use di_pecs.Spec.Context.{StructuredContext}
use di_pecs.Spec.Intent.{
  ActionType, SuggestedAction, IntentBatch, DecisionRoute, DenialReason, RiskLevel, CapabilityLevel,
}
use di_pecs.Spec.Governance.{
  ActionOutcome, ActionProposal, ActionState, AdapterError, AuditRecord, AuthorizedAction,
  PolicyVerdict, new_record, seal, transition,
}
use di_pecs.Policy.{PolicyConfig}
use di_pecs.Lifecycle.{
  LifecycleError, Adapter, AdapterResult, validate_schema, proposal_for, settle, dispatch, decide,
  review, denial_to_terminal, is_prewarm, has_target, run,
}
use di_pecs.Lifecycle.Dispatch.{FitsU32}
use di_pecs.Lifecycle.Records.{AllGoodIn-of_all, run-All}
use di_pecs.Adapter.DefaultActionExecutor
use di_pecs.Adapter.OfflineAdapter

-- The adapter succeeds on every sealed proposal that passes the schema check.
abbrev pub IsReliable : Adapter → Type 0
IsReliable adapter =
    (done : List AuthorizedAction) (proposal : ActionProposal) (risk : RiskLevel) (at_ms : ℤ)
    → validate_schema proposal risk ≡ none
    → (outcome : ActionOutcome) × (adapter done (seal proposal at_ms) ≡ AdapterResult.ok outcome)

denial-not_failed : (reason : DenialReason) → denial_to_terminal reason ≢ ActionState.failed
unfolding denial_to_terminal
denial-not_failed DenialReason.risk_exceeds_capability e = cc
denial-not_failed DenialReason.action_capability_denied e = cc
denial-not_failed _ e = cc

module _ (lifecycle_text : LifecycleError → String) (adapter_text : AdapterError → String)
    (adapter : Adapter) (reliable : IsReliable adapter) where
  -- The record does not end in `Failed`.
  abbrev pub IsUnfailed : AuditRecord → Type 0
  IsUnfailed r = r.terminal ≢ ActionState.failed

  decide-IsUnfailed :
      (r : AuditRecord) (proposal : ActionProposal) (at_ms : ℤ) (backend_error : Option String)
      (risk : RiskLevel) (v : PolicyVerdict) (done : List AuthorizedAction)
      → validate_schema proposal risk ≡ none
      → IsUnfailed
          (decide lifecycle_text adapter_text adapter r proposal at_ms backend_error
            (some v)
            done).0
  unfolding decide dispatch
  decide-IsUnfailed r proposal at_ms backend_error risk PolicyVerdict.approved done valid =
      let (outcome, e) = reliable done proposal risk at_ms valid in rw (e, settle) (λ e'. cc)
  decide-IsUnfailed r proposal at_ms backend_error risk (PolicyVerdict.denied reason) done valid =
      denial-not_failed reason

  review-IsUnfailed :
      (r : AuditRecord) (proposal : ActionProposal) (at_ms : ℤ) (backend_error : Option String)
      (risk : RiskLevel) (v : PolicyVerdict) (done : List AuthorizedAction)
      → IsUnfailed
          (review lifecycle_text adapter_text adapter r proposal at_ms backend_error
            (validate_schema proposal risk)
            (some v)
            done).0
  unfolding review decide dispatch
  review-IsUnfailed r proposal at_ms backend_error risk v done =
      elim (Option-cases (validate_schema proposal risk)) [
        | inl e ↦
            rw (e, review)
              (decide-IsUnfailed (transition ActionState.schema_validated r) proposal at_ms
                backend_error risk v done e)
        | inr (error, e) ↦ rw (e, review) (λ e'. cc)
      ]

-- The adapters that do without a device, as the lifecycle sees them.
abbrev pub default_adapter : Adapter
default_adapter done authorized = DefaultActionExecutor.execute authorized

abbrev pub offline_adapter : Adapter
offline_adapter done authorized = OfflineAdapter.execute authorized

summarize_prewarm-ok :
    (action : SuggestedAction) (target : Option String)
    → has_target target ≡ true
    → (outcome : ActionOutcome) × (DefaultActionExecutor.summarize_prewarm action target
        ≡ AdapterResult.ok outcome)
summarize_prewarm-ok action none h = absurd (cc)
summarize_prewarm-ok action (some t) h = (_, refl)

execute_type-ok :
    (action : SuggestedAction) (action_type : ActionType)
    → is_prewarm action_type && not (has_target action.target) ≡ false
    → (outcome : ActionOutcome) × (DefaultActionExecutor.execute_type action action_type
        ≡ AdapterResult.ok outcome)
execute_type-ok action ActionType.pre_warm_process h =
    summarize_prewarm-ok action action.target (ground arith)
execute_type-ok action ActionType.prefetch_file h = (_, refl)
execute_type-ok action ActionType.keep_alive h = (_, refl)
execute_type-ok action ActionType.release_memory h = (_, refl)
execute_type-ok action ActionType.no_op h = (_, refl)

pub default-IsReliable : IsReliable default_adapter
unfolding DefaultActionExecutor.execute validate_schema
default-IsReliable done proposal risk at_ms h =
    execute_type-ok proposal.action proposal.action.action_type (ground arith)

pub offline-IsReliable : IsReliable offline_adapter
unfolding OfflineAdapter.execute
offline-IsReliable done proposal risk at_ms h = (_, refl)

-- The proof for both.
module _ (lifecycle_text : LifecycleError → String) (adapter_text : AdapterError → String)
    (fl : Floats) (config : PolicyConfig fl) (w : ℕ) (batch : IntentBatch fl.F32)
    (route : DecisionRoute) (backend_error : Option String) (capability : CapabilityLevel)
    (ctx : StructuredContext) (done : List AuthorizedAction) where
  run-IsUnfailed :
      (adapter : Adapter)
      → IsReliable adapter
      → FitsU32 batch.intents
      → All
          (λ r. r.terminal ≢ ActionState.failed)
          (run lifecycle_text adapter_text adapter fl config w batch route backend_error capability
            ctx done).0
  run-IsUnfailed adapter reliable small =
      run-All fl (λ intent a v. Unit) (λ r. r.terminal ≢ ActionState.failed) lifecycle_text
        adapter_text adapter config w batch route backend_error capability ctx done
        (λ intent i j a v done' good.
          let proposal = proposal_for fl w batch.generated_at_ms intent i j a in
          review-IsUnfailed lifecycle_text adapter_text adapter reliable
            (new_record proposal route ctx.summary.source_tier) proposal batch.generated_at_ms
            backend_error intent.risk_level v done')
        small
        (AllGoodIn-of_all fl (λ intent a v. Unit) (λ r. r.terminal ≢ ActionState.failed) config
          capability ctx batch.intents (λ intent a v. tt))

  -- With the default or the offline adapter no action of a run ends in `Failed`: the schema check
  -- keeps from them all that they cannot execute. The ordinals of the batch fit in 32 bits.
  pub replay-IsUnfailed :
      FitsU32 batch.intents
      → All
          (λ r. r.terminal ≢ ActionState.failed)
          (run lifecycle_text adapter_text default_adapter fl config w batch route backend_error
            capability ctx done).0
        × All
            (λ r. r.terminal ≢ ActionState.failed)
            (run lifecycle_text adapter_text offline_adapter fl config w batch route backend_error
              capability ctx done).0
  replay-IsUnfailed small = (
    run-IsUnfailed default_adapter default-IsReliable small,
    run-IsUnfailed offline_adapter offline-IsReliable small,
  )
