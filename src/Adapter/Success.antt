-- ===== src/Adapter/Success.antt =====
-- A whole window, from the rule-based backend to the audit records.
use di_pecs.Base.{
  ℕ, ◌+◌, ◌≤◌, ◌≡◌, ◌≢◌, refl, sym, String, true, false, Option, none, some, List, [], ◌∷◌, arith,
  length, length-append, All, map, first,
}
use mathlib.Core.Path.{subst}
use di_pecs.Base.Int.{ℤ}
use di_pecs.Base.Floats.{Floats}
use di_pecs.Spec.Event.{SourceTier}
use di_pecs.Spec.Context.{StructuredContext}
use di_pecs.Spec.Intent.{
  ActionType, DecisionRoute, Intent, RiskLevel, SuggestedAction, allows_action, for_route,
  risk_rank,
}
use di_pecs.Spec.Governance.{
  ActionProposal, ActionState, AdapterError, AuditRecord, AuthorizedAction, PolicyActionDecision,
  PolicyVerdict, new_record,
}
use di_pecs.Policy.{default_config}
use di_pecs.Policy.Targets.{KnownTargets, event_package, known_of_context}
use di_pecs.Policy.Approval.{IsAdmissible-of_checks}
use di_pecs.Lifecycle.{
  LifecycleError, Adapter, decide, dispatch, is_high, is_prewarm, proposal_for, review, run, settle,
  validate_schema,
}
use di_pecs.Lifecycle.Lookup.{intent_verdicts}
use di_pecs.Lifecycle.Records.{AllGood, run-All}
use di_pecs.Adapter.Reliable.{IsReliable}
use di_pecs.Backend.Signals.{OfPackage}
use di_pecs.Backend.RuleBased.{
  no_signals, scan, push, generate_intents, signalled_intents, notified_rule, foreground_rule,
  screen_rule, battery_rule, memory_rule, idle_rule,
}
use di_pecs.Backend.Approval.{IsPackageName, IsApprovable, decision_of_approvable}
use di_pecs.Backend.Safety.{rule_based-IsApprovable}
use di_pecs.Backend.RuleBased

not_prewarm :
    (t : ActionType)
    → allows_action (for_route DecisionRoute.rule_based) t ≡ true
    → is_prewarm t ≡ false
unfolding allows_action for_route
not_prewarm ActionType.pre_warm_process h = absurd (cc h)
not_prewarm ActionType.prefetch_file h = refl
not_prewarm ActionType.keep_alive h = refl
not_prewarm ActionType.release_memory h = refl
not_prewarm ActionType.no_op h = refl

not_high : (risk : RiskLevel) → risk_rank risk ≤ 0 → is_high risk ≡ false
not_high RiskLevel.low h = refl
not_high RiskLevel.medium h = refl
not_high RiskLevel.high h = absurd (omega (arith, h))

module _ (lifecycle_text : LifecycleError → String) (adapter_text : AdapterError → String)
    (adapter : Adapter) (reliable : IsReliable adapter) where
  succeeds :
      (r : AuditRecord) (proposal : ActionProposal) (at_ms : ℤ) (backend_error : Option String)
      (risk : RiskLevel) (done : List AuthorizedAction)
      → validate_schema proposal risk ≡ none
      → (review lifecycle_text adapter_text adapter r proposal at_ms backend_error
          (validate_schema proposal risk)
          (some PolicyVerdict.approved)
          done).0.terminal
        ≡ ActionState.succeeded
  unfolding review decide dispatch
  succeeds r proposal at_ms backend_error risk done valid =
      let (outcome, e) = reliable done proposal risk at_ms valid in
      rw (valid, review) (rw (e, settle) refl)

-- The length of what the rules propose.
module _ (fl : Floats) (ids : ℕ → String) where
  length-push :
      (intents : List (Intent fl.F32)) (rule : Option (String → Intent fl.F32))
      → length (push fl ids intents rule) ≤ length intents + 1
  unfolding push
  length-push intents none = omega arith
  length-push intents (some intent) =
      omega (arith, length-append intents (intent (ids (length intents)) ∷ []))

  length-generate_intents : (ctx : StructuredContext) → length (generate_intents fl ids ctx) ≤ 6
  unfolding generate_intents signalled_intents
  length-generate_intents ctx =
      let s = scan no_signals ctx.events in
      let l1 =
        push fl ids []
          (notified_rule fl ids s.has_file_mention (first ctx.summary.notified_apps)) in
      let l2 = push fl ids l1 (foreground_rule fl ids (first s.observed_foreground_apps)) in
      let l3 = push fl ids l2 (screen_rule fl ids s.has_screen_on) in
      let l4 = push fl ids l3 (battery_rule fl ids s.is_low_battery) in
      let l5 = push fl ids l4 (memory_rule fl ids s.memory_pressure) in
      omega (
        arith,
        length-push [] (notified_rule fl ids s.has_file_mention (first ctx.summary.notified_apps)),
        length-push l1 (foreground_rule fl ids (first s.observed_foreground_apps)),
        length-push l2 (screen_rule fl ids s.has_screen_on),
        length-push l3 (battery_rule fl ids s.is_low_battery),
        length-push l4 (memory_rule fl ids s.memory_pressure),
        length-push l5 (idle_rule fl ids l5),
      )

-- The verdict is an approval, and the action passes the schema check.
abbrev IsSuccess : {F : Type 0} → Intent F → SuggestedAction → PolicyVerdict → Type 0
IsSuccess intent action v =
    (v ≡ PolicyVerdict.approved)
    × (is_prewarm action.action_type ≡ false)
    × (is_high intent.risk_level ≡ false)

abbrev IsExecuted : AuditRecord → Type 0
IsExecuted r = r.terminal ≡ ActionState.succeeded

module _ (fl : Floats) (known : KnownTargets) (tier : SourceTier) where
  IsSuccess-of_verdicts :
      (intent : Intent fl.F32) (actions : List SuggestedAction) (ds : List PolicyActionDecision)
      → All (λ a. is_prewarm a.action_type ≡ false) actions
      → is_high intent.risk_level ≡ false
      → All (λ d. d.verdict ≡ PolicyVerdict.approved) ds
      → AllGood fl IsSuccess IsExecuted intent actions (map (λ d. d.verdict) ds)
  IsSuccess-of_verdicts intent [] ds h k g = tt
  IsSuccess-of_verdicts intent (a ∷ actions) [] h k g = tt
  IsSuccess-of_verdicts intent (a ∷ actions) (d ∷ ds) h k g =
      ((g.0, h.0, k), IsSuccess-of_verdicts intent actions ds h.1 k g.1)

  IsSuccess-of_approvable :
      (intent : Intent fl.F32) (i : ℕ)
      → IsApprovable fl known DecisionRoute.rule_based intent
      → AllGood fl IsSuccess IsExecuted intent intent.suggested_actions (
          intent_verdicts fl
            (default_config fl)
            (for_route DecisionRoute.rule_based)
            (some known)
            tier
            i
            intent)
  unfolding for_route
  IsSuccess-of_approvable intent i (action, one, sound, passes) =
      let ok =
        IsAdmissible-of_checks fl (default_config fl) (for_route DecisionRoute.rule_based)
          (some known) intent action sound passes in
      IsSuccess-of_verdicts intent intent.suggested_actions _
        (subst (λ l. All (λ a. is_prewarm a.action_type ≡ false) l) (sym one)
          (not_prewarm action.action_type ok.allowed, tt))
        (not_high intent.risk_level ok.within_config)
        (decision_of_approvable fl known DecisionRoute.rule_based i tier intent
          (action, one, sound, passes))

  small_of_approvable :
      (intents : List (Intent fl.F32))
      → All (IsApprovable fl known DecisionRoute.rule_based) intents
      → All (λ intent. length intent.suggested_actions ≤ 4294967296) intents
        × All
            (λ intent.
              (i : ℕ)
              → AllGood fl IsSuccess IsExecuted intent intent.suggested_actions (
                  intent_verdicts fl
                    (default_config fl)
                    (for_route DecisionRoute.rule_based)
                    (some known)
                    tier
                    i
                    intent))
            intents
  small_of_approvable [] h = (tt, tt)
  small_of_approvable (intent ∷ intents) h =
      let (small, good) = small_of_approvable intents h.1 in
      ((rw (h.0.1) (omega arith), small), (λ i. IsSuccess-of_approvable intent i h.0, good))

module _ (lifecycle_text : LifecycleError → String) (adapter_text : AdapterError → String)
    (adapter : Adapter) (fl : Floats) (ids : ℕ → String) (latency_us w : ℕ)
    (backend_error : Option String) (done : List AuthorizedAction) where
  -- In a window whose package names are neither empty nor start with `pkg:`, and which names a
  -- notifying app if a notification mentions a file, everything that the rule-based backend proposes
  -- is executed under the default policy: each record of the run ends in `Succeeded`, with any adapter
  -- that succeeds on what passes the schema check.
  pub rule_based-run :
      IsReliable adapter
      → (ctx : StructuredContext) → All IsPackageName ctx.summary.notified_apps
      → All (λ e. OfPackage IsPackageName (event_package e.event_type)) ctx.events
      → ((scan no_signals ctx.events).has_file_mention ≡ true → ctx.summary.notified_apps ≢ [])
      → All
          (λ r. r.terminal ≡ ActionState.succeeded)
          (run lifecycle_text adapter_text adapter fl
            (default_config fl)
            w
            (RuleBased.evaluate fl ids latency_us ctx).intent_batch
            DecisionRoute.rule_based
            backend_error
            (for_route DecisionRoute.rule_based)
            ctx
            done).0
  unfolding RuleBased.evaluate validate_schema
  rule_based-run reliable ctx notified packages mentioned =
      let batch = (RuleBased.evaluate fl ids latency_us ctx).intent_batch in
      let (small, good) =
        small_of_approvable fl (known_of_context ctx) ctx.summary.source_tier
          (generate_intents fl ids ctx)
          (rule_based-IsApprovable fl ids latency_us ctx notified packages mentioned) in
      run-All fl IsSuccess IsExecuted lifecycle_text adapter_text adapter (default_config fl) w
        batch DecisionRoute.rule_based backend_error (for_route DecisionRoute.rule_based) ctx done
        (λ intent i j a v done' g.
          let proposal = proposal_for fl w batch.generated_at_ms intent i j a in
          rw (g.0) (
            succeeds lifecycle_text adapter_text adapter reliable
              (new_record proposal DecisionRoute.rule_based ctx.summary.source_tier) proposal
              batch.generated_at_ms backend_error intent.risk_level done'
              (ground (arith, g.1, g.2))))
        (omega (arith, length-generate_intents fl ids ctx), small) good
