-- ===== src/Backend/Safety.antt =====
-- The answers of these backends pass the policy.
use di_pecs.Base.{
  ℕ, ◌≤◌, ◌≡◌, ◌≢◌, String, true, false, Option, none, some, List, [], ◌∷◌, arith, All,
}
use di_pecs.Base.Text.{member, eq_refl}
use di_pecs.Base.Floats.{Floats}
use di_pecs.Spec.Sanitized.{SanitizedEvent}
use di_pecs.Spec.Context.{StructuredContext}
use di_pecs.Spec.Governance.{PolicyVerdict}
use di_pecs.Spec.Intent.{ActionType, DecisionRoute, Intent, for_route, allows_action, allows_risk}
use di_pecs.Policy.Targets.{event_package, known_of_context, check_target}
use di_pecs.Policy.{
  PolicyConfig, default_config, is_blocked, check_known, check_action, check_intent, decide_action,
  evaluate_actions, evaluate_intent, evaluate_intents, evaluate_batch_with_context,
}
use di_pecs.Policy.Known.{notified-known, named-known}
use di_pecs.Backend.Signals.{OfPackage, All-named}
use di_pecs.Backend.RuleBased.{
  no_signals, scan, push, idle_rule, signalled_intents, generate_intents,
}
use di_pecs.Backend.Approval.{
  IsApprovable, IsPackageName, decisions_of_approvable, generate_intents-IsApprovable,
}
use di_pecs.Backend.Fallback
use di_pecs.Backend.RuleBased

-- Names of a listed set are known, if the set is.
known_names :
    (packages names : List String)
    → All IsPackageName names
    → ((pkg : String) → member names pkg ≡ true → member packages pkg ≡ true)
    → All (λ n. IsPackageName n × (member packages n ≡ true)) names
known_names packages [] h k = tt
known_names packages (n ∷ ns) h k = (
  (h.0, k n (ground (arith, eq_refl n))),
  known_names packages ns h.1 (λ pkg m. k pkg (ground arith)),
)

both_packages :
    (P Q : String → Type 0) (pkg : Option String)
    → OfPackage P pkg
    → OfPackage Q pkg
    → OfPackage (λ n. P n × Q n) pkg
both_packages P Q none h k = tt
both_packages P Q (some pkg) h k = (h, k)

both_events :
    (P Q : String → Type 0) (events : List SanitizedEvent)
    → All (λ e. OfPackage P (event_package e.event_type)) events
    → All (λ e. OfPackage Q (event_package e.event_type)) events
    → All (λ e. OfPackage (λ n. P n × Q n) (event_package e.event_type)) events
both_events P Q [] h k = tt
both_events P Q (e ∷ es) h k =
    (both_packages P Q (event_package e.event_type) h.0 k.0, both_events P Q es h.1 k.1)

module _ (fl : Floats) (ids : ℕ → String) (latency_us : ℕ) where
  open fl use {F32, lt, decimal, decimal_monotone}

  push-idle-some :
      (intents : List (Intent F32)) → push fl ids intents (idle_rule fl ids intents) ≢ []
  unfolding push
  push-idle-some [] e = cc
  push-idle-some (i ∷ is) e = cc

  generate_intents-some : (ctx : StructuredContext) → generate_intents fl ids ctx ≢ []
  unfolding generate_intents
  generate_intents-some ctx = push-idle-some (signalled_intents fl ids ctx)

  pub rule_based-IsApprovable :
      (ctx : StructuredContext)
      → All IsPackageName ctx.summary.notified_apps
      → All (λ e. OfPackage IsPackageName (event_package e.event_type)) ctx.events
      → ((scan no_signals ctx.events).has_file_mention ≡ true → ctx.summary.notified_apps ≢ [])
      → All
          (IsApprovable fl (known_of_context ctx) DecisionRoute.rule_based)
          (generate_intents fl ids ctx)
  rule_based-IsApprovable ctx notified packages mentioned =
      let known = known_of_context ctx in
      let IsListed = λ (n : String). member known.packages n ≡ true in
      generate_intents-IsApprovable fl known ids ctx
        (known_names known.packages ctx.summary.notified_apps notified (notified-known ctx))
        (both_events IsPackageName IsListed ctx.events packages
          (All-named IsListed ctx.events (named-known ctx)))
        mentioned

  -- In a window whose package names are neither empty nor start with `pkg:`, and which names a
  -- notifying app if a notification mentions a file, the rule-based backend proposes something, and
  -- the default policy approves every action that it proposes.
  pub rule_based-approved :
      (ctx : StructuredContext)
      → All IsPackageName ctx.summary.notified_apps
      → All (λ e. OfPackage IsPackageName (event_package e.event_type)) ctx.events
      → ((scan no_signals ctx.events).has_file_mention ≡ true → ctx.summary.notified_apps ≢ [])
      → let batch = (RuleBased.evaluate fl ids latency_us ctx).intent_batch in
        (batch.intents ≢ [])
        × All
            (λ d. d.verdict ≡ PolicyVerdict.approved)
            (evaluate_batch_with_context fl
              (default_config fl)
              batch
              (for_route DecisionRoute.rule_based)
              ctx)
  unfolding RuleBased.evaluate evaluate_batch_with_context
  rule_based-approved ctx notified packages mentioned = (
    generate_intents-some ctx,
    decisions_of_approvable fl (known_of_context ctx) DecisionRoute.rule_based 0
        ctx.summary.source_tier (generate_intents fl ids ctx)
        (rule_based-IsApprovable ctx notified packages mentioned),
  )

  -- The fallback proposes one action, and the policy approves it in every window and under every
  -- configuration that approves at least one action, does not block the NoOp and asks for no
  -- confidence above 1.
  pub fallback-approved :
      (ctx : StructuredContext) (config : PolicyConfig fl)
      → lt (decimal 100) config.min_confidence ≡ false
      → 1 ≤ config.max_actions_per_batch
      → is_blocked config.blocked_actions ActionType.no_op ≡ false
      → evaluate_batch_with_context fl config
          (Fallback.evaluate fl ids latency_us ctx).intent_batch
          (for_route DecisionRoute.fallback_no_op)
          ctx
        ≡ record { intent_ordinal = 0; action_ordinal = 0; verdict = PolicyVerdict.approved } ∷ []
  unfolding Fallback.evaluate evaluate_batch_with_context evaluate_intents evaluate_intent
      evaluate_actions decide_action check_intent check_action check_known check_target for_route
      allows_risk allows_action
  fallback-approved ctx config reachable cap unblocked = ground arith
