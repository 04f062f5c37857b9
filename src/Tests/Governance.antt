-- ===== src/Tests/Governance.antt =====
-- The policy and the lifecycle on the sample batch.
use di_pecs.Base.{◌≡◌, ◌≢◌, refl, String, none, some, [], ◌∷◌, arith, map, get_elem?, count_if, All}
use di_pecs.Base.Text.{strip_prefix}
use di_pecs.Base.Floats.{hundredths}
use di_pecs.Spec.Event.{SourceTier}
use di_pecs.Spec.Intent.{
  CapabilityLevel, DecisionRoute, SuggestedAction, for_route, allows_action, allows_risk,
}
use di_pecs.Spec.Governance.{ActionState, PolicyVerdict}
use di_pecs.Policy.Targets.{
  known_of_context, insert_events, insert_each, insert_option, insert, check_target,
  is_allowed_low_risk_target, is_known_target, is_free_target,
}
use di_pecs.Policy.{
  default_config, is_blocked, check_known, check_action, check_intent, decide_action,
  evaluate_actions, evaluate_intent, evaluate_batch_with_context,
}
use di_pecs.Policy.Coverage.{batch_with_context-coords, batch_coords, coord_of}
use di_pecs.Policy.Verdicts.{
  evaluate_intent-verdict, evaluate_intent-count, action_verdict, passes, is_approved,
}
use di_pecs.Policy.Approval.{IsAdmissible, approved-IsAdmissible}
use di_pecs.Lifecycle.{run}
use di_pecs.Lifecycle.Path.{IsFinished}
use di_pecs.Lifecycle.Audit.{run-IsFinished, coords-run, at_window}
use di_pecs.Lifecycle.Dispatch.{FitsU32, run-sealed, sealed_intents, context_verdicts}
use di_pecs.Lifecycle.Sanction.{IsSanctioned, run-IsSanctioned}
use di_pecs.Adapter.Reliable.{default_adapter, offline_adapter, replay-IsUnfailed}
use di_pecs.Tests.Samples.{context, batch, open_mail, keep_mail, warm_later}

abbrev no_text : {A : Type 0} → A → String
no_text x = "error"

abbrev local : CapabilityLevel
local = for_route DecisionRoute.local_evaluator

small : FitsU32 batch.intents
small = (omega arith, (omega arith, (omega arith, tt)))

run-IsSanctioned_example :
    All
      (IsSanctioned hundredths (default_config hundredths) 7 batch local context)
      (run no_text no_text default_adapter hundredths
        (default_config hundredths)
        7
        batch
        DecisionRoute.local_evaluator
        none
        local
        context
        []).1
run-IsSanctioned_example =
    run-IsSanctioned hundredths (default_config hundredths) 7 batch local context no_text no_text
      default_adapter DecisionRoute.local_evaluator none small

run-sealed_example :
    (run no_text no_text offline_adapter hundredths
      (default_config hundredths)
      7
      batch
      DecisionRoute.local_evaluator
      none
      local
      context
      []).1
    ≡ sealed_intents hundredths 7 batch.generated_at_ms
        (context_verdicts no_text no_text offline_adapter hundredths
          (default_config hundredths)
          7
          batch
          DecisionRoute.local_evaluator
          none
          local
          context
          [])
        0
        batch.intents
        []
run-sealed_example =
    run-sealed no_text no_text offline_adapter hundredths (default_config hundredths) 7 batch
      DecisionRoute.local_evaluator none local context [] small

run-IsFinished_example :
    All IsFinished
      (run no_text no_text default_adapter hundredths
        (default_config hundredths)
        7
        batch
        DecisionRoute.local_evaluator
        (some "late")
        local
        context
        []).0
run-IsFinished_example =
    run-IsFinished no_text no_text default_adapter hundredths (default_config hundredths) 7 batch
      DecisionRoute.local_evaluator (some "late") local context []

coords-run_example :
    map
      (λ r. r.coord)
      (run no_text no_text default_adapter hundredths
        (default_config hundredths)
        7
        batch
        DecisionRoute.local_evaluator
        none
        local
        context
        []).0
    ≡ map (at_window 7) (batch_coords 0 batch.intents)
coords-run_example =
    coords-run no_text no_text default_adapter hundredths (default_config hundredths) 7 batch
      DecisionRoute.local_evaluator none local context []

replay-IsUnfailed_example :
    All
      (λ r. r.terminal ≢ ActionState.failed)
      (run no_text no_text default_adapter hundredths
        (default_config hundredths)
        7
        batch
        DecisionRoute.local_evaluator
        none
        local
        context
        []).0
    × All
        (λ r. r.terminal ≢ ActionState.failed)
        (run no_text no_text offline_adapter hundredths
          (default_config hundredths)
          7
          batch
          DecisionRoute.local_evaluator
          none
          local
          context
          []).0
replay-IsUnfailed_example =
    replay-IsUnfailed no_text no_text hundredths (default_config hundredths) 7 batch
      DecisionRoute.local_evaluator none local context [] small

first_is_approved :
    get_elem?
      (map
        (λ d. d.verdict)
        (evaluate_intent hundredths
          (default_config hundredths)
          open_mail
          0
          local
          (some (known_of_context context))
          SourceTier.public_api))
      2
    ≡ some PolicyVerdict.approved
unfolding context evaluate_intent evaluate_actions decide_action check_action check_intent
    check_known check_target is_allowed_low_risk_target is_known_target is_free_target is_blocked
    for_route allows_action allows_risk known_of_context insert_events insert_each insert_option
    insert strip_prefix
first_is_approved = refl

approved-IsAdmissible_example :
    (action : SuggestedAction) × (get_elem? open_mail.suggested_actions 2 ≡ some action)
    × IsAdmissible hundredths
        (default_config hundredths)
        local
        (some (known_of_context context))
        open_mail
        action
approved-IsAdmissible_example =
    approved-IsAdmissible hundredths (default_config hundredths) local
      (some (known_of_context context)) SourceTier.public_api 0 2 open_mail first_is_approved

open_mail_is_sound : check_intent hundredths (default_config hundredths) local open_mail ≡ none
unfolding check_intent for_route allows_risk
open_mail_is_sound = refl

evaluate_intent-verdict_example :
    get_elem?
      (map
        (λ d. d.verdict)
        (evaluate_intent hundredths
          (default_config hundredths)
          open_mail
          0
          local
          (some (known_of_context context))
          SourceTier.public_api))
      1
    ≡ some (
        action_verdict hundredths
          (default_config hundredths)
          local
          (some (known_of_context context))
          (count_if
            (passes hundredths (default_config hundredths) local (some (known_of_context context)))
            (keep_mail ∷ []))
          warm_later)
evaluate_intent-verdict_example =
    evaluate_intent-verdict hundredths (default_config hundredths) local
      (some (known_of_context context)) SourceTier.public_api 0 open_mail (keep_mail ∷ [])
      (keep_mail ∷ []) warm_later open_mail_is_sound refl

evaluate_intent-count_example :
    count_if is_approved (
      map
        (λ d. d.verdict)
        (evaluate_intent hundredths
          (default_config hundredths)
          open_mail
          0
          local
          (some (known_of_context context))
          SourceTier.public_api))
    ≡ 2
unfolding context check_action check_intent check_known check_target is_allowed_low_risk_target
    is_known_target is_free_target is_blocked for_route allows_action allows_risk known_of_context
    insert_events insert_each insert_option insert strip_prefix
evaluate_intent-count_example =
    evaluate_intent-count hundredths (default_config hundredths) local
      (some (known_of_context context)) SourceTier.public_api 0 open_mail

batch_with_context-coords_example :
    map coord_of
      (evaluate_batch_with_context hundredths (default_config hundredths) batch local context)
    ≡ (0, 0) ∷ (0, 1) ∷ (0, 2) ∷ (1, 0) ∷ []
batch_with_context-coords_example =
    batch_with_context-coords hundredths (default_config hundredths) local batch context
