-- ===== src/Tests/Routing.antt =====
-- The router and the backends on the sample window.
use di_pecs.Base.{
  ℕ, ◌≡◌, ◌≢◌, refl, String, true, none, some, [], ◌∷◌, arith, All, inl, inr, is_empty, ◌&&◌, ◌||◌,
  ◌++◌,
}
use di_pecs.Base.Text.{member, strip_prefix}
use di_pecs.Base.Floats.{hundredths}
use di_pecs.Spec.Context.{ModelInput, current_only}
use di_pecs.Spec.Governance.{ActionState, PolicyVerdict}
use di_pecs.Spec.Intent.{DecisionBackendResult, DecisionRoute, for_route}
use di_pecs.Router.Signals.{has_local_actionable_signal}
use di_pecs.Router.{
  Backend, Clock, DecisionRouter, default_router_config, evaluate_model_input, merge_results,
}
use di_pecs.Router.Privacy.{evaluate_blind, with_cloud}
use di_pecs.Router.Merge.{busy, merge_results-keeps}
use di_pecs.Policy.{default_config, is_blocked, evaluate_batch_with_context}
use di_pecs.Backend.RuleBased.{no_signals, observe, scan}
use di_pecs.Backend.Approval.{IsPackageName}
use di_pecs.Backend.Safety.{rule_based-approved, fallback-approved}
use di_pecs.Backend.Fallback
use di_pecs.Backend.RuleBased
use di_pecs.Lifecycle.{run}
use di_pecs.Adapter.Reliable.{default_adapter, default-IsReliable}
use di_pecs.Adapter.Success.{rule_based-run}
use di_pecs.Tests.Samples.{context}

abbrev ids : ℕ → String
ids k = "i"

abbrev input : ModelInput
unfolding current_only context
input = current_only context

-- a backend that fails on every input
abbrev pub broken : Backend ℕ
unfolding Fallback.evaluate
broken given = Fallback.evaluate hundredths ids 0 given.current_context

abbrev pub router : DecisionRouter ℕ
router = record {
  config = default_router_config;
  rule_based = broken;
  local_evaluator = broken;
  fallback = broken;
  cloud_llm = none;
  cloud_disabled = true;
  cloud_misconfigured = none;
  runtime_user_id = some "u";
}

-- a clock that stands still
abbrev pub noon : Clock
noon = record { now = 100000000000; now_again = 100000000000; now_recording = 100000000000 }

evaluate_blind_example :
    evaluate_model_input ℕ (with_cloud ℕ router (some broken)) noon [] (current_only context)
    ≡ evaluate_model_input ℕ router noon [] (current_only context)
unfolding has_local_actionable_signal current_only context
evaluate_blind_example =
    evaluate_blind ℕ router noon [] (current_only context) (some broken) (inr (inl refl))

chat_is_package : IsPackageName "com.chat"
unfolding strip_prefix
chat_is_package = record { not_empty = refl; no_prefix = refl }

mail_is_package : IsPackageName "com.mail"
unfolding strip_prefix
mail_is_package = record { not_empty = refl; no_prefix = refl }

rule_based-approved_example :
    let proposed = (RuleBased.evaluate hundredths ids 3 context).intent_batch in
    (proposed.intents ≢ [])
    × All
        (λ d. d.verdict ≡ PolicyVerdict.approved)
        (evaluate_batch_with_context hundredths
          (default_config hundredths)
          proposed
          (for_route DecisionRoute.rule_based)
          context)
unfolding context
rule_based-approved_example =
    rule_based-approved hundredths ids 3 context (chat_is_package, tt)
      (chat_is_package, (mail_is_package, (tt, tt))) (λ mentioned e. absurd (cc))

fallback-approved_example :
    evaluate_batch_with_context hundredths
      (default_config hundredths)
      (Fallback.evaluate hundredths ids 3 context).intent_batch
      (for_route DecisionRoute.fallback_no_op)
      context
    ≡ record { intent_ordinal = 0; action_ordinal = 0; verdict = PolicyVerdict.approved } ∷ []
unfolding is_blocked
fallback-approved_example =
    fallback-approved hundredths ids 3 context (default_config hundredths) refl (omega arith) refl

abbrev guessed : DecisionBackendResult ℕ
unfolding RuleBased.evaluate RuleBased.generate_intents RuleBased.signalled_intents RuleBased.push
    scan observe context
guessed = RuleBased.evaluate hundredths ids 3 context

abbrev idle : DecisionBackendResult ℕ
unfolding Fallback.evaluate
idle = Fallback.evaluate hundredths ids 2 context

merge_results-keeps_example :
    (busy ℕ (merge_results ℕ (current_only context) guessed idle).intent_batch.intents
      ≡ busy ℕ guessed.intent_batch.intents ++ busy ℕ idle.intent_batch.intents)
    × (is_empty (merge_results ℕ (current_only context) guessed idle).intent_batch.intents
        ≡ (is_empty guessed.intent_batch.intents && is_empty idle.intent_batch.intents))
    × ((tag : String)
        → member (merge_results ℕ (current_only context) guessed idle).rationale_tags tag
          ≡ (member guessed.rationale_tags tag || member idle.rationale_tags tag))
merge_results-keeps_example = merge_results-keeps ℕ (current_only context) guessed idle

abbrev untold : {A : Type 0} → A → String
untold x = "error"

rule_based-run_example :
    All
      (λ r. r.terminal ≡ ActionState.succeeded)
      (run untold untold default_adapter hundredths
        (default_config hundredths)
        7
        (RuleBased.evaluate hundredths ids 3 context).intent_batch
        DecisionRoute.rule_based
        none
        (for_route DecisionRoute.rule_based)
        context
        []).0
unfolding context
rule_based-run_example =
    rule_based-run untold untold default_adapter hundredths ids 3 7 none [] default-IsReliable
      context (chat_is_package, tt) (chat_is_package, (mail_is_package, (tt, tt)))
      (λ mentioned e. absurd (cc))
