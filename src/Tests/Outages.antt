-- ===== src/Tests/Outages.antt =====
-- The router with the program's backends, while the cloud cannot be reached.
use di_pecs.Base.{ℕ, ◌≡◌, refl, false, none, some, List, [], ◌∷◌, arith, length, map}
use di_pecs.Spec.Context.{StructuredContext, current_only}
use di_pecs.Spec.Event.{SemanticHint}
use di_pecs.Spec.Sanitized.{SanitizedEventType, notification}
use di_pecs.Router.Signals.{
  count_unique_semantic_hint_types, has_local_actionable_signal, privacy_score, collect_hints,
}
use di_pecs.Router.{
  Backend, DecisionRouter, RoutingReason, add_tag, reason_tag, cutoff, default_router_config,
  evaluate_model_input, with_user,
}
use di_pecs.Router.Breaker.{
  Call, IsForCloud, IsOutage, IsRecent, answers, outage_trips, rules_batch, state_after,
}
use di_pecs.Backend.Fallback
use di_pecs.Backend.RuleBased
use di_pecs.Cloud.Client
use di_pecs.Cloud.Client.{Reply, payload_of, request_intents, result_of}
use di_pecs.Local.Evaluator
use di_pecs.Tests.Locals.{as_held, new_ids, shifted, shifted_arithmetic}
use di_pecs.Tests.Models.{from_json, plain_texts}
use di_pecs.Tests.Routing.{noon}
use di_pecs.Tests.Samples.{context, event, plain}
use di_pecs.Window.{push_new_hints, push_new_hint, hint_rank}

-- no request gets through
abbrev unreachable : Backend ℕ
unreachable =
    Client.evaluate_model_input plain_texts shifted from_json new_ids "m"
      (λ given. Reply.unsent "timeout") 5

abbrev online : DecisionRouter ℕ
online = record {
  config = default_router_config;
  rule_based = λ given. RuleBased.evaluate shifted new_ids 0 given.current_context;
  local_evaluator =
      Evaluator.evaluate_model_input plain_texts shifted shifted_arithmetic as_held new_ids 0;
  fallback = λ given. Fallback.evaluate shifted new_ids 0 given.current_context;
  cloud_llm = some unreachable;
  cloud_disabled = false;
  cloud_misconfigured = none;
  runtime_user_id = some "u";
}

abbrev invitation : SanitizedEventType
invitation =
    notification "com.chat" none none plain plain
      (SemanticHint.user_mentioned ∷ SemanticHint.calendar_invitation ∷ []) false none

-- a window with an invitation, which is a matter for the cloud
abbrev invited : StructuredContext
invited = record context { events = event invitation ∷ [] }

abbrev call : Call
call = (noon, current_only invited)

abbrev five_calls : List Call
five_calls = call ∷ call ∷ call ∷ call ∷ call ∷ []

invited-IsForCloud : IsForCloud 3 invited
unfolding privacy_score has_local_actionable_signal count_unique_semantic_hint_types collect_hints
    push_new_hints push_new_hint hint_rank
invited-IsForCloud = (omega arith, refl, omega arith)

call-IsOutage : IsOutage ℕ online unreachable call
unfolding current_only Client.evaluate_model_input result_of request_intents payload_of
call-IsOutage = (invited-IsForCloud, refl)

near : IsRecent 60 50000000000 call
unfolding cutoff
near = (omega arith, omega arith)

outage_trips_example :
    let answer = online.fallback (with_user online.runtime_user_id (current_only context)) in
    let tag = reason_tag (RoutingReason.circuit_breaker_tripped 5) in
    (answers ℕ online [] five_calls ≡ map (rules_batch ℕ online) five_calls)
    × (length (state_after ℕ online [] five_calls) ≡ 5)
    × (evaluate_model_input ℕ online noon
          (state_after ℕ online [] five_calls)
          (current_only context)
        ≡ (record answer { rationale_tags = add_tag answer.rationale_tags tag }, []))
unfolding cutoff
outage_trips_example =
    outage_trips ℕ online unreachable 50000000000 five_calls noon (current_only context) refl
      (call-IsOutage, (call-IsOutage, (call-IsOutage, (call-IsOutage, (call-IsOutage, tt)))))
      (near, (near, (near, (near, (near, tt))))) (omega arith) refl (omega arith)
