-- ===== src/Backend/Fallback.antt =====
-- crates/aios-agent/src/backends/fallback.rs: the answer behind an open circuit breaker.
use di_pecs.Base.{String, none, some, [], ◌∷◌, ℕ}
use di_pecs.Base.Floats.{Floats}
use di_pecs.Spec.Context.{StructuredContext}
use di_pecs.Spec.Intent.{
  ActionType, ActionUrgency, DecisionBackendResult, DecisionRoute, IntentType, RiskLevel,
}

module _ (fl : Floats) (ids : ℕ → String) (latency_us : ℕ) where
  open fl use {F32, decimal}

  -- `FallbackNoOpBackend::evaluate`
  unfoldable pub evaluate : StructuredContext → DecisionBackendResult F32
  evaluate context = record {
    route = DecisionRoute.fallback_no_op;
    intent_batch = record {
      window_id = context.window_id;
      intents =
          record {
            intent_id = ids 0;
            intent_type = IntentType.idle;
            confidence = decimal 100;
            risk_level = RiskLevel.low;
            suggested_actions =
                record {
                  action_type = ActionType.no_op;
                  target = none;
                  urgency = ActionUrgency.idle_time;
                }
                ∷ [];
            rationale_tags = "fallback_noop" ∷ [];
          }
          ∷ [];
      generated_at_ms = context.window_end_ms;
      model = "fallback-noop-v0.1";
    };
    rationale_tags = "fallback_noop" ∷ [];
    latency_us = latency_us;
    error = some "circuit breaker engaged — falling back to no-op";
  }
