-- ===== src/Router/Privacy.antt =====
-- When a cloud backend can have a say.
use di_pecs.Base.{
  ℕ, ◌≤◌, ◌<◌, ◌≡◌, ◌≢◌, refl, true, false, Option, none, ◌⊎◌, ◌↔◌, inl, inr, arith, Option-cases,
}
use di_pecs.Spec.Context.{StructuredContext, ModelInput}
use di_pecs.Spec.Intent.{DecisionRoute}
use di_pecs.Router.Signals.{
  count_unique_semantic_hint_types, has_local_actionable_signal, privacy_score,
}
use di_pecs.Router.{
  CircuitState, Clock, Backend, DecisionRouter, count_recent_errors, cloud_route_or_fallback,
  determine_route, consult, with_user, evaluate_model_input,
}

-- The windows that are kept from the cloud.
abbrev pub IsConfined : ℕ → StructuredContext → Type 0
IsConfined threshold ctx =
    (threshold < privacy_score ctx.events)
    ⊎ (has_local_actionable_signal ctx.events ≡ true)
    ⊎ (count_unique_semantic_hint_types ctx.events ≤ 1)

module _ (F : Type 0) (r : DecisionRouter F) where
  -- with another cloud backend, or none
  abbrev pub with_cloud : Option (Backend F) → DecisionRouter F
  with_cloud cloud = record r { cloud_llm = cloud }

  pub determine_route-cloud_iff :
      (errors : ℕ) (ctx : StructuredContext)
      → ((determine_route F r errors ctx).0 ≡ DecisionRoute.cloud_llm) ↔ (
          (errors < r.config.circuit_breaker_threshold)
          × (privacy_score ctx.events ≤ r.config.privacy_score_threshold)
          × (has_local_actionable_signal ctx.events ≡ false)
          × (2 ≤ count_unique_semantic_hint_types ctx.events)
          × (r.cloud_llm ≢ none))
  unfolding determine_route cloud_route_or_fallback
  determine_route-cloud_iff errors ctx = elim (Option-cases r.cloud_llm) [
    | inl e ↦ rw (e, determine_route) (ground arith)
    | inr (b, e) ↦ rw (e, determine_route) (ground arith)
  ]

  determine_route-with_cloud :
      (errors : ℕ) (ctx : StructuredContext) (cloud : Option (Backend F))
      → IsConfined r.config.privacy_score_threshold ctx
      → determine_route F (with_cloud cloud) errors ctx ≡ determine_route F r errors ctx
  unfolding determine_route
  determine_route-with_cloud errors ctx cloud h = ground arith

  determine_route-confined :
      (errors : ℕ) (ctx : StructuredContext)
      → IsConfined r.config.privacy_score_threshold ctx
      → (determine_route F r errors ctx).0 ≢ DecisionRoute.cloud_llm
  determine_route-confined errors ctx h e =
      let (_, score, signal, kinds, _) = (determine_route-cloud_iff errors ctx).0 e in
      elim h [
        | inl more ↦ omega arith
        | inr (inl has) ↦ absurd (ground arith)
        | inr (inr few) ↦ omega arith
      ]

  consult-with_cloud :
      (route : DecisionRoute) (input : ModelInput) (cloud : Option (Backend F))
      → route ≢ DecisionRoute.cloud_llm
      → consult F (with_cloud cloud) route input ≡ consult F r route input
  unfolding consult
  consult-with_cloud DecisionRoute.rule_based input cloud h = refl
  consult-with_cloud DecisionRoute.local_evaluator input cloud h = refl
  consult-with_cloud DecisionRoute.cloud_llm input cloud h = absurd (h refl)
  consult-with_cloud DecisionRoute.fallback_no_op input cloud h = refl
  consult-with_cloud DecisionRoute.mock input cloud h = refl

  -- A window that has more sensitive hints than the threshold, a local actionable signal or fewer
  -- than two kinds of hints is kept from the cloud: which cloud backend is configured, if any, has
  -- no influence on the decision, nor on the state of the breaker.
  pub evaluate_blind :
      (clock : Clock) (errors : CircuitState) (input : ModelInput) (cloud : Option (Backend F))
      → IsConfined r.config.privacy_score_threshold input.current_context
      → evaluate_model_input F (with_cloud cloud) clock errors input
        ≡ evaluate_model_input F r clock errors input
  unfolding evaluate_model_input
  evaluate_blind clock errors input cloud h =
      let kept = with_user r.runtime_user_id input in
      let n = count_recent_errors r.config.circuit_breaker_window_secs clock errors in
      let decided = determine_route F r n input.current_context in
      rw (determine_route-with_cloud n input.current_context cloud h, determine_route)
        (rw
          (
            consult-with_cloud decided.0 kept cloud
                (determine_route-confined n input.current_context h),
            consult,
          )
          refl)
