-- ===== src/Router/Breaker.antt =====
-- The circuit breaker over a sequence of calls.
use di_pecs.Base.{
  String, ℕ, ◌+◌, ◌^◌, ◌≤◌, ◌<◌, ◌≡◌, ◌≢◌, refl, true, false, map, Option, none, some, List, [],
  ◌∷◌, ◌++◌, arith, leb, length, count_if, All, All-append, length-append,
}
use di_pecs.Spec.Context.{StructuredContext, ModelInput}
use di_pecs.Spec.Intent.{DecisionRoute, DecisionBackendResult, IntentBatch}
use di_pecs.Router.Privacy.{determine_route-cloud_iff}
use di_pecs.Router.Signals.{
  count_unique_semantic_hint_types, has_local_actionable_signal, privacy_score,
}
use di_pecs.Router.{
  CircuitState, Clock, Backend, DecisionRouter, RoutingReason, count_recent_errors, cutoff,
  update_circuit, determine_route, consult, with_user, evaluate_model_input, is_error, add_tag,
  reason_tag, cloud_or_rules,
}

-- A call: what the clock answers, and the input.
abbrev pub Call : Type 0
Call = Clock × ModelInput

-- The calls all take place so near to `start` that an error at `start` is still counted.
abbrev pub IsRecent : ℕ → ℕ → Call → Type 0
IsRecent window_secs start call =
    (cutoff window_secs call.0 ≤ start) × (start ≤ call.0.now_recording)

-- A window that is neither private nor a matter for the local evaluator, with several kinds of hints.
abbrev pub IsForCloud : ℕ → StructuredContext → Type 0
IsForCloud threshold ctx =
    (privacy_score ctx.events ≤ threshold)
    × (has_local_actionable_signal ctx.events ≡ false)
    × (2 ≤ count_unique_semantic_hint_types ctx.events)

count_if-All :
    (bound start : ℕ) (errors : CircuitState)
    → bound ≤ start
    → All (λ at. start ≤ at) errors
    → count_if (λ at. leb bound at) errors ≡ length errors
count_if-All bound start [] h all_recent = refl
count_if-All bound start (at ∷ errors) h (recent, rest) =
    ground (arith, count_if-All bound start errors h rest)

count-All :
    (window_secs start : ℕ) (clock : Clock) (errors : CircuitState)
    → cutoff window_secs clock ≤ start
    → All (λ at. start ≤ at) errors
    → length errors < 2 ^ 32
    → count_recent_errors window_secs clock errors ≡ length errors
unfolding count_recent_errors
count-All window_secs start clock errors h all_recent small =
    omega (arith, count_if-All (cutoff window_secs clock) start errors h all_recent)

module _ (F : Type 0) (r : DecisionRouter F) where
  -- A call with a window for the cloud, on which the cloud backend reports an error.
  abbrev pub IsOutage : Backend F → Call → Type 0
  IsOutage cloud call =
      IsForCloud r.config.privacy_score_threshold call.1.current_context
      × (is_error (cloud (with_user r.runtime_user_id call.1)).error ≡ true)

  -- The breaker's state after a sequence of calls.
  unfoldable pub state_after : CircuitState → List Call → CircuitState
  state_after errors [] = errors
  state_after errors ((clock, input) ∷ calls) =
      state_after (evaluate_model_input F r clock errors input).1 calls

  -- The intents that a sequence of calls is answered with.
  unfoldable pub answers : CircuitState → List Call → List (IntentBatch F)
  answers errors [] = []
  answers errors ((clock, input) ∷ calls) =
      let (result, next) = evaluate_model_input F r clock errors input in
      result.intent_batch ∷ answers next calls

  -- the rule-based backend's intents for a call
  abbrev pub rules_batch : Call → IntentBatch F
  rules_batch call = (r.rule_based (with_user r.runtime_user_id call.1)).intent_batch

  cloud_or_rules-fails :
      (rules : Backend F) (result : DecisionBackendResult F) (error : Option String)
      (input : ModelInput)
      → is_error error ≡ true
      → ((cloud_or_rules F rules result error input).1 ≡ true)
        × ((cloud_or_rules F rules result error input).0.intent_batch ≡ (rules input).intent_batch)
  cloud_or_rules-fails rules result none input h = absurd (cc)
  cloud_or_rules-fails rules result (some e) input h = (refl, refl)

  module _ (cloud : Backend F) (configured : r.cloud_llm ≡ some cloud) where
    consult-outage :
        (input : ModelInput)
        → is_error (cloud input).error ≡ true
        → ((consult F r DecisionRoute.cloud_llm input).1 ≡ true)
          × ((consult F r DecisionRoute.cloud_llm input).0.intent_batch
              ≡ (r.rule_based input).intent_batch)
    unfolding consult
    consult-outage input fails =
        rw configured
          (cloud_or_rules-fails r.rule_based (cloud input) (cloud input).error input fails)

    call-outage :
        (start : ℕ) (clock : Clock) (input : ModelInput) (errors : CircuitState)
        → IsOutage cloud (clock, input)
        → cutoff r.config.circuit_breaker_window_secs clock ≤ start
        → All (λ at. start ≤ at) errors
        → length errors < r.config.circuit_breaker_threshold
        → r.config.circuit_breaker_threshold < 2 ^ 32
        → ((evaluate_model_input F r clock errors input).1 ≡ errors ++ clock.now_recording ∷ [])
          × ((evaluate_model_input F r clock errors input).0.intent_batch
              ≡ rules_batch (clock, input))
    unfolding evaluate_model_input update_circuit
    call-outage start clock input errors ((score, signal, kinds), fails) h recent below small =
        let n = count_recent_errors r.config.circuit_breaker_window_secs clock errors in
        let counted =
          count-All r.config.circuit_breaker_window_secs start clock errors h recent
            (omega arith) in
        let reachable : r.cloud_llm ≢ none = λ e. absurd (cc) in
        let routed =
          (determine_route-cloud_iff F r n input.current_context).1
            (omega arith, score, signal, kinds, reachable) in
        let (failed, batch) = consult-outage (with_user r.runtime_user_id input) fails in
        rw routed (rw (failed, update_circuit) (refl, batch))

    state_after-outage :
        (start : ℕ) (errors : CircuitState) (calls : List Call)
        → All (IsOutage cloud) calls
        → All (IsRecent r.config.circuit_breaker_window_secs start) calls
        → All (λ at. start ≤ at) errors
        → length errors + length calls ≤ r.config.circuit_breaker_threshold
        → r.config.circuit_breaker_threshold < 2 ^ 32
        → (answers errors calls ≡ map rules_batch calls)
          × (length (state_after errors calls) ≡ length errors + length calls)
          × All (λ at. start ≤ at) (state_after errors calls)
    unfolding state_after answers
    state_after-outage start errors [] outages calm recent below small = (refl, omega arith, recent)
    state_after-outage start errors ((clock, input) ∷ calls) (outage, outages) (near, calm) recent
          below small =
        let next = errors ++ clock.now_recording ∷ [] in
        let grown = length-append errors (clock.now_recording ∷ []) in
        let (answered, count, kept) =
          state_after-outage start next calls outages calm
            (All-append (λ at. start ≤ at) errors (clock.now_recording ∷ []) recent (near.1, tt))
            (omega arith) small in
        let (state, batch) =
          call-outage start clock input errors outage near.0 recent (omega arith) small in
        rw (state, batch, answered) (refl, omega arith, kept)

  tripped :
      (ctx : StructuredContext) (n : ℕ)
      → r.config.circuit_breaker_threshold ≤ n
      → determine_route F r n ctx
        ≡ (DecisionRoute.fallback_no_op, RoutingReason.circuit_breaker_tripped n)
  unfolding determine_route
  tripped ctx n h = ground arith

  -- Let the threshold be below 2 ^ 32, and take as many calls as it says, all with windows for the
  -- cloud (no more sensitive hints than the privacy threshold, no local actionable signal, at least
  -- two kinds of hints), on which the configured cloud backend reports an error, and so near to each other that no
  -- error is forgotten. They are answered with the rule-based backend's intents and leave one error
  -- each in the breaker. The next call, if it is near enough too, gets the fallback's answer whatever
  -- its window and whatever the other backends would answer, with a tag that names the number of
  -- errors, and forgets all errors.
  pub outage_trips :
      (cloud : Backend F) (start : ℕ) (calls : List Call) (clock : Clock) (input : ModelInput)
      → r.cloud_llm ≡ some cloud
      → All (IsOutage cloud) calls
      → All (IsRecent r.config.circuit_breaker_window_secs start) calls
      → cutoff r.config.circuit_breaker_window_secs clock ≤ start
      → length calls ≡ r.config.circuit_breaker_threshold
      → r.config.circuit_breaker_threshold < 2 ^ 32
      → let answer = r.fallback (with_user r.runtime_user_id input) in
        let tag = reason_tag (RoutingReason.circuit_breaker_tripped (length calls)) in
        (answers [] calls ≡ map rules_batch calls)
        × (length (state_after [] calls) ≡ length calls)
        × (evaluate_model_input F r clock (state_after [] calls) input
            ≡ (record answer { rationale_tags = add_tag answer.rationale_tags tag }, []))
  unfolding evaluate_model_input consult update_circuit
  outage_trips cloud start calls clock input configured outages calm near full small =
      let (answered, count, kept) =
        state_after-outage cloud configured start [] calls outages calm tt (omega arith) small in
      let n =
        count_recent_errors r.config.circuit_breaker_window_secs clock (state_after [] calls) in
      let counted : n ≡ length calls = omega (
        arith,
        count-All r.config.circuit_breaker_window_secs start clock (state_after [] calls) near kept
            (omega arith),
      ) in
      let fallen = tripped input.current_context (length calls) (omega arith) in
      (
        answered,
        omega arith,
        rw (counted, evaluate_model_input) (rw (fallen, evaluate_model_input) refl),
      )
