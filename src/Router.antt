-- ===== src/Router.antt =====
-- crates/aios-agent/src/router/mod.rs: the choice of a decision backend, and the circuit breaker.
-- A backend is a function of its input. `Instant` is a number of nanoseconds, and what `now()`
-- answers at each call is a parameter; the state of the breaker is passed along.
pub mod Signals
pub mod Privacy
pub mod Breaker
pub mod Merge
use di_pecs.Base.{
  ℕ, ◌+◌, ◌-◌, ◌*◌, ◌%◌, String, Bool, true, false, Option, none, some, List, [], ◌∷◌, ◌++◌, ◌&&◌,
  ◌||◌, not, ltb, leb, any, all, count_if, length, u32, is_empty, first, if◌then◌else◌,
}
use di_pecs.Base.Text.{str_eq, member, concat, show}
use di_pecs.Spec.Event.{AppTransition, SemanticHint}
use di_pecs.Spec.Sanitized.{
  SanitizedEvent, SanitizedEventType, app_transition, notification, file_activity,
}
use di_pecs.Spec.Context.{StructuredContext, ModelInput, UserBehaviorProfile, current_only}
use di_pecs.Spec.Intent.{
  ActionType, DecisionBackendResult, DecisionRoute, Intent, IntentBatch, IntentType, action_eq,
}
use di_pecs.Window.{push_new_hints}
use Signals.{count_unique_semantic_hint_types, has_local_actionable_signal, privacy_score}

pub record RouterConfig : Type 0 where
  pub privacy_score_threshold : ℕ
  pub circuit_breaker_threshold : ℕ
  pub circuit_breaker_window_secs : ℕ

abbrev pub default_router_config : RouterConfig
default_router_config = record {
  privacy_score_threshold = 3;
  circuit_breaker_threshold = 5;
  circuit_breaker_window_secs = 60;
}

-- the instants of the errors since the last success
abbrev pub CircuitState : Type 0
CircuitState = List ℕ

-- what the calls of `Instant::now` answer: the two of `count_recent_errors`, and the one of
-- `record_error`
pub record Clock : Type 0 where
  pub now : ℕ
  pub now_again : ℕ
  pub now_recording : ℕ

-- `now.checked_sub(window).unwrap_or(now_again)`
unfoldable pub cutoff : ℕ → Clock → ℕ
cutoff window_secs clock =
    let window = window_secs * 1000000000 in
    if ltb clock.now window then clock.now_again else clock.now - window

unfoldable pub count_recent_errors : ℕ → Clock → CircuitState → ℕ
count_recent_errors window_secs clock errors =
    u32 (count_if (λ at. leb (cutoff window_secs clock) at) errors)

unfoldable pub update_circuit : Bool → Clock → CircuitState → CircuitState
update_circuit true clock errors = errors ++ clock.now_recording ∷ []
update_circuit false clock errors = []

pub data RoutingReason : Type 0 where
  circuit_breaker_tripped : ℕ → RoutingReason
  privacy_sensitive : ℕ → RoutingReason
  local_actionable_signal low_complexity : RoutingReason
  local_preferred cloud_preferred : String → RoutingReason

unfoldable pub reason_tag : RoutingReason → String
reason_tag (RoutingReason.circuit_breaker_tripped n) =
    concat "routing:circuit_breaker_fallback(errors=" (concat (show n) ")")
reason_tag (RoutingReason.privacy_sensitive score) =
    concat "routing:privacy_sensitive(score=" (concat (show score) ")")
reason_tag RoutingReason.local_actionable_signal = "routing:local_actionable_signal"
reason_tag RoutingReason.low_complexity = "routing:low_complexity"
reason_tag (RoutingReason.local_preferred complexity) =
    concat "routing:" (concat complexity "_complexity(local_evaluator)")
reason_tag (RoutingReason.cloud_preferred complexity) =
    concat "routing:" (concat complexity "_complexity(cloud_llm)")

-- `if input.behavior_profile.user_id.is_none()`
abbrev pub user_id_or : Option String → Option String → Option String
user_id_or (some id) runtime_user_id = some id
user_id_or none runtime_user_id = runtime_user_id

abbrev pub with_user : Option String → ModelInput → ModelInput
with_user runtime_user_id input = record input {
  behavior_profile = record input.behavior_profile {
    user_id = user_id_or input.behavior_profile.user_id runtime_user_id;
  };
}

abbrev pub is_error : Option String → Bool
is_error none = false
is_error (some _) = true

-- `if !tags.iter().any(|t| t == tag) { tags.push(tag) }`
abbrev pub add_tag : List String → String → List String
add_tag tags tag = if member tags tag then tags else tags ++ tag ∷ []

unfoldable pub merge_tags : List String → List String → List String
merge_tags target [] = target
merge_tags target (tag ∷ source) = merge_tags (add_tag target tag) source

abbrev pub merge_errors : Option String → Option String → Option String
merge_errors (some left) (some right) = some (concat left (concat "; " right))
merge_errors (some left) none = some left
merge_errors none right = right

module _ (F : Type 0) where
  abbrev pub Backend : Type 0
  Backend = ModelInput → DecisionBackendResult F

  pub record DecisionRouter : Type 0 where
    pub config : RouterConfig
    pub rule_based : Backend
    pub local_evaluator : Backend
    pub fallback : Backend
    pub cloud_llm : Option Backend
    pub cloud_disabled : Bool
    pub cloud_misconfigured : Option String
    pub runtime_user_id : Option String

  -- the last two branches of the source agree
  unfoldable pub cloud_route_or_fallback : DecisionRouter → String → DecisionRoute × RoutingReason
  cloud_route_or_fallback r complexity = elim r.cloud_llm [
    | some _ ↦ (DecisionRoute.cloud_llm, RoutingReason.cloud_preferred complexity)
    | none ↦
        if r.cloud_disabled || is_error r.cloud_misconfigured
        then (DecisionRoute.local_evaluator, RoutingReason.local_preferred complexity)
        else (DecisionRoute.local_evaluator, RoutingReason.local_preferred complexity)
  ]

  -- the four priorities, from the number of recent errors on
  unfoldable pub determine_route :
      DecisionRouter → ℕ → StructuredContext → DecisionRoute × RoutingReason
  determine_route r error_count context =
      let score = privacy_score context.events in
      let unique_types = count_unique_semantic_hint_types context.events in
      if leb r.config.circuit_breaker_threshold error_count
      then (DecisionRoute.fallback_no_op, RoutingReason.circuit_breaker_tripped error_count)
      else if ltb r.config.privacy_score_threshold score
      then (DecisionRoute.rule_based, RoutingReason.privacy_sensitive score)
      else if has_local_actionable_signal context.events
      then (DecisionRoute.local_evaluator, RoutingReason.local_actionable_signal)
      else if leb unique_types 1
      then (DecisionRoute.rule_based, RoutingReason.low_complexity)
      else if leb unique_types 3
      then cloud_route_or_fallback r "medium"
      else cloud_route_or_fallback r "high"

  -- a backend's own result, and whether it failed
  abbrev pub own_result : Backend → ModelInput → DecisionBackendResult F × Bool
  own_result backend input = let result = backend input in (result, is_error result.error)

  -- `if let Some(error) = cloud_result.error.as_deref()`
  abbrev pub cloud_or_rules :
      Backend
      → DecisionBackendResult F
      → Option String
      → ModelInput
      → DecisionBackendResult F × Bool
  cloud_or_rules rules cloud_result none input = (cloud_result, false)
  cloud_or_rules rules cloud_result (some error) input =
      let answer = rules input in
      (
        record answer {
          error = some (concat "cloud llm backend failed: " error);
          rationale_tags =
              answer.rationale_tags ++ "backend:cloud_llm_error(rule_based_fallback)" ∷ [];
        },
        true,
      )

  abbrev pub cloud_answer : Backend → Option Backend → ModelInput → DecisionBackendResult F × Bool
  cloud_answer rules none input = own_result rules input
  cloud_answer rules (some backend) input =
      let cloud_result = backend input in cloud_or_rules rules cloud_result cloud_result.error input

  -- the `match route` of `evaluate_model_input`
  unfoldable pub consult :
      DecisionRouter → DecisionRoute → ModelInput → DecisionBackendResult F × Bool
  consult r DecisionRoute.rule_based input = own_result r.rule_based input
  consult r DecisionRoute.local_evaluator input = own_result r.local_evaluator input
  consult r DecisionRoute.cloud_llm input = cloud_answer r.rule_based r.cloud_llm input
  consult r DecisionRoute.fallback_no_op input = (r.fallback input, false)
  consult r DecisionRoute.mock input = own_result r.rule_based input

  unfoldable pub evaluate_model_input :
      DecisionRouter → Clock → CircuitState → ModelInput → DecisionBackendResult F × CircuitState
  evaluate_model_input r clock errors given =
      let input = with_user r.runtime_user_id given in
      let (route, reason) =
        determine_route r (count_recent_errors r.config.circuit_breaker_window_secs clock errors)
          input.current_context in
      let (result, failed) = consult r route input in
      (
        record result { rationale_tags = add_tag result.rationale_tags (reason_tag reason) },
        update_circuit failed clock errors,
      )

  unfoldable pub evaluate :
      DecisionRouter
      → Clock
      → CircuitState
      → StructuredContext
      → DecisionBackendResult F × CircuitState
  evaluate r clock errors context = evaluate_model_input r clock errors (current_only context)

  unfoldable pub evaluate_with_profile :
      DecisionRouter
      → Clock
      → CircuitState
      → StructuredContext
      → UserBehaviorProfile
      → DecisionBackendResult F × CircuitState
  evaluate_with_profile r clock errors context profile =
      evaluate_model_input r clock errors
        (record (current_only context) { behavior_profile = profile })

  abbrev pub is_idle_type : IntentType → Bool
  is_idle_type IntentType.idle = true
  is_idle_type _ = false

  abbrev pub is_idle_noop : Intent F → Bool
  is_idle_noop intent =
      is_idle_type intent.intent_type
      && all (λ action. action_eq action.action_type ActionType.no_op) intent.suggested_actions

  -- the intent that `take_idle_noop` returns, and the vector that it leaves
  unfoldable pub take_idle_noop : List (Intent F) → Option (Intent F) × List (Intent F)
  take_idle_noop [] = (none, [])
  take_idle_noop (intent ∷ intents) =
      let (taken, rest) = take_idle_noop intents in
      if is_idle_noop intent then (some intent, intents) else (taken, intent ∷ rest)

  abbrev pub idle_or : Option (Intent F) → Option (Intent F) → List (Intent F)
  idle_or (some intent) other = intent ∷ []
  idle_or none (some intent) = intent ∷ []
  idle_or none none = []

  -- `CompositeLocalEvaluatorBackend::merge_results`
  unfoldable pub merge_results :
      ModelInput → DecisionBackendResult F → DecisionBackendResult F → DecisionBackendResult F
  merge_results input heuristic predictive =
      let (heuristic_idle, heuristic_intents) = take_idle_noop heuristic.intent_batch.intents in
      let (predictive_idle, predictive_intents) = take_idle_noop predictive.intent_batch.intents in
      let intents = heuristic_intents ++ predictive_intents in
      record {
        route = DecisionRoute.local_evaluator;
        intent_batch = record {
          window_id = input.current_context.window_id;
          intents = if is_empty intents then idle_or heuristic_idle predictive_idle else intents;
          generated_at_ms = input.current_context.window_end_ms;
          model = "local-evaluator+predictive-local-v0.1";
        };
        rationale_tags = merge_tags heuristic.rationale_tags predictive.rationale_tags;
        latency_us = (heuristic.latency_us + predictive.latency_us) % 18446744073709551616;
        error = merge_errors heuristic.error predictive.error;
      }
