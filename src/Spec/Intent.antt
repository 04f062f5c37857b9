-- ===== src/Spec/Intent.antt =====
-- crates/aios-spec/src/intent.rs: what a decision backend proposes, and what its route may propose.
-- `F` stands for `f32`.
use di_pecs.Base.{ℕ, String, Bool, Option, List, [], ◌∷◌, any, leb, ◌==◌}
use di_pecs.Base.Int.{ℤ}
use di_pecs.Spec.Event.{ExtensionCategory}

pub data DecisionRoute : Type 0 where
  rule_based local_evaluator cloud_llm fallback_no_op mock : DecisionRoute

pub data IntentType : Type 0 where
  open_app switch_to_app check_notification : String → IntentType
  handle_file : ExtensionCategory → IntentType
  enter_context : String → IntentType
  idle : IntentType

pub data RiskLevel : Type 0 where
  low medium high : RiskLevel

pub data ActionType : Type 0 where
  pre_warm_process prefetch_file keep_alive release_memory no_op : ActionType

pub data ActionUrgency : Type 0 where
  immediate idle_time deferred : ActionUrgency

pub record SuggestedAction : Type 0 where
  pub action_type : ActionType
  pub target : Option String
  pub urgency : ActionUrgency

pub record Intent (F : Type 0) : Type 0 where
  pub intent_id : String
  pub intent_type : IntentType
  pub confidence : F
  pub risk_level : RiskLevel
  pub suggested_actions : List SuggestedAction
  pub rationale_tags : List String

pub record IntentBatch (F : Type 0) : Type 0 where
  pub window_id : String
  pub intents : List (Intent F)
  pub generated_at_ms : ℤ
  pub model : String

pub record DecisionBackendResult (F : Type 0) : Type 0 where
  pub route : DecisionRoute
  pub intent_batch : IntentBatch F
  pub rationale_tags : List String
  pub latency_us : ℕ
  pub error : Option String

pub data DenialReason : Type 0 where
  risk_exceeds_config risk_exceeds_capability confidence_too_low action_type_blocked : DenialReason
  action_urgency_deferred action_capability_denied target_not_in_context : DenialReason
  batch_action_cap_exceeded : DenialReason

pub record CapabilityLevel : Type 0 where
  pub max_risk : RiskLevel
  pub allowed_actions : List ActionType

-- `risk as u8`
abbrev pub risk_rank : RiskLevel → ℕ
risk_rank RiskLevel.low = 0
risk_rank RiskLevel.medium = 1
risk_rank RiskLevel.high = 2

-- the derived `==` of `ActionType`, by discriminant
abbrev pub action_rank : ActionType → ℕ
action_rank ActionType.pre_warm_process = 0
action_rank ActionType.prefetch_file = 1
action_rank ActionType.keep_alive = 2
action_rank ActionType.release_memory = 3
action_rank ActionType.no_op = 4

abbrev pub action_eq : ActionType → ActionType → Bool
action_eq a b = action_rank a == action_rank b

-- `{:?}` of an `ActionType`
abbrev pub action_name : ActionType → String
action_name ActionType.pre_warm_process = "PreWarmProcess"
action_name ActionType.prefetch_file = "PrefetchFile"
action_name ActionType.keep_alive = "KeepAlive"
action_name ActionType.release_memory = "ReleaseMemory"
action_name ActionType.no_op = "NoOp"

unfoldable pub for_route : DecisionRoute → CapabilityLevel
for_route DecisionRoute.rule_based = record {
  max_risk = RiskLevel.low;
  allowed_actions = ActionType.no_op ∷ ActionType.release_memory ∷ ActionType.keep_alive ∷ [];
}
for_route DecisionRoute.local_evaluator = record {
  max_risk = RiskLevel.low;
  allowed_actions =
      ActionType.no_op ∷ ActionType.pre_warm_process ∷ ActionType.prefetch_file
      ∷ ActionType.release_memory ∷ ActionType.keep_alive ∷ [];
}
for_route DecisionRoute.cloud_llm = record {
  max_risk = RiskLevel.medium;
  allowed_actions =
      ActionType.no_op ∷ ActionType.pre_warm_process ∷ ActionType.prefetch_file
      ∷ ActionType.keep_alive ∷ ActionType.release_memory ∷ [];
}
for_route DecisionRoute.fallback_no_op = record {
  max_risk = RiskLevel.low;
  allowed_actions = ActionType.no_op ∷ [];
}
for_route DecisionRoute.mock = record {
  max_risk = RiskLevel.medium;
  allowed_actions =
      ActionType.no_op ∷ ActionType.pre_warm_process ∷ ActionType.prefetch_file
      ∷ ActionType.keep_alive ∷ ActionType.release_memory ∷ [];
}

unfoldable pub allows_risk : CapabilityLevel → RiskLevel → Bool
allows_risk capability risk = leb (risk_rank risk) (risk_rank capability.max_risk)

unfoldable pub allows_action : CapabilityLevel → ActionType → Bool
allows_action capability action = any (λ a. action_eq a action) capability.allowed_actions
