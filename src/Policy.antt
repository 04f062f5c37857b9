-- ===== src/Policy.antt =====
-- crates/aios-core/src/policy_engine.rs: every suggested action of a batch gets one decision.
-- `debug!` lines are left out. `known` is `None` where no context is given.
pub mod Targets
pub mod Coverage
pub mod Verdicts
pub mod Approval
pub mod Known
use di_pecs.Base.{
  ℕ, suc, ◌+◌, String, Bool, true, false, Option, none, some, List, [], ◌∷◌, ◌++◌, any, leb, ltb,
  not, u32, if◌then◌else◌,
}
use di_pecs.Base.Text.{contains}
use di_pecs.Base.Floats.{Floats}
use di_pecs.Spec.Event.{SourceTier}
use di_pecs.Spec.Context.{StructuredContext}
use di_pecs.Spec.Intent.{
  ActionType, ActionUrgency, SuggestedAction, Intent, IntentBatch, DecisionRoute, DenialReason,
  RiskLevel, CapabilityLevel, risk_rank, action_name, for_route, allows_risk, allows_action,
}
use di_pecs.Spec.Governance.{PolicyActionDecision, PolicyVerdict}
use Targets.{KnownTargets, known_of_context, check_target}

-- `matches!(urgency, ActionUrgency::Deferred)`
abbrev pub is_deferred : ActionUrgency → Bool
is_deferred ActionUrgency.deferred = true
is_deferred _ = false

-- `action_name.contains(blocked)` for some blocked text
unfoldable pub is_blocked : List String → ActionType → Bool
is_blocked blocked_actions action =
    any (λ blocked. contains (action_name action) blocked) blocked_actions

abbrev pub denial : ℕ → ℕ → DenialReason → PolicyActionDecision
denial intent_ordinal action_ordinal reason = record {
  intent_ordinal = intent_ordinal;
  action_ordinal = u32 action_ordinal;
  verdict = PolicyVerdict.denied reason;
}

-- the `if let Some(k) = known` of the loop
unfoldable pub check_known : Option KnownTargets → SuggestedAction → Option DenialReason
check_known none action = none
check_known (some k) action = check_target action.action_type action.target k

module _ (fl : Floats) where
  open fl use {F32, lt, decimal}

  pub record PolicyConfig : Type 0 where
    pub max_auto_risk : RiskLevel
    pub blocked_actions : List String
    pub max_actions_per_batch : ℕ
    pub min_confidence : F32

  abbrev pub default_config : PolicyConfig
  default_config = record {
    max_auto_risk = RiskLevel.low;
    blocked_actions = [];
    max_actions_per_batch = 5;
    min_confidence = decimal 30;
  }

  -- `denied_all`; `action_ordinal` is the place of the first action that is left
  unfoldable pub denied_all :
      ℕ → ℕ → DenialReason → List SuggestedAction → List PolicyActionDecision
  denied_all intent_ordinal action_ordinal reason [] = []
  denied_all intent_ordinal action_ordinal reason (_ ∷ actions) =
      denial intent_ordinal action_ordinal reason
      ∷ denied_all intent_ordinal (suc action_ordinal) reason actions

  -- The tests of one action behind the cap, in the order of the source.
  unfoldable pub check_action :
      PolicyConfig → CapabilityLevel → Option KnownTargets → SuggestedAction → Option DenialReason
  check_action config capability known action =
      if is_blocked config.blocked_actions action.action_type
      then some DenialReason.action_type_blocked
      else if is_deferred action.urgency
      then some DenialReason.action_urgency_deferred
      else if not (allows_action capability action.action_type)
      then some DenialReason.action_capability_denied
      else check_known known action

  -- One round of the loop: the decision, and the new `approved_count`.
  unfoldable pub decide_action :
      PolicyConfig → CapabilityLevel → Option KnownTargets → ℕ → SuggestedAction → PolicyVerdict × ℕ
  decide_action config capability known approved_count action =
      if leb config.max_actions_per_batch approved_count
      then (PolicyVerdict.denied DenialReason.batch_action_cap_exceeded, approved_count)
      else elim (check_action config capability known action) [
        | some reason ↦ (PolicyVerdict.denied reason, approved_count)
        | none ↦ (PolicyVerdict.approved, approved_count + 1)
      ]

  -- the loop of `evaluate_intent`
  unfoldable pub evaluate_actions :
      PolicyConfig
      → CapabilityLevel
      → Option KnownTargets
      → ℕ
      → ℕ
      → ℕ
      → List SuggestedAction
      → List PolicyActionDecision
  evaluate_actions config capability known intent_ordinal action_ordinal approved_count [] = []
  evaluate_actions config capability known intent_ordinal action_ordinal approved_count
        (action ∷ actions) =
      let (verdict, approved_count') =
        decide_action config capability known approved_count action in
      record {
        intent_ordinal = intent_ordinal;
        action_ordinal = u32 action_ordinal;
        verdict = verdict;
      }
      ∷ evaluate_actions config capability known intent_ordinal (suc action_ordinal) approved_count'
          actions

  -- The tests of a whole intent, in the order of the source.
  unfoldable pub check_intent : PolicyConfig → CapabilityLevel → Intent F32 → Option DenialReason
  check_intent config capability intent =
      if not (allows_risk capability intent.risk_level)
      then some DenialReason.risk_exceeds_capability
      else if ltb (risk_rank config.max_auto_risk) (risk_rank intent.risk_level)
      then some DenialReason.risk_exceeds_config
      else if lt intent.confidence config.min_confidence
      then some DenialReason.confidence_too_low
      else none

  unfoldable pub evaluate_intent :
      PolicyConfig
      → Intent F32
      → ℕ
      → CapabilityLevel
      → Option KnownTargets
      → SourceTier
      → List PolicyActionDecision
  evaluate_intent config intent intent_ordinal capability known source_tier =
      elim (check_intent config capability intent) [
        | some reason ↦ denied_all intent_ordinal 0 reason intent.suggested_actions
        | none ↦
            evaluate_actions config capability known intent_ordinal 0 0 intent.suggested_actions
      ]

  -- the loop that the three entry points share; `n` counts from 0
  unfoldable pub evaluate_intents :
      PolicyConfig
      → CapabilityLevel
      → Option KnownTargets
      → SourceTier
      → ℕ
      → List (Intent F32)
      → List PolicyActionDecision
  evaluate_intents config capability known source_tier n [] = []
  evaluate_intents config capability known source_tier n (intent ∷ intents) =
      evaluate_intent config intent (u32 n) capability known source_tier
      ++ evaluate_intents config capability known source_tier (suc n) intents

  unfoldable pub evaluate_batch : PolicyConfig → IntentBatch F32 → List PolicyActionDecision
  evaluate_batch config batch =
      evaluate_intents config (for_route DecisionRoute.mock) none SourceTier.public_api 0
        batch.intents

  unfoldable pub evaluate_batch_with_capability :
      PolicyConfig → IntentBatch F32 → CapabilityLevel → List PolicyActionDecision
  evaluate_batch_with_capability config batch capability =
      evaluate_intents config capability none SourceTier.public_api 0 batch.intents

  unfoldable pub evaluate_batch_with_context :
      PolicyConfig
      → IntentBatch F32
      → CapabilityLevel
      → StructuredContext
      → List PolicyActionDecision
  evaluate_batch_with_context config batch capability ctx =
      evaluate_intents config capability (some (known_of_context ctx)) ctx.summary.source_tier 0
        batch.intents
