-- ===== src/Memory/Feedback.antt =====
-- crates/aios-core/src/context_memory.rs: what an audit record says of the decision.
use di_pecs.Base.{String, Option, none, some}
use di_pecs.Spec.Context.{ActionFeedbackRecord, FeedbackCorrectness}
use di_pecs.Spec.Intent.{ActionType, DecisionRoute, DenialReason, action_name}
use di_pecs.Spec.Governance.{ActionOutcomeSummary, ActionState, AuditRecord}

-- `{:?}` of the enums
abbrev pub state_name : ActionState → String
state_name ActionState.proposed = "Proposed"
state_name ActionState.schema_validated = "SchemaValidated"
state_name ActionState.policy_checked = "PolicyChecked"
state_name ActionState.dispatched = "Dispatched"
state_name ActionState.succeeded = "Succeeded"
state_name ActionState.rejected_invalid_schema = "RejectedInvalidSchema"
state_name ActionState.denied_by_capability = "DeniedByCapability"
state_name ActionState.denied_by_policy = "DeniedByPolicy"
state_name ActionState.failed = "Failed"

abbrev pub route_name : DecisionRoute → String
route_name DecisionRoute.rule_based = "RuleBased"
route_name DecisionRoute.local_evaluator = "LocalEvaluator"
route_name DecisionRoute.cloud_llm = "CloudLlm"
route_name DecisionRoute.fallback_no_op = "FallbackNoOp"
route_name DecisionRoute.mock = "Mock"

abbrev pub reason_name : DenialReason → String
reason_name DenialReason.risk_exceeds_config = "RiskExceedsConfig"
reason_name DenialReason.risk_exceeds_capability = "RiskExceedsCapability"
reason_name DenialReason.confidence_too_low = "ConfidenceTooLow"
reason_name DenialReason.action_type_blocked = "ActionTypeBlocked"
reason_name DenialReason.action_urgency_deferred = "ActionUrgencyDeferred"
reason_name DenialReason.action_capability_denied = "ActionCapabilityDenied"
reason_name DenialReason.target_not_in_context = "TargetNotInContext"
reason_name DenialReason.batch_action_cap_exceeded = "BatchActionCapExceeded"

-- the `match record.terminal`
unfoldable pub correctness_of_state : ActionState → FeedbackCorrectness × String
correctness_of_state ActionState.succeeded =
    (FeedbackCorrectness.likely_correct, "policy approved and adapter reported success")
correctness_of_state ActionState.denied_by_capability =
    (FeedbackCorrectness.policy_rejected, "local policy or schema rejected the model suggestion")
correctness_of_state ActionState.denied_by_policy =
    (FeedbackCorrectness.policy_rejected, "local policy or schema rejected the model suggestion")
correctness_of_state ActionState.rejected_invalid_schema =
    (FeedbackCorrectness.policy_rejected, "local policy or schema rejected the model suggestion")
correctness_of_state ActionState.failed =
    (FeedbackCorrectness.execution_failed, "adapter attempted execution but returned failure")
correctness_of_state _ =
    (FeedbackCorrectness.unknown, "action did not reach a terminal feedback state")

unfoldable pub infer_correctness_of : ActionType → ActionState → FeedbackCorrectness × String
infer_correctness_of ActionType.no_op ActionState.succeeded =
    (FeedbackCorrectness.neutral_no_op, "NoOp succeeded; no behavioral preference inferred")
infer_correctness_of _ terminal = correctness_of_state terminal

unfoldable pub infer_correctness : AuditRecord → FeedbackCorrectness × String
infer_correctness r = infer_correctness_of r.action_type r.terminal

abbrev pub reason_text : Option DenialReason → Option String
reason_text none = none
reason_text (some reason) = some (reason_name reason)

abbrev pub summary_text : Option ActionOutcomeSummary → Option String
summary_text none = none
summary_text (some outcome) = some outcome.summary

unfoldable pub action_feedback : AuditRecord → ActionFeedbackRecord
action_feedback r = record {
  action_type = action_name r.action_type;
  target = r.target;
  terminal = state_name r.terminal;
  correctness = (infer_correctness r).0;
  correctness_evidence = (infer_correctness r).1;
  denial_reason = reason_text r.denial_reason;
  error = r.error;
  outcome_summary = summary_text r.outcome;
}
