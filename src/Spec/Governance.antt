-- ===== src/Spec/Governance.antt =====
-- crates/aios-spec/src/governance.rs: proposals, verdicts, the life of an action and its audit
-- record; crates/aios-core/src/governance/mod.rs: the sealed action and the adapter's answer.
use di_pecs.Base.{ℕ, String, Bool, true, false, Option, none, List, [], ◌∷◌, ◌++◌}
use di_pecs.Base.Int.{ℤ}
use di_pecs.Spec.Event.{SourceTier}
use di_pecs.Spec.Intent.{ActionType, DecisionRoute, DenialReason, SuggestedAction}

pub record ActionCoord : Type 0 where
  pub window_ordinal : ℕ
  pub intent_ordinal : ℕ
  pub action_ordinal : ℕ

pub data EffectClass : Type 0 where
  pure_read local_cache_write local_state_change : EffectClass

unfoldable pub from_action_type : ActionType → EffectClass
from_action_type ActionType.no_op = EffectClass.pure_read
from_action_type ActionType.prefetch_file = EffectClass.local_cache_write
from_action_type ActionType.pre_warm_process = EffectClass.local_state_change
from_action_type ActionType.keep_alive = EffectClass.local_state_change
from_action_type ActionType.release_memory = EffectClass.local_state_change

pub record ActionProposal : Type 0 where
  pub intent_id : String
  pub coord : ActionCoord
  pub action : SuggestedAction
  pub effect : EffectClass
  pub proposed_at_ms : ℤ

pub data ActionState : Type 0 where
  proposed schema_validated policy_checked dispatched succeeded rejected_invalid_schema :
      ActionState
  denied_by_capability denied_by_policy failed : ActionState

abbrev pub is_terminal : ActionState → Bool
is_terminal ActionState.succeeded = true
is_terminal ActionState.rejected_invalid_schema = true
is_terminal ActionState.denied_by_capability = true
is_terminal ActionState.denied_by_policy = true
is_terminal ActionState.failed = true
is_terminal _ = false

pub record ActionOutcome : Type 0 where
  pub action_type : String
  pub target : Option String
  pub summary : String
  pub latency_us : ℕ

pub record ActionOutcomeSummary : Type 0 where
  pub action_type : String
  pub target : Option String
  pub summary : String

abbrev pub from_outcome : ActionOutcome → ActionOutcomeSummary
from_outcome outcome = record {
  action_type = outcome.action_type;
  target = outcome.target;
  summary = outcome.summary;
}

pub data AdapterError : Type 0 where
  simulated_resource_unavailable android_bridge_error execution_error : String → AdapterError

pub data PolicyVerdict : Type 0 where
  approved : PolicyVerdict
  denied : DenialReason → PolicyVerdict

pub record PolicyActionDecision : Type 0 where
  pub intent_ordinal : ℕ
  pub action_ordinal : ℕ
  pub verdict : PolicyVerdict

pub record AuditRecord : Type 0 where
  pub coord : ActionCoord
  pub intent_id : String
  pub action_type : ActionType
  pub target : Option String
  pub effect : EffectClass
  pub route : DecisionRoute
  pub backend_error : Option String
  pub transitions : List ActionState
  pub terminal : ActionState
  pub outcome : Option ActionOutcomeSummary
  pub denial_reason : Option DenialReason
  pub error : Option String
  pub source_tier : SourceTier

-- `AuditRecord::new`
abbrev pub new_record : ActionProposal → DecisionRoute → SourceTier → AuditRecord
new_record proposal route source_tier = record {
  coord = proposal.coord;
  intent_id = proposal.intent_id;
  action_type = proposal.action.action_type;
  target = proposal.action.target;
  effect = proposal.effect;
  route = route;
  backend_error = none;
  transitions = ActionState.proposed ∷ [];
  terminal = ActionState.proposed;
  outcome = none;
  denial_reason = none;
  error = none;
  source_tier = source_tier;
}

abbrev pub transition : ActionState → AuditRecord → AuditRecord
transition state r = record r { transitions = r.transitions ++ state ∷ []; terminal = state }

pub record AuthorizedAction : Type 0 where
  pub intent_id : String
  pub coord : ActionCoord
  pub action : SuggestedAction
  pub effect : EffectClass
  pub authorized_at_ms : ℤ

abbrev pub seal : ActionProposal → ℤ → AuthorizedAction
seal proposal authorized_at_ms = record {
  intent_id = proposal.intent_id;
  coord = proposal.coord;
  action = proposal.action;
  effect = proposal.effect;
  authorized_at_ms = authorized_at_ms;
}
