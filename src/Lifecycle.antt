-- ===== src/Lifecycle.antt =====
-- crates/aios-core/src/action_lifecycle.rs: from a batch of intents to one audit record for each
-- suggested action, through the policy and an adapter.
-- An adapter may act on a device, so its answer may depend on the actions that it has executed:
-- it is a function of those, the latest first. `run` returns the records beside the actions that it
-- handed to the adapter.
pub mod Path
pub mod Audit
pub mod Lookup
pub mod Dispatch
pub mod Records
pub mod Sanction
use di_pecs.Base.{
  ℕ, suc, String, Bool, true, false, Option, none, some, List, [], ◌∷◌, ◌++◌, ◌==◌, ◌&&◌, ◌||◌, not,
  u32, if◌then◌else◌,
}
use di_pecs.Base.Int.{ℤ}
use di_pecs.Base.Text.{is_empty_str}
use di_pecs.Base.Floats.{Floats}
use di_pecs.Spec.Event.{SourceTier}
use di_pecs.Spec.Context.{StructuredContext}
use di_pecs.Spec.Intent.{
  ActionType, SuggestedAction, Intent, IntentBatch, DecisionRoute, DenialReason, RiskLevel,
  CapabilityLevel,
}
use di_pecs.Spec.Governance.{
  ActionCoord, ActionProposal, ActionState, ActionOutcome, AdapterError, AuditRecord, EffectClass,
  PolicyVerdict, PolicyActionDecision, AuthorizedAction, from_action_type, from_outcome, new_record,
  transition, seal,
}
use di_pecs.Policy.{PolicyConfig, evaluate_batch_with_context}

pub data LifecycleError : Type 0 where
  missing_policy_decision : ActionCoord → LifecycleError
  schema_violation : String → LifecycleError

pub data AdapterResult : Type 0 where
  ok : ActionOutcome → AdapterResult
  err : AdapterError → AdapterResult

-- an `ActionAdapter`: the actions that it has executed, and the action to execute
abbrev pub Adapter : Type 0
Adapter = List AuthorizedAction → AuthorizedAction → AdapterResult

-- `action.target.as_deref()` is `Some(t) if !t.is_empty()`
abbrev pub has_target : Option String → Bool
has_target none = false
has_target (some t) = not (is_empty_str t)

abbrev pub is_prewarm : ActionType → Bool
is_prewarm ActionType.pre_warm_process = true
is_prewarm _ = false

abbrev pub is_pure_read : EffectClass → Bool
is_pure_read EffectClass.pure_read = true
is_pure_read _ = false

abbrev pub is_high : RiskLevel → Bool
is_high RiskLevel.high = true
is_high _ = false

unfoldable pub validate_schema : ActionProposal → RiskLevel → Option LifecycleError
validate_schema proposal intent_risk =
    if is_prewarm proposal.action.action_type && not (has_target proposal.action.target)
    then some (LifecycleError.schema_violation "PreWarmProcess requires a non-empty target")
    else if is_pure_read proposal.effect && is_high intent_risk
    then some (LifecycleError.schema_violation "PureRead action cannot carry High risk intent")
    else none

unfoldable pub denial_to_terminal : DenialReason → ActionState
denial_to_terminal DenialReason.risk_exceeds_capability = ActionState.denied_by_capability
denial_to_terminal DenialReason.action_capability_denied = ActionState.denied_by_capability
denial_to_terminal _ = ActionState.denied_by_policy

-- `HashMap::get` after `collect`: of two decisions with one key the later one stays
unfoldable pub get_decision : ℕ → ℕ → List PolicyActionDecision → Option PolicyVerdict
get_decision i j [] = none
get_decision i j (d ∷ ds) = elim (get_decision i j ds) [
  | some verdict ↦ some verdict
  | none ↦ if d.intent_ordinal == i && d.action_ordinal == j then some d.verdict else none
]

module _ (fl : Floats) where
  open fl use {F32}

  -- the proposal for an action; the ordinals are 32-bit numbers
  abbrev pub proposal_for : ℕ → ℤ → Intent F32 → ℕ → ℕ → SuggestedAction → ActionProposal
  proposal_for window_ordinal at_ms intent i j action = record {
    intent_id = intent.intent_id;
    coord = record {
      window_ordinal = window_ordinal;
      intent_ordinal = u32 i;
      action_ordinal = u32 j;
    };
    action = action;
    effect = from_action_type action.action_type;
    proposed_at_ms = at_ms;
  }

-- What the texts of the two error types are is not modelled.
module _ (lifecycle_text : LifecycleError → String) (adapter_text : AdapterError → String)
    (adapter : Adapter) where
  -- the arms of `match self.adapter.execute(&authorized)`
  abbrev pub settle : AuditRecord → Option String → AdapterResult → AuditRecord
  settle dispatched backend_error (ok outcome) =
      record (transition ActionState.succeeded dispatched) {
        outcome = some (from_outcome outcome);
        backend_error = backend_error;
      }
  settle dispatched backend_error (err e) = record (transition ActionState.failed dispatched) {
    error = some (adapter_text e);
    backend_error = backend_error;
  }

  -- `Approved`: seal the proposal and hand it to the adapter
  unfoldable pub dispatch :
      AuditRecord
      → ActionProposal
      → ℤ
      → Option String
      → List AuthorizedAction
      → AuditRecord × List AuthorizedAction
  dispatch r proposal authorized_at_ms backend_error done =
      let authorized = seal proposal authorized_at_ms in
      let dispatched =
        transition ActionState.dispatched (transition ActionState.policy_checked r) in
      (settle dispatched backend_error (adapter done authorized), authorized ∷ done)

  -- the `match decision` of `run`, behind `SchemaValidated`
  unfoldable pub decide :
      AuditRecord
      → ActionProposal
      → ℤ
      → Option String
      → Option PolicyVerdict
      → List AuthorizedAction
      → AuditRecord × List AuthorizedAction
  decide r proposal authorized_at_ms backend_error (some PolicyVerdict.approved) done =
      dispatch r proposal authorized_at_ms backend_error done
  decide r proposal authorized_at_ms backend_error (some (PolicyVerdict.denied reason)) done = (
    record (transition (denial_to_terminal reason) (transition ActionState.policy_checked r)) {
      denial_reason = some reason;
      backend_error = backend_error;
    },
    done,
  )
  decide r proposal authorized_at_ms backend_error none done = (
    record (transition ActionState.failed r) {
      error = some (lifecycle_text (LifecycleError.missing_policy_decision proposal.coord));
      backend_error = backend_error;
    },
    done,
  )

  -- the `if let Some(err) = validate_schema(..)` of `run`
  unfoldable pub review :
      AuditRecord
      → ActionProposal
      → ℤ
      → Option String
      → Option LifecycleError
      → Option PolicyVerdict
      → List AuthorizedAction
      → AuditRecord × List AuthorizedAction
  review r proposal authorized_at_ms backend_error (some e) decision done = (
    record (transition ActionState.rejected_invalid_schema r) {
      error = some (lifecycle_text e);
      backend_error = backend_error;
    },
    done,
  )
  review r proposal authorized_at_ms backend_error none decision done =
      decide (transition ActionState.schema_validated r) proposal authorized_at_ms backend_error
        decision done

  module _ (fl : Floats) where
    open fl use {F32}

    module _ (window_ordinal : ℕ) (at_ms : ℤ) (route : DecisionRoute)
        (backend_error : Option String) (tier : SourceTier)
        (find : ℕ → ℕ → Option PolicyVerdict) where
      -- the body of the inner loop
      unfoldable pub run_action :
          Intent F32
          → ℕ
          → ℕ
          → SuggestedAction
          → List AuthorizedAction
          → AuditRecord × List AuthorizedAction
      run_action intent i j action done =
          let proposal = proposal_for fl window_ordinal at_ms intent i j action in
          review (new_record proposal route tier) proposal at_ms backend_error
            (validate_schema proposal intent.risk_level) (find (u32 i) (u32 j)) done

      -- the inner loop; `j` counts from 0
      unfoldable pub run_actions :
          Intent F32
          → ℕ
          → ℕ
          → List SuggestedAction
          → List AuthorizedAction
          → List AuditRecord × List AuthorizedAction
      run_actions intent i j [] done = ([], done)
      run_actions intent i j (action ∷ actions) done =
          let (r, done') = run_action intent i j action done in
          let (rs, done'') = run_actions intent i (suc j) actions done' in (r ∷ rs, done'')

      -- the outer loop; `i` counts from 0
      unfoldable pub run_intents :
          ℕ → List (Intent F32) → List AuthorizedAction → List AuditRecord × List AuthorizedAction
      run_intents i [] done = ([], done)
      run_intents i (intent ∷ intents) done =
          let (rs, done') = run_actions intent i 0 intent.suggested_actions done in
          let (rs', done'') = run_intents (suc i) intents done' in (rs ++ rs', done'')

    unfoldable pub run :
        PolicyConfig fl
        → ℕ
        → IntentBatch F32
        → DecisionRoute
        → Option String
        → CapabilityLevel
        → StructuredContext
        → List AuthorizedAction
        → List AuditRecord × List AuthorizedAction
    run config window_ordinal batch route backend_error capability ctx done =
        let decisions = evaluate_batch_with_context fl config batch capability ctx in
        run_intents window_ordinal batch.generated_at_ms route backend_error ctx.summary.source_tier
          (λ i j. get_decision i j decisions) 0 batch.intents done
