-- ===== src/Lifecycle/Path.antt =====
-- The states of an action, and the steps between them.
use di_pecs.Base.{String, ◌≡◌, refl, Bool, true, false, Option, none, some, List, [], ◌∷◌, arith}
use di_pecs.Base.Int.{ℤ}
use di_pecs.Spec.Event.{SourceTier}
use di_pecs.Spec.Intent.{DecisionRoute, DenialReason}
use di_pecs.Spec.Governance.{
  ActionProposal, ActionState, AdapterError, AuditRecord, AuthorizedAction, PolicyVerdict,
  is_terminal, new_record, transition, seal,
}
use di_pecs.Lifecycle.{
  LifecycleError, AdapterResult, Adapter, ok, err, denial_to_terminal, settle, dispatch, decide,
  review,
}

-- The steps of the state machine.
pub data Step : ActionState → ActionState → Type 0 where
  validate : Step ActionState.proposed ActionState.schema_validated
  reject : Step ActionState.proposed ActionState.rejected_invalid_schema
  check : Step ActionState.schema_validated ActionState.policy_checked
  lose : Step ActionState.schema_validated ActionState.failed
  deny_capability : Step ActionState.policy_checked ActionState.denied_by_capability
  deny_policy : Step ActionState.policy_checked ActionState.denied_by_policy
  send : Step ActionState.policy_checked ActionState.dispatched
  succeed : Step ActionState.dispatched ActionState.succeeded
  fail : Step ActionState.dispatched ActionState.failed

-- The states that follow `s`, each by a step from the one before, up to the last one, `t`.
pub data Walk : ActionState → List ActionState → ActionState → Type 0 where
  stop : {s : ActionState} → Walk s [] s
  go :
      {s t u : ActionState} {rest : List ActionState}
      → Step s t
      → Walk t rest u
      → Walk s (t ∷ rest) u

ruleset walks =
    (stop, go, validate, reject, check, lose, deny_capability, deny_policy, send, succeed, fail)

-- No step leaves a terminal state.
pub Step-not_terminal : {s t : ActionState} → Step s t → is_terminal s ≡ false
Step-not_terminal validate = refl
Step-not_terminal reject = refl
Step-not_terminal check = refl
Step-not_terminal lose = refl
Step-not_terminal deny_capability = refl
Step-not_terminal deny_policy = refl
Step-not_terminal send = refl
Step-not_terminal succeed = refl
Step-not_terminal fail = refl

abbrev pub is_some {ℓ} : {A : Type ℓ} → Option A → Bool
is_some none = false
is_some (some _) = true

abbrev pub is_succeeded : ActionState → Bool
is_succeeded ActionState.succeeded = true
is_succeeded _ = false

abbrev pub is_denied : ActionState → Bool
is_denied ActionState.denied_by_capability = true
is_denied ActionState.denied_by_policy = true
is_denied _ = false

abbrev pub has_error : ActionState → Bool
has_error ActionState.rejected_invalid_schema = true
has_error ActionState.failed = true
has_error _ = false

denial-Step : (reason : DenialReason) → Step ActionState.policy_checked (denial_to_terminal reason)
unfolding denial_to_terminal
denial-Step DenialReason.risk_exceeds_capability = deny_capability
denial-Step DenialReason.action_capability_denied = deny_capability
denial-Step _ = deny_policy

denial-is_denied : (reason : DenialReason) → is_denied (denial_to_terminal reason) ≡ true
unfolding denial_to_terminal
denial-is_denied DenialReason.risk_exceeds_capability = refl
denial-is_denied _ = refl

-- A finished record: its transitions are a walk from `Proposed` to its terminal state, and it has
-- an outcome, a reason or an error exactly where that state calls for one.
pub record IsFinished (r : AuditRecord) : Type 0 where
  pub later : List ActionState
  pub starts : r.transitions ≡ ActionState.proposed ∷ later
  pub walk : Walk ActionState.proposed later r.terminal
  pub terminal : is_terminal r.terminal ≡ true
  pub outcome : is_some r.outcome ≡ is_succeeded r.terminal
  pub reason : is_some r.denial_reason ≡ is_denied r.terminal
  pub error : is_some r.error ≡ has_error r.terminal

module _ (lifecycle_text : LifecycleError → String) (adapter_text : AdapterError → String)
    (adapter : Adapter) (proposal : ActionProposal) (route : DecisionRoute) (tier : SourceTier)
    (at_ms : ℤ) (backend_error : Option String) (done : List AuthorizedAction) where
  settle-IsFinished :
      (result : AdapterResult)
      → IsFinished (
          settle lifecycle_text adapter_text adapter
            (transition ActionState.dispatched (
              transition ActionState.policy_checked
                (transition ActionState.schema_validated (new_record proposal route tier))))
            backend_error
            result)
  settle-IsFinished (ok o) = record {
    later =
        ActionState.schema_validated ∷ ActionState.policy_checked ∷ ActionState.dispatched
        ∷ ActionState.succeeded ∷ [];
    starts = refl;
    walk = search walks;
    terminal = refl;
    outcome = refl;
    reason = refl;
    error = refl;
  }
  settle-IsFinished (err e) = record {
    later =
        ActionState.schema_validated ∷ ActionState.policy_checked ∷ ActionState.dispatched
        ∷ ActionState.failed ∷ [];
    starts = refl;
    walk = search walks;
    terminal = refl;
    outcome = refl;
    reason = refl;
    error = refl;
  }

  pub review-IsFinished :
      (e : Option LifecycleError) (decision : Option PolicyVerdict)
      → IsFinished
          (review lifecycle_text adapter_text adapter
            (new_record proposal route tier)
            proposal
            at_ms
            backend_error
            e
            decision
            done).0
  unfolding review decide dispatch
  review-IsFinished (some e) decision = record {
    later = ActionState.rejected_invalid_schema ∷ [];
    starts = refl;
    walk = search walks;
    terminal = refl;
    outcome = refl;
    reason = refl;
    error = refl;
  }
  review-IsFinished none none = record {
    later = ActionState.schema_validated ∷ ActionState.failed ∷ [];
    starts = refl;
    walk = search walks;
    terminal = refl;
    outcome = refl;
    reason = refl;
    error = refl;
  }
  review-IsFinished none (some PolicyVerdict.approved) =
      settle-IsFinished (adapter done (seal proposal at_ms))
  review-IsFinished none (some (PolicyVerdict.denied reason)) = record {
    later =
        ActionState.schema_validated ∷ ActionState.policy_checked ∷ denial_to_terminal reason ∷ [];
    starts = refl;
    walk = search (walks, denial-Step);
    terminal = ground (arith, denial-is_denied reason);
    outcome = ground (arith, denial-is_denied reason);
    reason = ground (arith, denial-is_denied reason);
    error = ground (arith, denial-is_denied reason);
  }

  coord-settle :
      (r : AuditRecord) (result : AdapterResult)
      → (settle lifecycle_text adapter_text adapter r backend_error result).coord ≡ r.coord
  coord-settle r (ok o) = refl
  coord-settle r (err e) = refl

  -- The record of an action keeps the coordinate of its proposal.
  pub coord-review :
      (e : Option LifecycleError) (decision : Option PolicyVerdict)
      → (review lifecycle_text adapter_text adapter
          (new_record proposal route tier)
          proposal
          at_ms
          backend_error
          e
          decision
          done).0.coord
        ≡ proposal.coord
  unfolding review decide dispatch
  coord-review (some e) decision = refl
  coord-review none none = refl
  coord-review none (some PolicyVerdict.approved) =
      coord-settle
        (transition ActionState.dispatched (
          transition ActionState.policy_checked
            (transition ActionState.schema_validated (new_record proposal route tier))))
        (adapter done (seal proposal at_ms))
  coord-review none (some (PolicyVerdict.denied reason)) = refl
