-- ===== src/Memory/Observe.antt =====
-- crates/aios-core/src/context_memory.rs: `observe_window`.
pub mod Frame
pub mod Runs
pub mod Waiting
pub mod Accounting
pub mod Bounds
pub mod Recent
pub mod Settling
use di_pecs.Base.{
  ℕ, suc, ◌+◌, String, Bool, true, false, Option, none, some, List, [], ◌∷◌, ◌++◌, map, length, min,
  u32,
}
use di_pecs.Base.Maps.{Map}
use di_pecs.Spec.Event.{SemanticHint}
use di_pecs.Spec.Context.{RecentDecisionRecord, StructuredContext}
use di_pecs.Spec.Intent.{DecisionBackendResult, action_name}
use di_pecs.Spec.Governance.{ActionState, AuditRecord}
use di_pecs.Memory.Scores.{Scores, increment, add_momentum, decay_map, hint_name}
use di_pecs.Memory.Feedback.{action_feedback, route_name}
use di_pecs.Memory.Store.{ModelMemoryStore, trim_recent}
use di_pecs.Memory.Prewarm.{registered_all, resolve_pending_prewarms}

unfoldable pub increment_each : List String → Map ℕ → Map ℕ
increment_each [] counts = counts
increment_each (key ∷ keys) counts = increment_each keys (increment counts key)

-- the record of the window
unfoldable pub feedback_of :
    {F : Type 0}
    → StructuredContext
    → DecisionBackendResult F
    → List AuditRecord
    → RecentDecisionRecord
feedback_of context decision audit_records = record {
  window_id = context.window_id;
  window_start_ms = context.window_start_ms;
  window_end_ms = context.window_end_ms;
  foreground_apps = context.summary.foreground_apps;
  notified_apps = context.summary.notified_apps;
  semantic_hints = context.summary.all_semantic_hints;
  route = route_name decision.route;
  model = decision.intent_batch.model;
  intent_count = u32 (length decision.intent_batch.intents);
  rationale_tags = decision.rationale_tags;
  backend_error = decision.error;
  action_outcomes = map action_feedback audit_records;
}

module _ (sc : Scores) where
  open sc use {F64, thousandths}

  unfoldable pub momentum_each : List String → Map F64 → Map F64
  momentum_each [] scores = scores
  momentum_each (key ∷ keys) scores = momentum_each keys (add_momentum sc scores key)

  unfoldable pub decay_momentum : ModelMemoryStore sc → ModelMemoryStore sc
  decay_momentum s =
      let decay = thousandths s.momentum_decay_milli in
      record s {
        foreground_momentum = decay_map sc s.foreground_momentum decay;
        notifying_momentum = decay_map sc s.notifying_momentum decay;
        semantic_hint_momentum = decay_map sc s.semantic_hint_momentum decay;
        action_success_momentum = decay_map sc s.action_success_momentum decay;
        action_denial_momentum = decay_map sc s.action_denial_momentum decay;
        action_failure_momentum = decay_map sc s.action_failure_momentum decay;
        prewarm_hit_momentum = decay_map sc s.prewarm_hit_momentum decay;
        prewarm_miss_momentum = decay_map sc s.prewarm_miss_momentum decay;
      }

  -- the `match record.terminal` of the loop over the audit records
  unfoldable pub count_terminal : ActionState → String → ModelMemoryStore sc → ModelMemoryStore sc
  count_terminal ActionState.succeeded action s = record s {
    action_success_counts = increment s.action_success_counts action;
    action_success_momentum = add_momentum sc s.action_success_momentum action;
  }
  count_terminal ActionState.denied_by_capability action s = record s {
    action_denial_counts = increment s.action_denial_counts action;
    action_denial_momentum = add_momentum sc s.action_denial_momentum action;
  }
  count_terminal ActionState.denied_by_policy action s = record s {
    action_denial_counts = increment s.action_denial_counts action;
    action_denial_momentum = add_momentum sc s.action_denial_momentum action;
  }
  count_terminal ActionState.rejected_invalid_schema action s = record s {
    action_denial_counts = increment s.action_denial_counts action;
    action_denial_momentum = add_momentum sc s.action_denial_momentum action;
  }
  count_terminal ActionState.failed action s = record s {
    action_failure_counts = increment s.action_failure_counts action;
    action_failure_momentum = add_momentum sc s.action_failure_momentum action;
  }
  count_terminal _ action s = s

  unfoldable pub count_records : List AuditRecord → ModelMemoryStore sc → ModelMemoryStore sc
  count_records [] s = s
  count_records (r ∷ rs) s =
      count_records rs (count_terminal r.terminal (action_name r.action_type) s)

  -- the number of windows, the last one, and the counters of apps and hints
  unfoldable pub count_window : StructuredContext → ModelMemoryStore sc → ModelMemoryStore sc
  count_window context s =
      let hints = map hint_name context.summary.all_semantic_hints in
      record s {
        observation_windows = min 4294967295 (suc s.observation_windows);
        last_updated_window_id = some context.window_id;
        foreground_counts = increment_each context.summary.foreground_apps s.foreground_counts;
        foreground_momentum = momentum_each context.summary.foreground_apps s.foreground_momentum;
        notifying_counts = increment_each context.summary.notified_apps s.notifying_counts;
        notifying_momentum = momentum_each context.summary.notified_apps s.notifying_momentum;
        semantic_hint_counts = increment_each hints s.semantic_hint_counts;
        semantic_hint_momentum = momentum_each hints s.semantic_hint_momentum;
      }

  -- `trim` is `str::trim`
  unfoldable pub observe_window :
      {F : Type 0}
      → (String → String)
      → StructuredContext
      → DecisionBackendResult F
      → List AuditRecord
      → ModelMemoryStore sc
      → ModelMemoryStore sc
  observe_window trim context decision audit_records s =
      let resolved = resolve_pending_prewarms sc context.summary.foreground_apps s in
      let counted = count_records audit_records (count_window context (decay_momentum resolved)) in
      record counted {
        recent =
            trim_recent sc counted.recent_limit
              (counted.recent ++ feedback_of context decision audit_records ∷ []);
        pending_prewarms =
            counted.pending_prewarms ++ registered_all trim context.window_id audit_records;
      }
