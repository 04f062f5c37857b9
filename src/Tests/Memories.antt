-- ===== src/Tests/Memories.antt =====
-- The memory on two windows: the first prewarms the mail app, the second opens it.
use di_pecs.Base.{
  ℕ, ◌*◌, ◌/◌, ◌+◌, ◌<◌, String, none, some, List, [], ◌∷◌, ◌≡◌, refl, arith, length, leb, ltb, All,
  max, min, count_if, Bool, ◌%◌,
}
use di_pecs.Base.Maps.{Map, last, IsOrdered, sort_by, insert_by}
use di_pecs.Spec.Event.{SemanticHint, SourceTier}
use di_pecs.Spec.Intent.{ActionType, DecisionBackendResult, DecisionRoute}
use di_pecs.Spec.Governance.{ActionState, AuditRecord, EffectClass}
use di_pecs.Memory.Scores.{Scores, hint_name, semantic_hint_from_debug, top_counts}
use di_pecs.Memory.Store.{
  clamp, ModelMemoryStore, default_memory_config, with_config, load_or_default,
}
use di_pecs.Memory.Observe.{observe_window}
use di_pecs.Memory.Observe.Frame.{window_ids}
use di_pecs.Memory.Observe.Runs.{Step, run}
use di_pecs.Memory.Observe.Bounds.{IsWithinLimits, load-IsWithinLimits, pending_in_time}
use di_pecs.Memory.Observe.Recent.{window_ids-run}
use di_pecs.Memory.Observe.Settling.{pending_settled}
use di_pecs.Memory.Observe.Accounting.{accounted, registrations, accounted-run}
use di_pecs.Memory.Profile.Ranking.{
  IsAhead, top_counts-IsRanking, semantic_hint_from_debug-hint_name,
}
use di_pecs.Tests.Samples.{batch, context}

-- scores in thousandths
abbrev pub thousandth_scores : Scores
thousandth_scores = record {
  F64 = ℕ;
  zero = 0;
  plus_one = λ v. v + 1000;
  times = λ v w. v * w / 1000;
  thousandths = λ n. n;
  lt = ltb;
  is_positive = ltb 0;
  is_kept = leb 10;
  to_count = λ v. max 1 ((v + 500) / 1000);
}

abbrev decision : DecisionBackendResult ℕ
decision = record {
  route = DecisionRoute.local_evaluator;
  intent_batch = batch;
  rationale_tags = [];
  latency_us = 0;
  error = none;
}

abbrev prewarmed : AuditRecord
prewarmed = record {
  coord = record { window_ordinal = 0; intent_ordinal = 0; action_ordinal = 0 };
  intent_id = "i";
  action_type = ActionType.pre_warm_process;
  target = some "pkg:com.mail";
  effect = EffectClass.local_state_change;
  route = DecisionRoute.local_evaluator;
  backend_error = none;
  transitions = [];
  terminal = ActionState.succeeded;
  outcome = none;
  denial_reason = none;
  error = none;
  source_tier = SourceTier.public_api;
}

abbrev pub no_trim : String → String
no_trim text = text

abbrev pub fresh : ModelMemoryStore thousandth_scores
fresh = with_config thousandth_scores default_memory_config

abbrev steps : List (Step ℕ)
steps =
    Step.observe context decision (prewarmed ∷ [])
    ∷ Step.summarise "note"
    ∷ Step.observe context decision (prewarmed ∷ [])
    ∷ Step.observe context decision []
    ∷ []

load-IsWithinLimits_example : IsWithinLimits thousandth_scores (
    run thousandth_scores no_trim steps
      (load_or_default thousandth_scores (record default_memory_config { recent_limit = 90 }) none))
load-IsWithinLimits_example =
    load-IsWithinLimits thousandth_scores no_trim
      (record default_memory_config { recent_limit = 90 }) none steps

pending_in_time_example :
    All
      (λ p. p.windows_observed < 3)
      (observe_window thousandth_scores no_trim context decision
        (prewarmed ∷ [])
        fresh).pending_prewarms
unfolding with_config clamp
pending_in_time_example =
    pending_in_time thousandth_scores no_trim context decision (prewarmed ∷ []) fresh (omega arith)

window_ids-run_example :
    window_ids (run thousandth_scores no_trim steps fresh).recent ≡ last 5 ("w" ∷ "w" ∷ "w" ∷ [])
unfolding with_config clamp context
window_ids-run_example = window_ids-run thousandth_scores no_trim steps fresh (omega arith)

abbrev waiting_memory : ModelMemoryStore thousandth_scores
waiting_memory = record fresh {
  pending_prewarms =
      record {
        window_id = "v";
        target = "pkg:com.chat";
        package_name = "com.chat";
        windows_observed = 1;
      }
      ∷ [];
}

pending_settled_example :
    (run thousandth_scores no_trim steps waiting_memory).pending_prewarms
    ≡ (run thousandth_scores no_trim steps
        (record waiting_memory { pending_prewarms = [] })).pending_prewarms
unfolding with_config clamp
pending_settled_example =
    pending_settled thousandth_scores no_trim steps waiting_memory (omega arith) (omega arith)
      (omega arith)

accounted-run_example :
    accounted thousandth_scores (run thousandth_scores no_trim steps waiting_memory)
    ≡ (1 + registrations no_trim steps) % 4294967296
unfolding with_config clamp
accounted-run_example = accounted-run thousandth_scores no_trim steps waiting_memory

abbrev counts : List (String × ℕ)
counts = ("a", 1) ∷ ("b", 3) ∷ ("c", 2) ∷ []

top_counts-IsRanking_example :
    (length (top_counts counts 2) ≡ min 2 (length counts))
    × (IsOrdered IsAhead (top_counts counts 2)
        × ((left_out : Map ℕ) × (((p : String × ℕ → Bool)
                → count_if p (top_counts counts 2) + count_if p left_out ≡ count_if p counts)
              × All (λ a. All (IsAhead a) left_out) (top_counts counts 2))))
top_counts-IsRanking_example = top_counts-IsRanking counts 2

top_counts_run : top_counts counts 2 ≡ ("b", 3) ∷ ("c", 2) ∷ []
unfolding top_counts sort_by insert_by
top_counts_run = refl

semantic_hint_from_debug-hint_name_example :
    semantic_hint_from_debug (hint_name SemanticHint.link_attachment)
    ≡ some SemanticHint.link_attachment
semantic_hint_from_debug-hint_name_example =
    semantic_hint_from_debug-hint_name SemanticHint.link_attachment
