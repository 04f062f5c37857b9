-- ===== src/Memory/Profile.antt =====
-- crates/aios-core/src/context_memory.rs: the profile that goes to a model.
pub mod Ranking
use di_pecs.Base.{ℕ, String, Option, none, some, List, [], ◌∷◌}
use di_pecs.Base.Text.{concat, show}
use di_pecs.Spec.Event.{SemanticHint}
use di_pecs.Spec.Context.{ModelInput, StructuredContext, UserBehaviorProfile}
use di_pecs.Memory.Scores.{Scores, hint_name, top, top_hints}
use di_pecs.Memory.Store.{ModelMemoryStore}

-- `join(",")`
unfoldable pub join : List String → String
join [] = ""
join (s ∷ []) = s
join (s ∷ t ∷ rest) = concat s (concat "," (join (t ∷ rest)))

unfoldable pub pair_texts {ℓ} : {K : Type ℓ} → (K → String) → List (K × ℕ) → List String
pair_texts name [] = []
pair_texts name ((key, count) ∷ rest) =
    concat (name key) (concat ":" (show count)) ∷ pair_texts name rest

unfoldable pub render_by {ℓ} : {K : Type ℓ} → (K → String) → List (K × ℕ) → String
render_by name [] = "none"
render_by name (value ∷ values) = join (pair_texts name (value ∷ values))

unfoldable pub render_pairs : List (String × ℕ) → String
render_pairs values = render_by (λ key. key) values

unfoldable pub render_hint_pairs : List (SemanticHint × ℕ) → String
render_hint_pairs values = render_by hint_name values

pub record SummaryRenderInput : Type 0 where
  pub windows : ℕ
  pub momentum_decay_milli : ℕ
  pub prewarm_effect_windows : ℕ
  pub foreground : List (String × ℕ)
  pub notifying : List (String × ℕ)
  pub hints : List (SemanticHint × ℕ)
  pub successes : List (String × ℕ)
  pub denials : List (String × ℕ)
  pub failures : List (String × ℕ)
  pub prewarm_hits : List (String × ℕ)
  pub prewarm_misses : List (String × ℕ)

unfoldable pub render_summary : SummaryRenderInput → String
render_summary input = concat "observed_windows=" (
    concat (show input.windows) (
      concat "; momentum_decay_milli=" (
        concat (show input.momentum_decay_milli) (
          concat "; prewarm_effect_window=" (
            concat (show input.prewarm_effect_windows) (
              concat "; foreground_apps=" (
                concat (render_pairs input.foreground) (
                  concat "; notifying_apps=" (
                    concat (render_pairs input.notifying) (
                      concat "; semantic_hints=" (
                        concat (render_hint_pairs input.hints) (
                          concat "; successful_actions=" (
                            concat (render_pairs input.successes) (
                              concat "; denied_actions=" (
                                concat (render_pairs input.denials) (
                                  concat "; failed_actions=" (
                                    concat (render_pairs input.failures) (
                                      concat "; prewarm_effect_hits=" (
                                        concat (render_pairs input.prewarm_hits) (
                                          concat "; prewarm_effect_misses="
                                            (render_pairs input.prewarm_misses)))))))))))))))))))))

-- `match &self.llm_summary`
abbrev pub with_llm : Option String → String → String
with_llm (some llm) local_summary =
    concat "llm_summary=" (concat llm (concat "; local_counters=" local_summary))
with_llm none local_summary = local_summary

module _ (sc : Scores) where
  unfoldable pub behavior_profile : ModelMemoryStore sc → UserBehaviorProfile
  behavior_profile s =
      let foreground = top sc s.foreground_momentum s.foreground_counts s.top_limit in
      let notifying = top sc s.notifying_momentum s.notifying_counts s.top_limit in
      let hints = top_hints sc s.semantic_hint_momentum s.semantic_hint_counts s.top_limit in
      let successes = top sc s.action_success_momentum s.action_success_counts s.top_limit in
      let denials = top sc s.action_denial_momentum s.action_denial_counts s.top_limit in
      let failures = top sc s.action_failure_momentum s.action_failure_counts s.top_limit in
      let local_summary = render_summary (record {
        windows = s.observation_windows;
        momentum_decay_milli = s.momentum_decay_milli;
        prewarm_effect_windows = s.prewarm_effect_windows;
        foreground = foreground;
        notifying = notifying;
        hints = hints;
        successes = successes;
        denials = denials;
        failures = failures;
        prewarm_hits = top sc s.prewarm_hit_momentum s.prewarm_hit_counts s.top_limit;
        prewarm_misses = top sc s.prewarm_miss_momentum s.prewarm_miss_counts s.top_limit;
      }) in
      record {
        user_id = none;
        summary = with_llm s.llm_summary local_summary;
        observation_windows = s.observation_windows;
        frequent_foreground_apps = foreground;
        frequent_notifying_apps = notifying;
        frequent_semantic_hints = hints;
        action_successes = successes;
        action_denials = denials;
        action_failures = failures;
        last_updated_window_id = s.last_updated_window_id;
      }

  unfoldable pub model_input : StructuredContext → ModelMemoryStore sc → ModelInput
  model_input current_context s = record {
    current_context = current_context;
    behavior_profile = behavior_profile s;
    recent_feedback = s.recent;
  }
