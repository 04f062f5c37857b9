-- ===== src/Spec/Context.antt =====
-- crates/aios-spec/src/context.rs: a closed window and the input of the decision backends.
use di_pecs.Base.{ℕ, String, Bool, Option, none, List, []}
use di_pecs.Base.Int.{ℤ}
use di_pecs.Spec.Event.{
  ExtensionCategory, LocationType, NetworkType, RingerMode, SemanticHint, SourceTier,
}
use di_pecs.Spec.Sanitized.{SanitizedEvent}

pub record SystemStatusSnapshot : Type 0 where
  pub battery_pct : Option ℕ
  pub is_charging : Bool
  pub network : NetworkType
  pub ringer_mode : RingerMode
  pub location_type : LocationType
  pub headphone_connected : Bool

pub record ContextSummary : Type 0 where
  pub foreground_apps : List String
  pub notified_apps : List String
  pub all_semantic_hints : List SemanticHint
  pub file_activity : List (ExtensionCategory × ℕ)
  pub latest_system_status : Option SystemStatusSnapshot
  pub source_tier : SourceTier

pub record StructuredContext : Type 0 where
  pub window_id : String
  pub window_start_ms : ℤ
  pub window_end_ms : ℤ
  pub duration_secs : ℕ
  pub events : List SanitizedEvent
  pub summary : ContextSummary

pub data FeedbackCorrectness : Type 0 where
  likely_correct prediction_hit prediction_miss policy_rejected execution_failed neutral_no_op :
      FeedbackCorrectness
  unknown : FeedbackCorrectness

pub record ActionFeedbackRecord : Type 0 where
  pub action_type : String
  pub target : Option String
  pub terminal : String
  pub correctness : FeedbackCorrectness
  pub correctness_evidence : String
  pub denial_reason : Option String
  pub error : Option String
  pub outcome_summary : Option String

pub record RecentDecisionRecord : Type 0 where
  pub window_id : String
  pub window_start_ms : ℤ
  pub window_end_ms : ℤ
  pub foreground_apps : List String
  pub notified_apps : List String
  pub semantic_hints : List SemanticHint
  pub route : String
  pub model : String
  pub intent_count : ℕ
  pub rationale_tags : List String
  pub backend_error : Option String
  pub action_outcomes : List ActionFeedbackRecord

pub record UserBehaviorProfile : Type 0 where
  pub user_id : Option String
  pub summary : String
  pub observation_windows : ℕ
  pub frequent_foreground_apps : List (String × ℕ)
  pub frequent_notifying_apps : List (String × ℕ)
  pub frequent_semantic_hints : List (SemanticHint × ℕ)
  pub action_successes : List (String × ℕ)
  pub action_denials : List (String × ℕ)
  pub action_failures : List (String × ℕ)
  pub last_updated_window_id : Option String

pub record ModelInput : Type 0 where
  pub current_context : StructuredContext
  pub behavior_profile : UserBehaviorProfile
  pub recent_feedback : List RecentDecisionRecord

-- the derived `Default` of `UserBehaviorProfile`
abbrev pub default_profile : UserBehaviorProfile
default_profile = record {
  user_id = none;
  summary = "";
  observation_windows = 0;
  frequent_foreground_apps = [];
  frequent_notifying_apps = [];
  frequent_semantic_hints = [];
  action_successes = [];
  action_denials = [];
  action_failures = [];
  last_updated_window_id = none;
}

unfoldable pub current_only : StructuredContext → ModelInput
current_only current_context = record {
  current_context = current_context;
  behavior_profile = default_profile;
  recent_feedback = [];
}
