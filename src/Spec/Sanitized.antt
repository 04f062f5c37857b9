-- ===== src/Spec/Sanitized.antt =====
-- crates/aios-spec/src/sanitized.rs: events behind the privacy boundary. The named fields of a
-- variant are the constructor's arguments, in the order of the source.
use di_pecs.Base.{ℕ, String, Bool, Option, List}
use di_pecs.Base.Int.{ℤ}
use di_pecs.Spec.Event.{
  AppTransition, ExtensionCategory, FsActivityType, InteractionType, LocationType, NetworkType,
  RingerMode, ScreenState, SemanticHint, SourceTier, TextHint,
}

pub data SanitizedEventType : Type 0 where
  app_transition :
      (package_name : String) (activity_class : Option String) (transition : AppTransition)
      → SanitizedEventType
  inter_app_interaction :
      (source_package : Option String) (target_service : String)
      (interaction_type : InteractionType)
      → SanitizedEventType
  notification :
      (source_package : String) (category channel_id : Option String)
      (title_hint text_hint : TextHint) (semantic_hints : List SemanticHint) (is_ongoing : Bool)
      (group_key : Option String)
      → SanitizedEventType
  process_resource :
      (pid : ℕ) (package_name : Option String) (vm_rss_mb vm_swap_mb thread_count : ℕ)
      (oom_score : ℤ)
      → SanitizedEventType
  file_activity :
      (package_name : Option String) (extension_category : ExtensionCategory)
      (activity_type : FsActivityType) (is_hot_file : Bool)
      → SanitizedEventType
  screen : (state : ScreenState) → SanitizedEventType
  system_status :
      (battery_pct : Option ℕ) (is_charging : Bool) (network : NetworkType)
      (ringer_mode : RingerMode) (location_type : LocationType) (headphone_connected : Bool)
      → SanitizedEventType

pub record SanitizedEvent : Type 0 where
  pub event_id : String
  pub timestamp_ms : ℤ
  pub event_type : SanitizedEventType
  pub source_tier : SourceTier
  pub app_package : Option String
  pub uid : Option ℕ
