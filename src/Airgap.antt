-- ===== src/Airgap.antt =====
-- crates/aios-core/src/privacy_airgap.rs: every raw event becomes a sanitized one. The new id of an
-- event and the two functions of the standard library on Unicode text and paths are parameters.
pub mod Text
pub mod Blind
use di_pecs.Base.{
  ℕ, ◌/◌, String, Bool, true, false, Option, none, some, List, [], ◌∷◌, ◌||◌, u32, if◌then◌else◌,
}
use di_pecs.Base.Text.{contains}
use di_pecs.Spec.Event.{
  RawEvent, AppTransitionRawEvent, BinderTxEvent, ProcStateEvent, FsAccessEvent,
  NotificationRawEvent, NotificationInteractionRawEvent, ScreenStateEvent, SystemStateEvent,
  FsAccessType, FsActivityType, InteractionType, ScriptHint, SemanticHint, SourceTier, TextHint,
}
use di_pecs.Spec.Sanitized.{
  SanitizedEvent, app_transition, inter_app_interaction, notification, process_resource,
  file_activity, screen, system_status,
}
use Text.{analyze_text, extract_semantic_hints, classify_extension}

-- the `match` on `target_method`; the last arm keeps `ServiceBind`
unfoldable pub interaction_of_method : String → InteractionType
interaction_of_method m =
    if contains m "enqueueNotification"
    then InteractionType.notify_post
    else if contains m "startActivity" || contains m "startActivityAsUser"
    then InteractionType.activity_launch
    else if contains m "share" || contains m "sendIntent"
    then InteractionType.share_intent
    else if contains m "bindService" || contains m "bindIsolatedService"
    then InteractionType.service_bind
    else InteractionType.service_bind

abbrev pub activity_of_access : FsAccessType → FsActivityType
activity_of_access FsAccessType.open_read = FsActivityType.read
activity_of_access FsAccessType.open_write = FsActivityType.write
activity_of_access FsAccessType.create = FsActivityType.create
activity_of_access FsAccessType.delete = FsActivityType.delete

abbrev pub no_hint : TextHint
no_hint = record { length_chars = 0; script = ScriptHint.unknown; is_emoji_only = false }

-- `hint.unwrap_or_else(|| analyze_text(text))`
abbrev pub hint_or : Option TextHint → String → TextHint
hint_or (some hint) text = hint
hint_or none text = analyze_text text

unfoldable pub sanitize_app_transition : String → AppTransitionRawEvent → SanitizedEvent
sanitize_app_transition id e = record {
  event_id = id;
  timestamp_ms = e.timestamp_ms;
  event_type = app_transition e.package_name e.activity_class e.transition;
  source_tier = SourceTier.public_api;
  app_package = some e.package_name;
  uid = none;
}

unfoldable pub sanitize_binder : String → BinderTxEvent → SanitizedEvent
sanitize_binder id e = record {
  event_id = id;
  timestamp_ms = e.timestamp_ms;
  event_type = inter_app_interaction none e.target_service (interaction_of_method e.target_method);
  source_tier = SourceTier.daemon;
  app_package = none;
  uid = some e.source_uid;
}

unfoldable pub sanitize_proc : String → ProcStateEvent → SanitizedEvent
sanitize_proc id e = record {
  event_id = id;
  timestamp_ms = e.timestamp_ms;
  event_type =
      process_resource e.pid e.package_name (u32 (e.vm_rss_kb / 1024)) (u32 (e.vm_swap_kb / 1024))
        e.threads e.oom_score;
  source_tier = SourceTier.daemon;
  app_package = e.package_name;
  uid = some e.uid;
}

unfoldable pub sanitize_interaction : String → NotificationInteractionRawEvent → SanitizedEvent
sanitize_interaction id e = record {
  event_id = id;
  timestamp_ms = e.timestamp_ms;
  event_type = notification e.package_name none none no_hint no_hint [] false none;
  source_tier = SourceTier.public_api;
  app_package = some e.package_name;
  uid = none;
}

unfoldable pub sanitize_screen : String → ScreenStateEvent → SanitizedEvent
sanitize_screen id e = record {
  event_id = id;
  timestamp_ms = e.timestamp_ms;
  event_type = screen e.state;
  source_tier = SourceTier.public_api;
  app_package = none;
  uid = none;
}

unfoldable pub sanitize_system : String → SystemStateEvent → SanitizedEvent
sanitize_system id e = record {
  event_id = id;
  timestamp_ms = e.timestamp_ms;
  event_type =
      system_status e.battery_pct e.is_charging e.network e.ringer_mode e.location_type
        e.headphone_connected;
  source_tier = SourceTier.public_api;
  app_package = none;
  uid = none;
}

-- `to_lowercase` of `str`, and the extension of a path as text, or "" without one
module _ (to_lowercase : String → String) (path_extension : String → String) where
  unfoldable pub sanitize_fs : String → FsAccessEvent → SanitizedEvent
  sanitize_fs id e = record {
    event_id = id;
    timestamp_ms = e.timestamp_ms;
    event_type =
        file_activity none (classify_extension to_lowercase path_extension e.file_path)
          (activity_of_access e.access_type) false;
    source_tier = SourceTier.daemon;
    app_package = none;
    uid = some e.uid;
  }

  -- hints of the collector come first; without any the text is searched
  abbrev pub hints_or : List SemanticHint → String → String → List SemanticHint
  hints_or [] title text = extract_semantic_hints to_lowercase title text
  hints_or (hint ∷ hints) title text = hint ∷ hints

  unfoldable pub sanitize_notification : String → NotificationRawEvent → SanitizedEvent
  sanitize_notification id e = record {
    event_id = id;
    timestamp_ms = e.timestamp_ms;
    event_type =
        notification e.package_name e.category e.channel_id (hint_or e.title_hint e.raw_title)
          (hint_or e.text_hint e.raw_text) (hints_or e.semantic_hints e.raw_title e.raw_text)
          e.is_ongoing none;
    source_tier = SourceTier.public_api;
    app_package = some e.package_name;
    uid = none;
  }

  unfoldable pub sanitize : String → RawEvent → SanitizedEvent
  sanitize id (RawEvent.app_transition e) = sanitize_app_transition id e
  sanitize id (RawEvent.binder_transaction e) = sanitize_binder id e
  sanitize id (RawEvent.proc_state_change e) = sanitize_proc id e
  sanitize id (RawEvent.file_system_access e) = sanitize_fs id e
  sanitize id (RawEvent.notification_posted e) = sanitize_notification id e
  sanitize id (RawEvent.notification_interaction e) = sanitize_interaction id e
  sanitize id (RawEvent.screen_state e) = sanitize_screen id e
  sanitize id (RawEvent.system_state e) = sanitize_system id e

  -- `sanitize_with_tier` of the trait `PrivacySanitizer`
  unfoldable pub sanitize_with_tier : String → RawEvent → SourceTier → SanitizedEvent
  sanitize_with_tier id raw tier = record (sanitize id raw) { source_tier = tier }
