-- ===== src/Spec/Event.antt =====
-- crates/aios-spec/src/event.rs: raw events, before the privacy boundary. An `i64` is a ℤ, and an
-- unsigned integer a number. A path or text is a `String`.
use di_pecs.Base.{ℕ, String, Bool, Option, List}
use di_pecs.Base.Int.{ℤ}

pub data AppTransition : Type 0 where
  foreground background : AppTransition

pub data ProcState : Type 0 where
  running sleeping zombie unknown : ProcState

pub data FsAccessType : Type 0 where
  open_read open_write create delete : FsAccessType

pub data NotificationAction : Type 0 where
  tapped dismissed cancelled seen : NotificationAction

pub data SourceTier : Type 0 where
  public_api daemon privileged_daemon system_image : SourceTier

pub data InteractionType : Type 0 where
  notify_post activity_launch share_intent service_bind : InteractionType

pub data ScriptHint : Type 0 where
  latin hanzi cyrillic arabic mixed unknown : ScriptHint

pub data SemanticHint : Type 0 where
  file_mention image_mention audio_message link_attachment user_mentioned calendar_invitation :
      SemanticHint
  financial_context verification_code : SemanticHint

pub data ExtensionCategory : Type 0 where
  document image video audio archive code other unknown : ExtensionCategory

pub data FsActivityType : Type 0 where
  read write create delete : FsActivityType

pub data ScreenState : Type 0 where
  interactive non_interactive keyguard_shown keyguard_hidden : ScreenState

pub data NetworkType : Type 0 where
  wifi cellular offline unknown : NetworkType

pub data RingerMode : Type 0 where
  normal vibrate silent : RingerMode

pub data LocationType : Type 0 where
  home work commute unknown : LocationType

pub record TextHint : Type 0 where
  pub length_chars : ℕ
  pub script : ScriptHint
  pub is_emoji_only : Bool

pub record AppTransitionRawEvent : Type 0 where
  pub timestamp_ms : ℤ
  pub package_name : String
  pub activity_class : Option String
  pub transition : AppTransition

pub record BinderTxEvent : Type 0 where
  pub timestamp_ms : ℤ
  pub source_pid : ℕ
  pub source_uid : ℕ
  pub target_service : String
  pub target_method : String
  pub is_oneway : Bool
  pub payload_size : ℕ

pub record ProcStateEvent : Type 0 where
  pub timestamp_ms : ℤ
  pub pid : ℕ
  pub uid : ℕ
  pub package_name : Option String
  pub vm_rss_kb : ℕ
  pub vm_swap_kb : ℕ
  pub threads : ℕ
  pub oom_score : ℤ
  pub io_read_mb : ℕ
  pub io_write_mb : ℕ
  pub state : ProcState

pub record FsAccessEvent : Type 0 where
  pub timestamp_ms : ℤ
  pub pid : ℕ
  pub uid : ℕ
  pub file_path : String
  pub access_type : FsAccessType
  pub bytes_transferred : Option ℕ

pub record NotificationRawEvent : Type 0 where
  pub timestamp_ms : ℤ
  pub package_name : String
  pub category : Option String
  pub channel_id : Option String
  pub raw_title : String
  pub raw_text : String
  pub title_hint : Option TextHint
  pub text_hint : Option TextHint
  pub semantic_hints : List SemanticHint
  pub is_ongoing : Bool
  pub group_key : Option String
  pub has_picture : Bool

pub record NotificationInteractionRawEvent : Type 0 where
  pub timestamp_ms : ℤ
  pub package_name : String
  pub notification_key : String
  pub action : NotificationAction

pub record ScreenStateEvent : Type 0 where
  pub timestamp_ms : ℤ
  pub state : ScreenState

pub record SystemStateEvent : Type 0 where
  pub timestamp_ms : ℤ
  pub battery_pct : Option ℕ
  pub is_charging : Bool
  pub network : NetworkType
  pub ringer_mode : RingerMode
  pub location_type : LocationType
  pub headphone_connected : Bool
  pub bluetooth_connected : Bool

pub data RawEvent : Type 0 where
  app_transition : AppTransitionRawEvent → RawEvent
  binder_transaction : BinderTxEvent → RawEvent
  proc_state_change : ProcStateEvent → RawEvent
  file_system_access : FsAccessEvent → RawEvent
  notification_posted : NotificationRawEvent → RawEvent
  notification_interaction : NotificationInteractionRawEvent → RawEvent
  screen_state : ScreenStateEvent → RawEvent
  system_state : SystemStateEvent → RawEvent

pub record CollectorEnvelope : Type 0 where
  pub schema_version : String
  pub source : String
  pub source_tier : SourceTier
  pub device_trace_id : Option String
  pub captured_at_ms : ℤ
  pub received_at_ms : Option ℤ
  pub raw_event : RawEvent

pub record IngestedRawEvent : Type 0 where
  pub raw_event : RawEvent
  pub source_tier : SourceTier
