-- ===== src/Airgap/Blind.antt =====
-- What does not pass the privacy boundary.
use di_pecs.Base.{ℕ, ◌≡◌, refl, Bool, String, Option, some, List, ◌∷◌, arith}
use di_pecs.Spec.Event.{
  RawEvent, ProcState, NotificationAction, NotificationRawEvent, SemanticHint, SourceTier, TextHint,
}
use di_pecs.Airgap.{
  sanitize, sanitize_with_tier, sanitize_app_transition, sanitize_binder, sanitize_proc,
  sanitize_fs, sanitize_notification, sanitize_interaction, sanitize_screen, sanitize_system,
}

-- values for all that the boundary drops
pub record Secrets : Type 0 where
  pub group_key : Option String
  pub has_picture : Bool
  pub notification_key : String
  pub action : NotificationAction
  pub source_pid : ℕ
  pub is_oneway : Bool
  pub payload_size : ℕ
  pub io_read_mb : ℕ
  pub io_write_mb : ℕ
  pub state : ProcState
  pub fs_pid : ℕ
  pub bytes_transferred : Option ℕ
  pub bluetooth_connected : Bool

-- the event with other values for what the boundary drops
abbrev pub with_secrets : Secrets → RawEvent → RawEvent
with_secrets s (RawEvent.app_transition e) = RawEvent.app_transition e
with_secrets s (RawEvent.binder_transaction e) =
    RawEvent.binder_transaction (record e {
      source_pid = s.source_pid;
      is_oneway = s.is_oneway;
      payload_size = s.payload_size;
    })
with_secrets s (RawEvent.proc_state_change e) =
    RawEvent.proc_state_change
      (record e { io_read_mb = s.io_read_mb; io_write_mb = s.io_write_mb; state = s.state })
with_secrets s (RawEvent.file_system_access e) =
    RawEvent.file_system_access
      (record e { pid = s.fs_pid; bytes_transferred = s.bytes_transferred })
with_secrets s (RawEvent.notification_posted e) =
    RawEvent.notification_posted (record e { group_key = s.group_key; has_picture = s.has_picture })
with_secrets s (RawEvent.notification_interaction e) =
    RawEvent.notification_interaction
      (record e { notification_key = s.notification_key; action = s.action })
with_secrets s (RawEvent.screen_state e) = RawEvent.screen_state e
with_secrets s (RawEvent.system_state e) =
    RawEvent.system_state (record e { bluetooth_connected = s.bluetooth_connected })

module _ (to_lowercase : String → String) (path_extension : String → String) (id : String) where
  -- A sanitized event, whatever the tier of its source, does not depend on the group key or the
  -- picture of a notification, on the key or the kind of an interaction with one, on the process,
  -- direction or size of a binder call, on the traffic or state of a process, on the process or
  -- size of a file access, or on the Bluetooth connection.
  pub sanitize_blind :
      (s : Secrets) (raw : RawEvent) (tier : SourceTier)
      → sanitize_with_tier to_lowercase path_extension id (with_secrets s raw) tier
        ≡ sanitize_with_tier to_lowercase path_extension id raw tier
  unfolding sanitize_with_tier sanitize sanitize_app_transition sanitize_binder sanitize_proc
      sanitize_fs sanitize_notification sanitize_interaction sanitize_screen sanitize_system
  sanitize_blind s (RawEvent.app_transition e) tier = refl
  sanitize_blind s (RawEvent.binder_transaction e) tier = refl
  sanitize_blind s (RawEvent.proc_state_change e) tier = refl
  sanitize_blind s (RawEvent.file_system_access e) tier = refl
  sanitize_blind s (RawEvent.notification_posted e) tier = refl
  sanitize_blind s (RawEvent.notification_interaction e) tier = refl
  sanitize_blind s (RawEvent.screen_state e) tier = refl
  sanitize_blind s (RawEvent.system_state e) tier = refl

  -- If the collector supplies both text hints and at least one semantic hint, the sanitized
  -- notification does not depend on its title and text at all.
  pub notification_text_blind :
      (e : NotificationRawEvent) (raw_title raw_text : String) (title_hint text_hint : TextHint)
      (hint : SemanticHint) (hints : List SemanticHint) (tier : SourceTier)
      → e.title_hint ≡ some title_hint
      → e.text_hint ≡ some text_hint
      → e.semantic_hints ≡ hint ∷ hints
      → sanitize_with_tier to_lowercase path_extension id
          (RawEvent.notification_posted (record e { raw_title = raw_title; raw_text = raw_text }))
          tier
        ≡ sanitize_with_tier to_lowercase path_extension id (RawEvent.notification_posted e) tier
  unfolding sanitize_with_tier sanitize sanitize_notification
  notification_text_blind e raw_title raw_text title_hint text_hint hint hints tier p q r =
      ground arith
