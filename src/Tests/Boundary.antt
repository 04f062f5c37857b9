-- ===== src/Tests/Boundary.antt =====
-- The privacy boundary and the window on the sample events.
use di_pecs.Base.{◌≡◌, refl, String, true, none, some, List, [], ◌∷◌, arith, map, any, count_if}
use di_pecs.Base.Text.{member}
use di_pecs.Base.Int.{pos, negsuc, ◌+ℤ◌}
use di_pecs.Spec.Event.{
  ExtensionCategory, NotificationAction, ProcState, RawEvent, SemanticHint, SourceTier,
}
use di_pecs.Airgap.{sanitize_with_tier}
use di_pecs.Airgap.Blind.{Secrets, with_secrets, sanitize_blind, notification_text_blind}
use di_pecs.Window.{new, is_expired, build_summary}
use di_pecs.Window.Session.{Call, push_event, close_at, session, is_expired_iff}
use di_pecs.Window.Blocks.{Span, blocks_of, session-blocks, span_of, spans}
use di_pecs.Window.Summary.{
  Distinct, build_summary-apps, build_summary-tier, build_summary-counts, count_of, foreground_of,
  is_category, is_package, notifier_of,
}
use di_pecs.Tests.Samples.{chat, event, in_order, mail, plain, posted, window_events}

abbrev unchanged : String → String
unchanged s = s

abbrev secrets : Secrets
secrets = record {
  group_key = none;
  has_picture = true;
  notification_key = "k";
  action = NotificationAction.seen;
  source_pid = 1;
  is_oneway = true;
  payload_size = 2;
  io_read_mb = 3;
  io_write_mb = 4;
  state = ProcState.zombie;
  fs_pid = 5;
  bytes_transferred = some 6;
  bluetooth_connected = true;
}

sanitize_blind_example :
    sanitize_with_tier unchanged unchanged "e"
      (with_secrets secrets (RawEvent.notification_posted posted))
      SourceTier.daemon
    ≡ sanitize_with_tier unchanged unchanged "e"
        (RawEvent.notification_posted posted)
        SourceTier.daemon
sanitize_blind_example =
    sanitize_blind unchanged unchanged "e" secrets (RawEvent.notification_posted posted)
      SourceTier.daemon

notification_text_blind_example :
    sanitize_with_tier unchanged unchanged "e"
      (RawEvent.notification_posted (record posted { raw_title = "Bob"; raw_text = "123456" }))
      SourceTier.daemon
    ≡ sanitize_with_tier unchanged unchanged "e"
        (RawEvent.notification_posted posted)
        SourceTier.daemon
notification_text_blind_example =
    notification_text_blind unchanged unchanged "e" posted "Bob" "123456" plain plain
      SemanticHint.file_mention [] SourceTier.daemon refl refl refl

abbrev calls : List Call
calls =
    push_event (event chat)
    ∷ close_at "w" (pos 9)
    ∷ close_at "v" (pos 12)
    ∷ push_event (event mail)
    ∷ []

session-blocks_example :
    let chats : Span = record {
      window_id = "w";
      start_ms = pos 0;
      end_ms = pos 9;
      span_events = event chat ∷ [];
    } in
    (map span_of (session in_order (new 10 (pos 0)) calls).1 ≡ chats ∷ [])
    × ((session in_order (new 10 (pos 0)) calls).0.buffer ≡ event mail ∷ [])
unfolding blocks_of spans
session-blocks_example = session-blocks in_order (new 10 (pos 0)) calls

is_expired_iff_example : is_expired (new 10 (negsuc 999)) (pos 9000) ≡ true
unfolding ◌+ℤ◌
is_expired_iff_example =
    is_expired_iff (new 10 (negsuc 999)) (pos 9000) (omega arith) (omega arith) (omega arith)

build_summary-apps_example :
    ((p : String)
      → member (build_summary in_order window_events).foreground_apps p
        ≡ any (λ e. is_package p (foreground_of e.event_type)) window_events)
    × ((p : String)
        → member (build_summary in_order window_events).notified_apps p
          ≡ any (λ e. is_package p (notifier_of e.event_type)) window_events)
    × Distinct (build_summary in_order window_events).foreground_apps
    × Distinct (build_summary in_order window_events).notified_apps
build_summary-apps_example = build_summary-apps in_order window_events

build_summary-tier_example :
    (build_summary in_order window_events).source_tier ≡ SourceTier.public_api
build_summary-tier_example = build_summary-tier in_order window_events

build_summary-counts_example :
    count_of ExtensionCategory.document (build_summary in_order window_events).file_activity
    ≡ count_if (λ e. is_category ExtensionCategory.document e.event_type) window_events
build_summary-counts_example =
    build_summary-counts in_order (λ c m. refl) window_events ExtensionCategory.document
      (omega arith)
